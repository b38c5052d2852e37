-- ===== src/Voucher/Resolver/Contact.antt =====
-- When packages/nap-voucher/src/resolver.ts asks a mint, and what it logs.
use nap.Base.{
  ℕ, ◌≡◌, ◌⊎◌, subst, sym, inl, inr, Bool, true, Option, some, List, [], ◌∷◌, ◌++◌, arith,
  Bool-cases, Option-cases,
}
use nap.Text.{Text, includes}
use nap.Core.Types.{VoucherCredential}
use nap.Voucher.Dleq.{verify_proof_dleq}
use nap.Voucher.Platform.{Url}
use nap.Voucher.Allowlist.{resolve_mint, canonicalize_mint_url}
use nap.Voucher.Resolver.{
  VoucherOptions, VoucherWorld, VoucherCode, Vetted, vet, ask_mint, resolve_credential,
  resolve_vetted, decide_unanswered, grant_voucher, deny_with, mint_down, grant_unknown, accepted,
  is_declared, verified_by, dleq_of,
}
use nap.Voucher.Resolver.Offline.{
  IsVetted, vet-IsVetted, Vetting-cases, MintAnswer-cases, ProofState-cases,
  AvailabilityDecision-cases,
}

pub resolve_mint-listed :
    (url_parse : Text → Option Url) (origins : List Text) (given mint : Text)
    → resolve_mint url_parse origins given ≡ some mint
    → includes mint origins ≡ true
unfolding resolve_mint
resolve_mint-listed url_parse origins given mint h =
    elim (Option-cases (canonicalize_mint_url url_parse given)) [
      | inl e ↦ ground (arith, e)
      | inr (x, e) ↦ let same : x ≡ mint = ground (arith, e) in ground (arith, e, same)
    ]

module _ {P M F : Type 0} (options : VoucherOptions P M F) where
  -- What the mint client keeps true of its state, where it is asked for the key and the state of this
  -- credential, at the origin of a voucher that has passed every check without a network.
  unfoldable pub IsKept : Text → ℕ → VoucherCredential → (M → Type 0) → Type 0
  IsKept pubkey now credential holds =
      (v : Vetted) (m : M)
      → IsVetted options pubkey now credential v
      → holds m
      → holds (options.mint_client.get_key v.mint_url credential.keyset_id credential.amount m).1
        × holds (options.mint_client.check_state v.mint_url credential.secret m).1

  ask_mint-state :
      (credential : VoucherCredential) (v : Vetted) (w : VoucherWorld M F)
      → let asked =
          options.mint_client.get_key v.mint_url credential.keyset_id credential.amount w.mint in
        ((ask_mint options credential v w).1.mint ≡ asked.1)
        ⊎ ((ask_mint options credential v w).1.mint
            ≡ (options.mint_client.check_state v.mint_url credential.secret asked.1).1)
  unfolding ask_mint
  ask_mint-state credential v w =
      let asked =
        options.mint_client.get_key v.mint_url credential.keyset_id credential.amount w.mint in
      let told = options.mint_client.check_state v.mint_url credential.secret asked.1 in
      elim (MintAnswer-cases asked.0) [
        | inr (reason, e) ↦ inl (ground (arith, e))
        | inl (key, e) ↦
            elim (Bool-cases (
              verify_proof_dleq options.platform key credential.secret credential.signature
                (dleq_of credential))) [
                  | inr d ↦ inl (ground (arith, e, d))
                  | inl d ↦ elim (MintAnswer-cases told.0) [
                    | inr (reason, f) ↦ inr (ground (arith, e, d, f))
                    | inl (state, f) ↦ inr (ground (arith, e, d, f, ProofState-cases state))
                  ]
                ]
      ]

  resolve_vetted-mint :
      (pubkey : Text) (credential : VoucherCredential) (v : Vetted) (w : VoucherWorld M F)
      → (resolve_vetted options pubkey credential v w).1.mint
        ≡ (ask_mint options credential v w).1.mint
  unfolding resolve_vetted deny_with decide_unanswered grant_voucher
  resolve_vetted-mint pubkey credential v w =
      let asked = ask_mint options credential v w in
      elim (MintAnswer-cases asked.0) [
        | inr (reason, e) ↦ elim (AvailabilityDecision-cases (options.availability reason)) [
          | inl (why, d) ↦ ground (arith, e, d)
          | inr (g, d) ↦ ground (arith, e, d)
        ]
        | inl (x, e) ↦ elim (Option-cases x) [
          | inr (code, n) ↦ ground (arith, e, n)
          | inl n ↦ ground (arith, e, n)
        ]
      ]

  -- Resolving a credential asks the mint client nothing but the key and the state of this credential,
  -- at the listed origin of a voucher that has passed every check without a network: what holds of the
  -- client's state, and such questions keep true, holds afterwards. Where no voucher passes these
  -- checks, the client's state is as it was.
  pub resolve_credential-asks :
      (holds : M → Type 0) (pubkey : Text) (now : ℕ) (credential : VoucherCredential)
      (w : VoucherWorld M F)
      → IsKept pubkey now credential holds
      → holds w.mint
      → holds (resolve_credential options pubkey now credential w).1.mint
        × (((resolve_credential options pubkey now credential w).1.mint ≡ w.mint)
            ⊎ (v : Vetted) × IsVetted options pubkey now credential v)
  unfolding resolve_credential deny_with IsKept
  resolve_credential-asks holds pubkey now credential w kept h =
      elim (Vetting-cases (vet options pubkey now credential)) [
        | inr (code, e) ↦
            let same : (resolve_credential options pubkey now credential w).1.mint ≡ w.mint =
              ground (arith, e) in
            (subst holds (sym same) h, inl same)
        | inl (v, e) ↦
            let i = vet-IsVetted options pubkey now credential v e in
            let asked =
              options.mint_client.get_key v.mint_url credential.keyset_id credential.amount
                w.mint in
            let keyed = (kept v w.mint i h).0 in
            let same : (resolve_credential options pubkey now credential w).1.mint
                ≡ (ask_mint options credential v w).1.mint =
              ground (arith, e, resolve_vetted-mint pubkey credential v w) in
            (
              subst holds (sym same) (elim (ask_mint-state credential v w) [
                | inl x ↦ subst holds (sym x) keyed
                | inr x ↦ subst holds (sym x) (kept v asked.1 i keyed).1
              ]),
              inr (v, i),
            )
      ]

  -- One event more is logged, of the same outcome as the decision.
  abbrev pub IsRecorded : VoucherWorld M F → Bool → VoucherWorld M F → Type 0
  IsRecorded w allowed w' =
      (code : VoucherCode) × (w'.audit
        ≡ w.audit ++ (record { code = code; success = allowed } ∷ []))

  ask_mint-keeps :
      (credential : VoucherCredential) (v : Vetted) (w : VoucherWorld M F)
      → (ask_mint options credential v w).1.audit ≡ w.audit
  unfolding ask_mint
  ask_mint-keeps credential v w =
      let asked =
        options.mint_client.get_key v.mint_url credential.keyset_id credential.amount w.mint in
      let told = options.mint_client.check_state v.mint_url credential.secret asked.1 in
      elim (MintAnswer-cases asked.0) [
        | inr (reason, e) ↦ ground (arith, e)
        | inl (key, e) ↦ elim (MintAnswer-cases told.0) [
          | inr (reason, d) ↦ ground (arith, e, d)
          | inl (state, d) ↦ ground (arith, e, d, ProofState-cases state)
        ]
      ]

  resolve_vetted-IsRecorded :
      (pubkey : Text) (credential : VoucherCredential) (v : Vetted) (w : VoucherWorld M F)
      → IsRecorded w
          (resolve_vetted options pubkey credential v w).0.allowed
          (resolve_vetted options pubkey credential v w).1
  unfolding resolve_vetted deny_with decide_unanswered grant_voucher
  resolve_vetted-IsRecorded pubkey credential v w =
      let asked = ask_mint options credential v w in
      let kept = ask_mint-keeps credential v w in
      elim (MintAnswer-cases asked.0) [
        | inr (reason, e) ↦ elim (AvailabilityDecision-cases (options.availability reason)) [
          | inl (why, d) ↦ (mint_down, ground (arith, e, d, kept))
          | inr (g, d) ↦ elim (Bool-cases (is_declared options.permission_registry g)) [
            | inl i ↦ (mint_down, ground (arith, e, d, i, kept))
            | inr i ↦ (grant_unknown, ground (arith, e, d, i, kept))
          ]
        ]
        | inl (x, e) ↦ elim (Option-cases x) [
          | inr (code, n) ↦ (code, ground (arith, e, n, kept))
          | inl n ↦
              elim (Bool-cases
                (is_declared options.permission_registry (options.grant (verified_by pubkey v)))) [
                  | inl i ↦ (accepted, ground (arith, e, n, i, kept))
                  | inr i ↦ (grant_unknown, ground (arith, e, n, i, kept))
                ]
        ]
      ]

  -- Every decision on a voucher is logged once, as a success exactly when it lets the holder in.
  pub resolve_credential-IsRecorded :
      (pubkey : Text) (now : ℕ) (credential : VoucherCredential) (w : VoucherWorld M F)
      → IsRecorded w
          (resolve_credential options pubkey now credential w).0.allowed
          (resolve_credential options pubkey now credential w).1
  unfolding resolve_credential deny_with
  resolve_credential-IsRecorded pubkey now credential w =
      elim (Vetting-cases (vet options pubkey now credential)) [
        | inr (code, e) ↦ (code, ground (arith, e))
        | inl (v, e) ↦
            let (code, h) = resolve_vetted-IsRecorded pubkey credential v w in
            (code, ground (arith, e, h))
      ]
