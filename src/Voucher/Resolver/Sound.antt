-- ===== src/Voucher/Resolver/Sound.antt =====
-- What a voucher must be for packages/nap-voucher/src/resolver.ts to let its holder in.
use nap.Base.{subst, sym, ℕ, ◌≡◌, ◌⊎◌, inl, inr, true, none, some, arith, Option-cases}
use nap.Text.{Text, text}
use nap.Core.Types.{AclDecision, VoucherCredential}
use nap.Voucher.Availability.{MintFailureReason, Grant, degrade}
use nap.Voucher.Dleq.{verify_proof_dleq}
use nap.Voucher.Resolver.{
  VoucherOptions, VoucherWorld, Vetted, answered, unanswered, unspent_state, vet, ask_mint,
  resolve_credential, resolve_vetted, decide_unanswered, grant_voucher, deny_with, dleq_of,
  verified_by,
}
use nap.Voucher.Resolver.Checks.{IsDeclared, is_declared-IsDeclared}
use nap.Voucher.Resolver.Offline.{
  MintAnswer-cases, ProofState-cases, AvailabilityDecision-cases, Vetting-cases, IsVetted,
  vet-IsVetted,
}

module _ {P M F : Type 0} (options : VoucherOptions P M F) where
  -- The mint's key, the proof made with it, and the mint's word that the voucher is unspent.
  pub record IsConfirmed (credential : VoucherCredential) (v : Vetted) (w : VoucherWorld M F)
      : Type 0 where
    pub key : Text
    pub keyed :
        (options.mint_client.get_key v.mint_url credential.keyset_id credential.amount w.mint).0
        ≡ answered key
    pub proven :
        verify_proof_dleq options.platform key credential.secret credential.signature
          (dleq_of credential)
        ≡ true
    pub unspent :
        (options.mint_client.check_state v.mint_url credential.secret
          (options.mint_client.get_key v.mint_url credential.keyset_id credential.amount
            w.mint).1).0
        ≡ answered unspent_state

  pub ask_mint-IsConfirmed :
      (credential : VoucherCredential) (v : Vetted) (w : VoucherWorld M F)
      → (ask_mint options credential v w).0 ≡ answered none
      → IsConfirmed credential v w
  unfolding ask_mint
  ask_mint-IsConfirmed credential v w h =
      let asked =
        options.mint_client.get_key v.mint_url credential.keyset_id credential.amount w.mint in
      let told = options.mint_client.check_state v.mint_url credential.secret asked.1 in
      elim (MintAnswer-cases asked.0) [
        | inr (reason, e) ↦ ground (arith, e)
        | inl (key, e) ↦ elim (MintAnswer-cases told.0) [
          | inr (reason, d) ↦ ground (arith, e, d)
          | inl (state, d) ↦ elim (ProofState-cases state) [
            | inl s ↦ record {
              key = key;
              keyed = e;
              proven = ground (arith, e, d, s);
              unspent = ground (arith, d, s);
            }
            | inr (inl s) ↦ ground (arith, e, d, s)
            | inr (inr s) ↦ ground (arith, e, d, s)
          ]
        ]
      ]

  -- The decision takes its roles and permissions from the grant, which the registry declares, and
  -- its end from the voucher.
  unfoldable pub IsGrantOf : Grant → Vetted → AclDecision → Type 0
  IsGrantOf g v d =
      IsDeclared options.permission_registry g
      × (d.roles ≡ g.roles)
      × (d.permissions ≡ g.permissions)
      × (d.expires_at ≡ v.secret.expires_at)

  -- The decision is the grant for a voucher that the mint has confirmed.
  unfoldable pub IsGranted :
      Text → VoucherCredential → Vetted → VoucherWorld M F → AclDecision → Type 0
  IsGranted pubkey credential v w d =
      IsConfirmed credential v w
      × IsGrantOf
          (options.grant (record {
            mint_url = v.mint_url;
            issuer_pubkey = v.issuer_pubkey;
            locked_to = pubkey;
            secret = v.secret;
          }))
          v d
      × (d.reason ≡ none)

  -- The decision is the policy's grant for a mint that does not answer.
  unfoldable pub IsDegraded : VoucherCredential → Vetted → VoucherWorld M F → AclDecision → Type 0
  IsDegraded credential v w d =
      (reason : MintFailureReason) × (g : Grant) × ((ask_mint options credential v w).0
        ≡ unanswered reason)
      × (options.availability reason ≡ degrade g)
      × IsGrantOf g v d
      × (d.reason ≡ some (text "NAP_VOUCHER_DEGRADED"))

  resolve_vetted-IsSound :
      (pubkey : Text) (credential : VoucherCredential) (v : Vetted) (w : VoucherWorld M F)
      → (resolve_vetted options pubkey credential v w).0.allowed ≡ true
      → IsGranted pubkey credential v w (resolve_vetted options pubkey credential v w).0
        ⊎ IsDegraded credential v w (resolve_vetted options pubkey credential v w).0
  unfolding resolve_vetted decide_unanswered deny_with grant_voucher IsGranted IsDegraded IsGrantOf
  resolve_vetted-IsSound pubkey credential v w h =
      let asked = ask_mint options credential v w in
      elim (MintAnswer-cases asked.0) [
        | inr (reason, e) ↦ elim (AvailabilityDecision-cases (options.availability reason)) [
          | inl (why, d) ↦ ground (arith, e, d)
          | inr (g, d) ↦ inr (
            reason,
            g,
            e,
            d,
            (
              is_declared-IsDeclared options.permission_registry g (ground (arith, e, d)),
              ground (arith, e, d),
              ground (arith, e, d),
              ground (arith, e, d),
            ),
            ground (arith, e, d),
          )
        ]
        | inl (x, e) ↦ elim (Option-cases x) [
          | inr (code, n) ↦ ground (arith, e, n)
          | inl n ↦ inl (
            ask_mint-IsConfirmed credential v w (ground (arith, e, n)),
            (
              is_declared-IsDeclared options.permission_registry
                  (options.grant (verified_by pubkey v)) (ground (arith, e, n)),
              ground (arith, e, n),
              ground (arith, e, n),
              ground (arith, e, n),
            ),
            ground (arith, e, n),
          )
        ]
      ]

  pub resolve_credential-IsSound :
      (pubkey : Text) (now : ℕ) (credential : VoucherCredential) (w : VoucherWorld M F)
      → (resolve_credential options pubkey now credential w).0.allowed ≡ true
      → (v : Vetted) × IsVetted options pubkey now credential v
        × (IsGranted pubkey credential v w (resolve_credential options pubkey now credential w).0
            ⊎ IsDegraded credential v w (resolve_credential options pubkey now credential w).0)
  unfolding resolve_credential deny_with
  resolve_credential-IsSound pubkey now credential w h =
      elim (Vetting-cases (vet options pubkey now credential)) [
        | inr (code, e) ↦ ground (arith, e)
        | inl (v, e) ↦
            let same : (resolve_credential options pubkey now credential w)
                ≡ resolve_vetted options pubkey credential v w =
              ground (arith, e) in
            (
              v,
              vet-IsVetted options pubkey now credential v e,
              subst (λ x. IsGranted pubkey credential v w x.0 ⊎ IsDegraded credential v w x.0)
                  (sym same)
                  (resolve_vetted-IsSound pubkey credential v w (ground (arith, h, same))),
            )
      ]
