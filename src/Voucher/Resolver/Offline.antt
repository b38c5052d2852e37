-- ===== src/Voucher/Resolver/Offline.antt =====
-- What the checks without a network of packages/nap-voucher/src/resolver.ts establish of a voucher.
use nap.Base.{subst, ℕ, ◌≡◌, ◌⊎◌, inl, inr, refl, some, arith, Option-cases}
use nap.Text.{Text}
use nap.Core.Types.{VoucherCredential}
use nap.Voucher.Allowlist.{resolve_mint}
use nap.Voucher.Secret.{parse_voucher_secret}
use nap.Voucher.Availability.{MintFailureReason, Grant, AvailabilityDecision, degrade, deny}
use nap.Voucher.Resolver.{
  VoucherOptions, VoucherCode, Vetted, Vetting, vetted, rejected, MintAnswer, answered, unanswered,
  ProofState, unspent_state, spent_state, pending_state, vet,
}
use nap.Voucher.Resolver.Checks.{
  IsLockedTo, IsAllowedMint, IsValidAt, lock_key_matches_pubkey-IsLockedTo,
  resolve_mint-IsAllowedMint, is_expired_at-IsValidAt,
}
use nap.Voucher.Resolver.Issued.{
  IsSigned, IsListedIssuer, IsRead, verify_issuer_signature-IsSigned, allows-IsListedIssuer,
  parse_voucher_secret-IsRead,
}

-- The answers of a mint.
pub MintAnswer-cases :
    {X : Type 0} (a : MintAnswer X)
    → ((x : X) × (a ≡ answered x)) ⊎ ((reason : MintFailureReason) × (a ≡ unanswered reason))
MintAnswer-cases (answered x) = inl (x, refl)
MintAnswer-cases (unanswered reason) = inr (reason, refl)

pub ProofState-cases :
    (s : ProofState) → (s ≡ unspent_state) ⊎ ((s ≡ spent_state) ⊎ (s ≡ pending_state))
ProofState-cases unspent_state = inl refl
ProofState-cases spent_state = inr (inl refl)
ProofState-cases pending_state = inr (inr refl)

pub AvailabilityDecision-cases :
    (d : AvailabilityDecision)
    → ((reason : MintFailureReason) × (d ≡ deny reason)) ⊎ ((g : Grant) × (d ≡ degrade g))
AvailabilityDecision-cases (deny reason) = inl (reason, refl)
AvailabilityDecision-cases (degrade g) = inr (g, refl)

pub Vetting-cases :
    (x : Vetting) → ((v : Vetted) × (x ≡ vetted v)) ⊎ ((code : VoucherCode) × (x ≡ rejected code))
Vetting-cases (vetted v) = inl (v, refl)
Vetting-cases (rejected code) = inr (code, refl)

module _ {P M F : Type 0} (options : VoucherOptions P M F) where
  -- What the checks without a network establish of a voucher.
  pub record IsVetted (pubkey : Text) (now : ℕ) (credential : VoucherCredential) (v : Vetted)
      : Type 0 where
    pub mint_allowed :
        IsAllowedMint options.platform.url_parse options.mint_origins credential.mint_url v.mint_url
    pub parsed : parse_voucher_secret options.platform credential.secret ≡ some v.secret
    pub is_read : IsRead options.platform v.secret
    pub lock : Text
    pub locked : v.secret.lock_key ≡ some lock
    pub bound : IsLockedTo lock pubkey
    pub fresh : IsValidAt now v.secret.expires_at
    pub issued : v.secret.issuer_pubkey ≡ some v.issuer_pubkey
    pub signed : IsSigned options.platform v.secret v.issuer_pubkey
    pub listed : IsListedIssuer options.issuers v.mint_url v.issuer_pubkey

  vetted-IsVetted :
      (pubkey : Text) (now : ℕ) (credential : VoucherCredential) (v : Vetted) (lock : Text)
      → resolve_mint options.platform.url_parse options.mint_origins credential.mint_url
        ≡ some v.mint_url
      → parse_voucher_secret options.platform credential.secret ≡ some v.secret
      → v.secret.lock_key ≡ some lock
      → v.secret.issuer_pubkey ≡ some v.issuer_pubkey
      → vet options pubkey now credential ≡ vetted v
      → IsVetted pubkey now credential v
  unfolding vet
  vetted-IsVetted pubkey now credential v lock e d k q h = record {
    mint_allowed =
        resolve_mint-IsAllowedMint options.platform.url_parse options.mint_origins
          credential.mint_url v.mint_url e;
    parsed = d;
    is_read = parse_voucher_secret-IsRead options.platform credential.secret v.secret d;
    lock = lock;
    locked = k;
    bound = lock_key_matches_pubkey-IsLockedTo lock pubkey (ground (arith, e, d, k, q, h));
    fresh = is_expired_at-IsValidAt now v.secret.expires_at (ground (arith, e, d, k, q, h));
    issued = q;
    signed =
        verify_issuer_signature-IsSigned options.platform v.secret v.issuer_pubkey q
          (ground (arith, e, d, k, q, h));
    listed =
        allows-IsListedIssuer options.issuers v.mint_url v.issuer_pubkey
          (ground (arith, e, d, k, q, h));
  }

  pub vet-IsVetted :
      (pubkey : Text) (now : ℕ) (credential : VoucherCredential) (v : Vetted)
      → vet options pubkey now credential ≡ vetted v
      → IsVetted pubkey now credential v
  unfolding vet
  vet-IsVetted pubkey now credential v h =
      elim (Option-cases
        (resolve_mint options.platform.url_parse options.mint_origins credential.mint_url)) [
          | inl e ↦ ground (arith, e)
          | inr (mint, e) ↦
              elim (Option-cases (parse_voucher_secret options.platform credential.secret)) [
                | inl d ↦ ground (arith, e, d)
                | inr (secret, d) ↦ elim (Option-cases secret.lock_key) [
                  | inl k ↦ ground (arith, e, d, k)
                  | inr (lock, k) ↦ elim (Option-cases secret.issuer_pubkey) [
                    | inl q ↦ ground (arith, e, d, k, q)
                    | inr (issuer, q) ↦
                        let made : Vetted = record {
                          mint_url = mint;
                          issuer_pubkey = issuer;
                          secret = secret;
                        } in
                        let same : made ≡ v = ground (arith, e, d, k, q) in
                        subst (IsVetted pubkey now credential) same (
                          vetted-IsVetted pubkey now credential made lock e d k q
                            (ground (arith, h, same)))
                  ]
                ]
              ]
        ]
