-- ===== src/Voucher/Resolver/Degraded.antt =====
-- What a mint that does not answer is worth: packages/nap-voucher/src/availability.ts with
-- packages/nap-voucher/src/resolver.ts.
use nap.Base.{
  ap, ◌∙◌, or_default, ℕ, ◌≡◌, ◌⊎◌, inl, inr, refl, true, false, Option, none, some, List, [], ◌∷◌,
  arith, Option-cases, Bool-cases,
}
use nap.Text.{Text, includes, ◌==◌, ==_iff}
use nap.Core.Types.{VoucherCredential}
use nap.Voucher.Availability.{
  MintFailureReason, unavailable, malformed_response, unknown_keyset, mint_not_allowed, Grant,
  AvailabilityDecision, degrade, deny, Mode, denying, degrading, MintAvailabilityPolicyOptions,
  overlaps, create_mint_availability_policy, decide_degraded,
}
use nap.Voucher.Resolver.{VoucherOptions, VoucherWorld, Vetted, resolve_credential}
use nap.Voucher.Resolver.Offline.{IsVetted}
use nap.Voucher.Resolver.Sound.{
  IsConfirmed, IsGrantOf, IsGranted, IsDegraded, resolve_credential-IsSound,
}

overlaps-includes :
    (p : Text) (ts destructive : List Text)
    → overlaps ts destructive ≡ false
    → includes p ts ≡ true
    → includes p destructive ≡ false
unfolding overlaps includes
overlaps-includes p [] destructive h i = ground (arith, i)
overlaps-includes p (t ∷ ts) destructive h i = elim (Bool-cases (t == p)) [
  | inl e ↦ let same : t ≡ p = (==_iff t p).0 e in ground (arith, same)
  | inr e ↦ overlaps-includes p ts destructive (ground (arith, h)) (ground (arith, e, i))
]

decide_degraded-unavailable :
    (grant g : Grant) (reason : MintFailureReason)
    → decide_degraded grant reason ≡ degrade g
    → (reason ≡ unavailable) × (grant ≡ g)
unfolding decide_degraded
decide_degraded-unavailable grant g unavailable h = (refl, ground (arith, h))
decide_degraded-unavailable grant g malformed_response h = ground (arith, h)
decide_degraded-unavailable grant g unknown_keyset h = ground (arith, h)
decide_degraded-unavailable grant g mint_not_allowed h = ground (arith, h)

mode_cases : (m : Option Mode) → (m ≡ none) ⊎ ((m ≡ some denying) ⊎ (m ≡ some degrading))
mode_cases none = inl refl
mode_cases (some denying) = inr (inl refl)
mode_cases (some degrading) = inr (inr refl)

-- The policy degrades with a grant that names nothing destructive.
IsHarmless : MintAvailabilityPolicyOptions → Grant → Type 0
IsHarmless o g =
    (overlaps g.permissions o.destructive_permissions ≡ false)
    × (overlaps g.roles o.destructive_roles ≡ false)

policy_cases :
    (o : MintAvailabilityPolicyOptions) (decide : MintFailureReason → AvailabilityDecision)
    → create_mint_availability_policy o ≡ some decide
    → (some deny ≡ some decide)
      ⊎ ((g : Grant) × (some (decide_degraded g) ≡ some decide)
          × (o.degraded_grant ≡ some g)
          × IsHarmless o g)
unfolding create_mint_availability_policy IsHarmless
policy_cases o decide h = elim (Option-cases o.degraded_grant) [
  | inl e ↦ elim (mode_cases o.on_mint_unavailable) [
    | inl f ↦ inl (ground (arith, e, f, h))
    | inr (inl f) ↦ inl (ground (arith, e, f, h))
    | inr (inr f) ↦ ground (arith, e, f, h)
  ]
  | inr (g, e) ↦ elim (mode_cases o.on_mint_unavailable) [
    | inl f ↦ ground (arith, e, f, h)
    | inr (inl f) ↦ ground (arith, e, f, h)
    | inr (inr f) ↦
        inr (g, ground (arith, e, f, h), e, (ground (arith, e, f, h), ground (arith, e, f, h)))
  ]
]

-- With such a policy, a mint that does not answer is no reason to grant what the operator calls
-- destructive: a decision that lets a voucher's holder in with a destructive permission rests on the
-- mint's own word, its signature on the voucher and that this is unspent.
pub resolve_credential-IsConfirmed :
    {P M F : Type 0} (options : VoucherOptions P M F) (o : MintAvailabilityPolicyOptions)
    (pubkey : Text) (now : ℕ) (credential : VoucherCredential) (w : VoucherWorld M F)
    (permission : Text)
    → create_mint_availability_policy o ≡ some options.availability
    → includes permission o.destructive_permissions ≡ true
    → (resolve_credential options pubkey now credential w).0.allowed ≡ true
    → includes permission (resolve_credential options pubkey now credential w).0.permissions ≡ true
    → (v : Vetted) × IsVetted options pubkey now credential v × IsConfirmed options credential v w
unfolding IsGranted IsDegraded IsGrantOf IsHarmless
resolve_credential-IsConfirmed options o pubkey now credential w permission h d allowed held =
    let (v, vets, why) = resolve_credential-IsSound options pubkey now credential w allowed in
    elim why [
      | inl (confirmed, same, why) ↦ (v, vets, confirmed)
      | inr (reason, g, asked, degrades, (registered, roles_same, same, end), why) ↦
          elim (policy_cases o options.availability h) [
            | inl e ↦
                let f = ap (λ x. or_default x deny) e in
                ground (arith, ap (λ k. k reason) f, degrades)
            | inr (g', e, given, (harmless, roles)) ↦
                let f = ap (λ x. or_default x deny) e in
                let (u, same_grant) =
                  decide_degraded-unavailable g' g reason (ap (λ k. k reason) f ∙ degrades) in
                let free =
                  overlaps-includes permission g'.permissions o.destructive_permissions harmless in
                ground (arith, d, free (ground (arith, held, same, same_grant)))
          ]
    ]
