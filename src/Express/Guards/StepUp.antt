-- ===== src/Express/Guards/StepUp.antt =====
-- When a guard of packages/nap-adapter-express/src/adapter.ts asks for a step-up token, and which token
-- it takes.
use nap.Base.{
  ℕ, ◌<◌, ◌≡◌, ◌↔◌, inl, inr, true, Option, none, some, List, [], ◌∷◌, arith, IsMember, here, later,
  refl, Bool-cases, Option-cases, ◌&&◌,
}
use nap.Text.{Text, ◌==◌, ==_iff, truthy}
use nap.Core.Types.{SessionRecord}
use nap.Server.Acl.{PermissionDefinition, PermissionRegistry}
use nap.Server.Clamp.Compare.{constant_time_equals_iff}
use nap.Server.Refresh.{matches_token}
use nap.Express.Http.{Request}
use nap.Express.Guards.{GuardOptions, marks_step_up, requires_step_up, has_valid_step_up_token}

-- The registry has an entry for the permission that asks for a step-up token.
pub record IsMarked (permission : Text) (registry : Option PermissionRegistry) : Type 0 where
  pub in_use : PermissionRegistry
  pub configured : registry ≡ some in_use
  pub definition : PermissionDefinition
  pub member : IsMember definition in_use.permissions
  pub named : definition.key ≡ permission
  pub step_up : definition.step_up ≡ true

marks_step_up-member :
    (permission : Text) (ds : List PermissionDefinition)
    → marks_step_up permission ds ≡ true
    → (d : PermissionDefinition) × IsMember d ds × (d.key ≡ permission) × (d.step_up ≡ true)
unfolding marks_step_up
marks_step_up-member permission [] h = ground (arith, h)
marks_step_up-member permission (d ∷ ds) h = elim (Bool-cases (d.key == permission && d.step_up)) [
  | inl e ↦ (d, here, (==_iff d.key permission).0 (ground (arith, e)), ground (arith, e))
  | inr e ↦
      let (found, member, named, marked) =
        marks_step_up-member permission ds (ground (arith, e, h)) in
      (found, later member, named, marked)
]

member-marks_step_up :
    (permission : Text) (d : PermissionDefinition) (ds : List PermissionDefinition)
    → IsMember d ds
    → d.key ≡ permission
    → d.step_up ≡ true
    → marks_step_up permission ds ≡ true
unfolding marks_step_up
member-marks_step_up permission d [] m e s = elim m [ ]
member-marks_step_up permission d (x ∷ ds) here e s =
    ground (arith, (==_iff d.key permission).1 e, s)
member-marks_step_up permission d (x ∷ ds) (later m) e s =
    ground (arith, member-marks_step_up permission d ds m e s)

pub requires_step_up-IsMarked :
    (permission : Text) (registry : Option PermissionRegistry)
    → (requires_step_up permission registry ≡ true) ↔ IsMarked permission registry
requires_step_up-IsMarked permission none =
    (λ h. ground (arith, h), λ i. ground (arith, i.configured))
requires_step_up-IsMarked permission (some registry) = (
  λ h.
      let (d, member, named, marked) = marks_step_up-member permission registry.permissions h in
      record {
        in_use = registry;
        configured = refl;
        definition = d;
        member = member;
        named = named;
        step_up = marked;
      },
  λ i.
      let same : registry ≡ i.in_use = ground (arith, i.configured) in
      ground (
        arith,
        same,
        member-marks_step_up permission i.definition i.in_use.permissions i.member i.named
            i.step_up,
      ),
)

module _ {S A : Type 0} (options : GuardOptions S A) where
  -- The request presents the session's step-up token, byte by byte, before it expires.
  pub record HasStepUp (req : Request) (now : ℕ) (r : SessionRecord) : Type 0 where
    pub token : Text
    pub presented : req.step_up_token ≡ some token
    pub given : truthy (some token) ≡ true
    pub held : Text
    pub kept : r.step_up_token ≡ some held
    pub issued : truthy (some held) ≡ true
    pub same : options.platform.text_encode held ≡ options.platform.text_encode token
    pub until : ℕ
    pub ends : r.step_up_expires_at ≡ some until
    pub not_past : now < until

  pub has_valid_step_up_token-HasStepUp :
      (req : Request) (now : ℕ) (r : SessionRecord)
      → (has_valid_step_up_token options req now r ≡ true) ↔ HasStepUp req now r
  unfolding has_valid_step_up_token matches_token
  has_valid_step_up_token-HasStepUp req now r = (
    λ h. elim (Option-cases req.step_up_token) [
      | inl e ↦ ground (arith, h, e)
      | inr (token, e) ↦ elim (Option-cases r.step_up_token) [
        | inl d ↦ ground (arith, h, e, d)
        | inr (held, d) ↦ elim (Option-cases r.step_up_expires_at) [
          | inl f ↦ ground (arith, h, e, d, f)
          | inr (until, f) ↦ record {
            token = token;
            presented = e;
            given = ground (arith, h, e);
            held = held;
            kept = d;
            issued = ground (arith, h, e, d);
            same =
                (constant_time_equals_iff options.platform held token).0 (ground (arith, h, e, d));
            until = until;
            ends = f;
            not_past = ground (arith, h, e, d, f);
          }
        ]
      ]
    ],
    λ i.
        let equal = (constant_time_equals_iff options.platform i.held i.token).1 i.same in
        ground (arith, i.presented, i.given, i.kept, i.issued, equal, i.ends, i.not_past),
  )
