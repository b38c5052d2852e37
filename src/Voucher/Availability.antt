-- ===== src/Voucher/Availability.antt =====
-- packages/nap-voucher/src/availability.ts. `none` stands for an error that is thrown.
use nap.Base.{Bool, false, Option, none, some, List, [], ◌∷◌, if◌then◌else◌, ◌||◌, is_some}
use nap.Text.{Text, includes}

pub data MintFailureReason : Type 0 where
  unavailable malformed_response unknown_keyset mint_not_allowed : MintFailureReason

pub record Grant : Type 0 where
  pub roles : List Text
  pub permissions : List Text

pub data AvailabilityDecision : Type 0 where
  deny : MintFailureReason → AvailabilityDecision
  degrade : Grant → AvailabilityDecision

pub data Mode : Type 0 where
  denying degrading : Mode

pub record MintAvailabilityPolicyOptions : Type 0 where
  pub on_mint_unavailable : Option Mode
  pub degraded_grant : Option Grant
  pub destructive_permissions : List Text
  pub destructive_roles : List Text

-- Some member of the first list is in the second.
unfoldable pub overlaps : List Text → List Text → Bool
overlaps [] destructive = false
overlaps (t ∷ ts) destructive = includes t destructive || overlaps ts destructive

unfoldable pub decide_degraded : Grant → MintFailureReason → AvailabilityDecision
decide_degraded grant unavailable = degrade grant
decide_degraded grant reason = deny reason

-- `createMintAvailabilityPolicy`: its `decide`.
unfoldable pub create_mint_availability_policy :
    MintAvailabilityPolicyOptions → Option (MintFailureReason → AvailabilityDecision)
create_mint_availability_policy o = elim o.on_mint_unavailable [
  | none ↦ if is_some o.degraded_grant then none else some deny
  | some denying ↦ if is_some o.degraded_grant then none else some deny
  | some degrading ↦ elim o.degraded_grant [
    | none ↦ none
    | some grant ↦
        if overlaps grant.permissions o.destructive_permissions
          || overlaps grant.roles o.destructive_roles
        then none
        else some (decide_degraded grant)
  ]
]
