-- ===== src/Server/Acl/Effective.antt =====
-- The permissions that acl.ts computes from a role and the overrides of a record.
use nap.Base.{
  ◌≡◌, refl, Bool, true, false, not, ◌&&◌, ◌||◌, List, [], ◌∷◌, ◌++◌, arith, Bool-cases, inl, inr,
}
use nap.Text.{Text, ◌==◌, includes}
use nap.Server.Acl.{
  Action, grant, deny, PermissionOverride, add_to_set, set_of, sort_overrides, without, precedes,
  insert_sorted, sort, apply_overrides,
}

abbrev is_grant : Action → Bool
is_grant grant = true
is_grant deny = false

-- Some override of the kind names the permission.
pub is_named : (Action → Bool) → Text → List PermissionOverride → Bool
is_named kind p [] = false
is_named kind p (o ∷ os) = (kind o.action && (o.permission == p)) || is_named kind p os

abbrev pub is_granted : Text → List PermissionOverride → Bool
is_granted = is_named is_grant

abbrev pub is_denied : Text → List PermissionOverride → Bool
is_denied = is_named (λ a. not (is_grant a))

module _ (p : Text) where
  includes-append : (xs ys : List Text) → includes p (xs ++ ys) ≡ (includes p xs || includes p ys)
  unfolding includes
  includes-append [] ys = refl
  includes-append (x ∷ xs) ys = ground (arith, includes-append xs ys)

  includes-add_to_set :
      (v : Text) (xs : List Text) → includes p (add_to_set v xs) ≡ ((v == p) || includes p xs)
  unfolding add_to_set includes
  includes-add_to_set v xs = ground (arith, includes-append xs (v ∷ []))

  includes-set_of :
      (members values : List Text)
      → includes p (set_of members values) ≡ (includes p members || includes p values)
  unfolding set_of includes
  includes-set_of members [] = ground arith
  includes-set_of members (v ∷ values) =
      ground (arith, includes-set_of (add_to_set v members) values, includes-add_to_set v members)

  includes-sort_overrides :
      (os : List PermissionOverride) (granted denied : List Text)
      → (includes p (sort_overrides os granted denied).0 ≡ (includes p granted || is_granted p os))
        × (includes p (sort_overrides os granted denied).1 ≡ (includes p denied || is_denied p os))
  unfolding sort_overrides is_named
  includes-sort_overrides [] granted denied = ground arith
  includes-sort_overrides (o ∷ os) granted denied = ground (
    arith,
    includes-sort_overrides os (add_to_set o.permission granted) denied,
    includes-sort_overrides os granted (add_to_set o.permission denied),
    includes-add_to_set o.permission granted,
    includes-add_to_set o.permission denied,
  )

  includes-without :
      (denied xs : List Text)
      → includes p (without denied xs) ≡ (includes p xs && not (includes p denied))
  unfolding without includes
  includes-without denied [] = refl
  includes-without denied (x ∷ xs) = ground (arith, includes-without denied xs)

  includes-insert_sorted :
      (t : Text) (us : List Text) → includes p (insert_sorted t us) ≡ ((t == p) || includes p us)
  unfolding insert_sorted includes
  includes-insert_sorted t [] = ground arith
  includes-insert_sorted t (u ∷ us) = ground (arith, includes-insert_sorted t us)

  includes-sort : (ts : List Text) → includes p (sort ts) ≡ includes p ts
  unfolding sort includes
  includes-sort [] = refl
  includes-sort (t ∷ ts) = ground (arith, includes-insert_sorted t (sort ts), includes-sort ts)

  -- A permission is effective exactly when the role has it or an override grants it, and no override
  -- denies it: a denial wins over every grant, in whatever order the overrides stand.
  pub includes-apply_overrides :
      (base : List Text) (overrides : List PermissionOverride)
      → includes p (apply_overrides base overrides)
        ≡ ((includes p base || is_granted p overrides) && not (is_denied p overrides))
  unfolding apply_overrides includes
  includes-apply_overrides base overrides =
      let (granted, denied) = sort_overrides overrides (set_of [] base) [] in
      ground (
        arith,
        includes-sort (without denied granted),
        includes-without denied granted,
        includes-sort_overrides overrides (set_of [] base) [],
        includes-set_of [] base,
      )

-- The list is in the order of `sort()`.
pub data IsSorted : List Text → Type 0 where
  empty : IsSorted []
  one : (t : Text) → IsSorted (t ∷ [])
  more :
      {t u : Text} {us : List Text}
      → precedes t u ≡ true
      → IsSorted (u ∷ us)
      → IsSorted (t ∷ u ∷ us)

precedes_total : (s t : Text) → precedes s t ≡ false → precedes t s ≡ true
unfolding precedes
precedes_total [] t h = cc
precedes_total (c ∷ s) [] h = refl
precedes_total (c ∷ s) (d ∷ t) h = ground (arith, precedes_total s t)

insert_between :
    (u t v : Text) (vs : List Text)
    → precedes u t ≡ true
    → precedes u v ≡ true
    → IsSorted (insert_sorted t (v ∷ vs))
    → IsSorted (u ∷ insert_sorted t (v ∷ vs))
unfolding insert_sorted
insert_between u t v vs pt pv s = elim (Bool-cases (precedes t v)) [
  | inl e ↦ rw e (more pt (rw e at s))
  | inr e ↦ rw e (more pv (rw e at s))
]

insert_sorted-IsSorted : (t : Text) (us : List Text) → IsSorted us → IsSorted (insert_sorted t us)
unfolding insert_sorted
insert_sorted-IsSorted t [] s = one t
insert_sorted-IsSorted t (u ∷ []) s = elim (Bool-cases (precedes t u)) [
  | inl h ↦ rw h (more h (one u))
  | inr h ↦ rw h (more (precedes_total t u h) (one t))
]
insert_sorted-IsSorted t (u ∷ v ∷ vs) (more h s) = elim (Bool-cases (precedes t u)) [
  | inl e ↦ rw e (more e (more h s))
  | inr e ↦
      rw e (insert_between u t v vs (precedes_total t u e) h (insert_sorted-IsSorted t (v ∷ vs) s))
]

sort-IsSorted : (ts : List Text) → IsSorted (sort ts)
unfolding sort
sort-IsSorted [] = empty
sort-IsSorted (t ∷ ts) = insert_sorted-IsSorted t (sort ts) (sort-IsSorted ts)

-- The effective permissions stand in the order of their code units.
pub apply_overrides-IsSorted :
    (base : List Text) (overrides : List PermissionOverride)
    → IsSorted (apply_overrides base overrides)
unfolding apply_overrides
apply_overrides-IsSorted base overrides = sort-IsSorted _
