-- ===== src/Core/Proof/Tags.antt =====
-- Reading a tag of an event: what a single value says of the list of tags.
use nap.Base.{
  ◌≡◌, refl, ap, true, false, some, List, [], ◌∷◌, ◌++◌, arith, All, Bool-cases, inl, inr,
}
use nap.Text.{Text}
use nap.Core.Types.{Nip98Event}
use nap.Core.Errors.{ok}
use nap.Core.Proof.{is_named, tags_named, tag_value, single_value, get_single_tag}

-- No tag of the list has the name.
abbrev pub IsUnnamed : Text → List (List Text) → Type 0
IsUnnamed name = All (λ tag. is_named name tag ≡ false)

-- One tag has the name, and the value stands behind it.
pub record IsSingle (name value : Text) (tags : List (List Text)) : Type 0 where
  pub before : List (List Text)
  pub more : List Text
  pub after : List (List Text)
  pub split : tags ≡ before ++ ((name ∷ value ∷ more) ∷ after)
  pub unnamed_before : IsUnnamed name before
  pub unnamed_after : IsUnnamed name after

tags_named-IsUnnamed :
    (name : Text) (tags : List (List Text)) → tags_named name tags ≡ [] → IsUnnamed name tags
unfolding tags_named
tags_named-IsUnnamed name [] h = tt
tags_named-IsUnnamed name (tag ∷ tags) h = elim (Bool-cases (is_named name tag)) [
  | inl named ↦ ground arith
  | inr other ↦ (other, tags_named-IsUnnamed name tags (ground arith))
]

single_tag :
    (name value : Text) (tag : List Text)
    → is_named name tag ≡ true
    → tag_value tag ≡ some value
    → (more : List Text) × (tag ≡ name ∷ value ∷ more)
single_tag name value [] h e = cc
single_tag name value (t ∷ []) h e = cc
single_tag name value (t ∷ v ∷ more) h e = (more, ground arith)

IsSingle-cons :
    (name value : Text) (tag : List Text) (tags : List (List Text))
    → is_named name tag ≡ false
    → IsSingle name value tags
    → IsSingle name value (tag ∷ tags)
IsSingle-cons name value tag tags h s = record {
  before = tag ∷ s.before;
  more = s.more;
  after = s.after;
  split = ap (◌∷◌ tag) s.split;
  unnamed_before = (h, s.unnamed_before);
  unnamed_after = s.unnamed_after;
}

pub single_value-IsSingle :
    (name value : Text) (tags : List (List Text))
    → single_value (tags_named name tags) ≡ some value
    → IsSingle name value tags
unfolding tags_named
single_value-IsSingle name value [] h = absurd (ground arith)
single_value-IsSingle name value (tag ∷ tags) h = elim (Bool-cases (is_named name tag)) [
  | inl named ↦
      let rest : tags_named name tags ≡ [] = ground arith in
      let (more, e) = single_tag name value tag named (ground arith) in
      record {
        before = [];
        more = more;
        after = tags;
        split = rw e;
        unnamed_before = tt;
        unnamed_after = tags_named-IsUnnamed name tags rest;
      }
  | inr other ↦
      IsSingle-cons name value tag tags other (single_value-IsSingle name value tags (ground arith))
]

pub get_single_tag-IsSingle :
    (event : Nip98Event) (name value : Text)
    → get_single_tag event name ≡ ok value
    → IsSingle name value event.tags
unfolding get_single_tag
get_single_tag-IsSingle event name value h =
    single_value-IsSingle name value event.tags (ground arith)

tags_named_unnamed :
    (name : Text) (tags : List (List Text)) → IsUnnamed name tags → tags_named name tags ≡ []
unfolding tags_named
tags_named_unnamed name [] h = refl
tags_named_unnamed name (tag ∷ tags) h = ground (arith, tags_named_unnamed name tags h.1)

tags_named_split :
    (name value : Text) (more : List Text) (before after : List (List Text))
    → IsUnnamed name before
    → IsUnnamed name after
    → tags_named name (before ++ ((name ∷ value ∷ more) ∷ after)) ≡ (name ∷ value ∷ more) ∷ []
unfolding tags_named
tags_named_split name value more [] after hb ha = ground (arith, tags_named_unnamed name after ha)
tags_named_split name value more (tag ∷ before) after hb ha =
    ground (arith, tags_named_split name value more before after hb.1 ha)

pub get_single_tag_of_IsSingle :
    (event : Nip98Event) (name value : Text)
    → IsSingle name value event.tags
    → get_single_tag event name ≡ ok value
unfolding get_single_tag
get_single_tag_of_IsSingle event name value s = ground (
  arith,
  s.split,
  tags_named_split name value s.more s.before s.after s.unnamed_before s.unnamed_after,
)
