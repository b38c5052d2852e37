-- ===== src/Text/Split.antt =====
-- Splitting a text at the last occurrence of a separator.
use nap.Base.{ℕ, ◌≡◌, refl, Bool, true, false, [], ◌∷◌, ◌++◌, arith, eqb}
use nap.Text.{Text, has_unit}

has_unit-append :
    (p : ℕ → Bool) (c : ℕ) (x y : Text) → p c ≡ true → has_unit p (x ++ (c ∷ y)) ≡ true
unfolding has_unit
has_unit-append p c [] y h = rw h
has_unit-append p c (d ∷ x) y h = ground (arith, has_unit-append p c x y h)

-- The text has the separator.
abbrev pub has : ℕ → Text → Bool
has separator = has_unit (λ c. eqb c separator)

-- A text has at most one split at a separator that does not occur behind it.
pub split_at_last :
    (separator : ℕ) (x y a b : Text)
    → has separator a ≡ false
    → has separator b ≡ false
    → x ++ (separator ∷ a) ≡ y ++ (separator ∷ b)
    → (x ≡ y) × (a ≡ b)
split_at_last c [] [] a b ha hb e = (refl, cc)
split_at_last c [] (d ∷ y) a b ha hb e =
    ground (arith, has_unit-append (λ d. eqb d c) c y b (ground arith))
split_at_last c (d ∷ x) [] a b ha hb e =
    ground (arith, has_unit-append (λ d. eqb d c) c x a (ground arith))
split_at_last c (d ∷ x) (d' ∷ y) a b ha hb e =
    let (same, rest) = split_at_last c x y a b ha hb (ground arith) in (ground arith, rest)
