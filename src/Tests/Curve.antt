-- ===== src/Tests/Curve.antt =====
-- A toy curve, of two points, that the examples on vouchers use.
use nap.Base.{
  ap, ℕ, zero, suc, ◌+◌, ◌*◌, ◌%◌, ◌≡◌, refl, Bool, true, false, not, ◌&&◌, if◌then◌else◌, some,
  arith, Bool-cases, eqb,
}
use nap.Text.{text, ◌==◌}
use nap.Voucher.Platform.{Curve}
use nap.Voucher.Dleq.Honest.{IsGroup}

unfoldable pub odd : ℕ → Bool
odd zero = false
odd (suc n) = not (odd n)

abbrev pub xor : Bool → Bool → Bool
xor p q = if p then not q else q

abbrev pub two_points : Curve Bool
two_points = record {
  base = true;
  order = 4;
  add = xor;
  negate = λ p. p;
  multiply = λ n p. p && odd n;
  from_hex = λ t. some (t == text "02");
  to_hex = λ p. some (if p then text "02" else text "00");
  to_hex_uncompressed = λ p. some (if p then text "04" else text "00");
}

xor_assoc : (p q r : Bool) → xor (xor p q) r ≡ xor p (xor q r)
xor_assoc false q r = refl
xor_assoc true false r = refl
xor_assoc true true false = refl
xor_assoc true true true = refl

xor_comm : (p q : Bool) → xor p q ≡ xor q p
xor_comm false false = refl
xor_comm false true = refl
xor_comm true false = refl
xor_comm true true = refl

xor_cancel : (p q : Bool) → xor (xor p q) q ≡ p
xor_cancel false false = refl
xor_cancel false true = refl
xor_cancel true false = refl
xor_cancel true true = refl

odd_iff : (n : ℕ) → odd n ≡ eqb (n % 2) 1
unfolding odd
odd_iff zero = refl
odd_iff (suc n) = ground (arith, odd_iff n)

suc_add : (m n : ℕ) → suc m + n ≡ suc (m + n)
suc_add m n = omega arith

suc_mul : (m n : ℕ) → suc m * n ≡ n + m * n
suc_mul m n = omega arith

odd-add : (m n : ℕ) → odd (m + n) ≡ xor (odd m) (odd n)
unfolding odd
odd-add zero n = ground arith
odd-add (suc m) n =
    let step : odd (suc m + n) ≡ not (odd (m + n)) = ap odd (suc_add m n) in
    ground (arith, step, odd-add m n, Bool-cases (odd m), Bool-cases (odd n))

odd-mul : (m n : ℕ) → odd (m * n) ≡ (odd m && odd n)
unfolding odd
odd-mul zero n = ground arith
odd-mul (suc m) n =
    let step : odd (suc m * n) ≡ odd (n + m * n) = ap odd (suc_mul m n) in
    ground (arith, step, odd-mul m n, odd-add n (m * n), Bool-cases (odd m), Bool-cases (odd n))

pub two_points-IsGroup : IsGroup two_points
two_points-IsGroup = record {
  assoc = xor_assoc;
  comm = xor_comm;
  cancel = xor_cancel;
  multiply_add = λ m n p. ground (arith, odd-add m n, Bool-cases p);
  multiply_mul =
      λ m n p. ground (arith, odd-mul m n, Bool-cases p, Bool-cases (odd m), Bool-cases (odd n));
  multiply_point = λ m p q. ground (arith, Bool-cases p, Bool-cases q, Bool-cases (odd m));
  wraps = λ m p. ground (arith, odd_iff m, odd_iff (m % 4));
}
