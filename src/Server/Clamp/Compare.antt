-- ===== src/Server/Clamp/Compare.antt =====
-- `constantTimeEquals` of packages/nap-server/src/server.ts against equality.
use Prim.Native.Nat.{digits, differ, bit_or-bitwise, bit_xor-bitwise}
use nap.Base.{
  ℕ, zero, suc, ◌/◌, ◌%◌, ◌≤◌, ◌≡◌, ◌↔◌, refl, max, true, List, [], ◌∷◌, arith, length, bit_or,
  bit_xor, ap,
}
use nap.Text.{Text}
use nap.Core.Platform.{Platform}
use nap.Server.Clamp.{compare_bytes, equal_bytes, constant_time_equals}

-- Bit for bit: a sum of digits is 0 only where the digits are.
or_digits-zero : (n a b : ℕ) → a ≤ n → digits (λ b. b) max n a b ≡ 0 → (a ≡ 0) × (b ≡ 0)
or_digits-zero zero zero b p h = (refl, h)
or_digits-zero zero (suc a) b p h = absurd (omega arith)
or_digits-zero (suc n) zero b p h = (refl, h)
or_digits-zero (suc n) (suc a) b p h =
    let (low, high) = or_digits-zero n (suc a / 2) (b / 2) (omega arith) (omega arith) in
    (omega arith, omega arith)

bit_or-zero : (a b : ℕ) → (bit_or a b ≡ 0) ↔ ((a ≡ 0) × (b ≡ 0))
bit_or-zero a b = (
  λ h. or_digits-zero a a b (omega arith) (omega (arith, bit_or-bitwise a b, h)),
  λ p. ground (arith, bit_or-bitwise 0 0),
)

differ-zero : (x y : ℕ) → (differ x y ≡ 0) ↔ (x ≡ y)
differ-zero zero y = ground arith
differ-zero (suc x) zero = ground arith
differ-zero (suc x) (suc y) = ground (arith, differ-zero x y)

xor_digits-zero : (n a b : ℕ) → a ≤ n → (digits (λ b. b) differ n a b ≡ 0) ↔ (a ≡ b)
xor_digits-zero zero zero b p = ground arith
xor_digits-zero zero (suc a) b p = absurd (omega arith)
xor_digits-zero (suc n) zero b p = ground arith
xor_digits-zero (suc n) (suc a) b p =
    ground (arith, xor_digits-zero n (suc a / 2) (b / 2), differ-zero (suc a % 2) (b % 2))

bit_xor-zero : (a b : ℕ) → (bit_xor a b ≡ 0) ↔ (a ≡ b)
bit_xor-zero a b = ground (arith, bit_xor-bitwise a b, xor_digits-zero a a b)

-- Nothing clears the difference that has been found.
compare_bytes_keeps :
    (l r : List ℕ) (difference : ℕ) → compare_bytes difference l r ≡ 0 → difference ≡ 0
unfolding compare_bytes
compare_bytes_keeps [] r d h = h
compare_bytes_keeps (x ∷ l) [] d h =
    ((bit_or-zero d (bit_xor x 0)).0 (compare_bytes_keeps l [] (bit_or d (bit_xor x 0)) h)).0
compare_bytes_keeps (x ∷ l) (y ∷ r) d h =
    ((bit_or-zero d (bit_xor x y)).0 (compare_bytes_keeps l r (bit_or d (bit_xor x y)) h)).0

compare_bytes-zero :
    (l r : List ℕ) (difference : ℕ)
    → length l ≡ length r
    → (compare_bytes difference l r ≡ 0) ↔ ((difference ≡ 0) × (l ≡ r))
unfolding compare_bytes
compare_bytes-zero [] [] d e = ground arith
compare_bytes-zero [] (y ∷ r) d e = absurd (omega arith)
compare_bytes-zero (x ∷ l) [] d e = absurd (omega arith)
compare_bytes-zero (x ∷ l) (y ∷ r) d e = ground (
  arith,
  compare_bytes-zero l r (bit_or d (bit_xor x y)),
  bit_or-zero d (bit_xor x y),
  bit_xor-zero x y,
)

equal_bytes_iff : (left right : List ℕ) → (equal_bytes left right ≡ true) ↔ (left ≡ right)
unfolding equal_bytes
equal_bytes_iff l r = (
  λ h.
      let equal : compare_bytes (bit_xor (length l) (length r)) l r ≡ 0 = ground arith in
      let same = compare_bytes_keeps l r (bit_xor (length l) (length r)) equal in
      let lengths = (bit_xor-zero (length l) (length r)).0 same in
      ((compare_bytes-zero l r (bit_xor (length l) (length r)) lengths).0 equal).1,
  λ e.
      let lengths = ap length e in
      ground (
        arith,
        e,
        compare_bytes-zero l r (bit_xor (length l) (length r)) lengths,
        bit_xor-zero (length l) (length r),
      ),
)

-- The comparison of two texts that looks at every byte accepts exactly those that are encoded as the
-- same bytes. (Texts with a lone surrogate may be encoded alike and not be equal.)
pub constant_time_equals_iff :
    (platform : Platform) (left right : Text)
    → (constant_time_equals platform left right ≡ true)
      ↔ (platform.text_encode left ≡ platform.text_encode right)
unfolding constant_time_equals
constant_time_equals_iff platform left right =
    equal_bytes_iff (platform.text_encode left) (platform.text_encode right)
