-- ===== src/Core/Codec/Hex.antt =====
-- Hexadecimal text of codec.ts: what is printed is read back, and what is accepted beside it.
use nap.Base.{
  ℕ, ◌/◌, ◌%◌, ◌<◌, ◌≡◌, refl, Bool, true, false, not, ◌&&◌, none, some, List, [], ◌∷◌, arith, eqb,
  All, holds_below, holds_below_lem,
}
use nap.Text.{Text, is_space, trim, trim_start, trim_end, to_lower_case, lower_unit}
use nap.Core.Codec.{hex_digit, bytes_to_hex, digit_value, parse_int_pair, hex_pairs, hex_to_bytes}
use nap.Core.Codec.Base64.{IsByte}

pair_reads : ℕ → Bool
pair_reads b = elim (parse_int_pair (hex_digit (b / 16)) (hex_digit (b % 16))) [
  | none ↦ false
  | some v ↦ eqb v b
]

pair_table : holds_below pair_reads 256 ≡ true
unfolding holds_below pair_reads parse_int_pair digit_value hex_digit is_space
pair_table = refl

parse_int_pair-hex_digit :
    (b : ℕ) → IsByte b → parse_int_pair (hex_digit (b / 16)) (hex_digit (b % 16)) ≡ some b
unfolding pair_reads
parse_int_pair-hex_digit b h = ground (arith, holds_below_lem pair_reads b 256 h pair_table)

-- A character that neither `trim` nor `to_lower_case` changes.
abbrev IsPlain : ℕ → Type 0
IsPlain c = (is_space c ≡ false) × (lower_unit c ≡ c)

digit_table :
    holds_below
      (λ n. not (is_space (hex_digit n)) && eqb (lower_unit (hex_digit n)) (hex_digit n))
      16
    ≡ true
unfolding holds_below hex_digit is_space lower_unit
digit_table = refl

hex_digit-IsPlain : (n : ℕ) → n < 16 → IsPlain (hex_digit n)
hex_digit-IsPlain n h = ground (
  arith,
  holds_below_lem
      (λ n. not (is_space (hex_digit n)) && eqb (lower_unit (hex_digit n)) (hex_digit n)) n 16 h
      digit_table,
)

trim_start_plain : (s : Text) → All IsPlain s → trim_start s ≡ s
unfolding trim_start
trim_start_plain [] h = refl
trim_start_plain (c ∷ s) h = rw h.0.0

trim_end_plain : (s : Text) → All IsPlain s → trim_end s ≡ s
unfolding trim_end
trim_end_plain [] h = refl
trim_end_plain (c ∷ s) h = ground (arith, trim_end_plain s h.1)

lower_plain : (s : Text) → All IsPlain s → to_lower_case s ≡ s
unfolding to_lower_case
lower_plain [] h = refl
lower_plain (c ∷ s) h = ground (arith, lower_plain s h.1)

bytes_to_hex-IsPlain : (bytes : List ℕ) → All IsByte bytes → All IsPlain (bytes_to_hex bytes)
unfolding bytes_to_hex
bytes_to_hex-IsPlain [] h = tt
bytes_to_hex-IsPlain (b ∷ bytes) h = (
  hex_digit-IsPlain (b / 16) (omega arith),
  (hex_digit-IsPlain (b % 16) (omega arith), bytes_to_hex-IsPlain bytes h.1),
)

hex_pairs-bytes_to_hex :
    (bytes : List ℕ) → All IsByte bytes → hex_pairs (bytes_to_hex bytes) ≡ some bytes
unfolding hex_pairs bytes_to_hex
hex_pairs-bytes_to_hex [] h = refl
hex_pairs-bytes_to_hex (b ∷ bytes) h =
    ground (arith, parse_int_pair-hex_digit b h.0, hex_pairs-bytes_to_hex bytes h.1)

-- The hexadecimal text of a sequence of bytes is read back as that sequence.
pub hex_to_bytes-bytes_to_hex :
    (bytes : List ℕ) → All IsByte bytes → hex_to_bytes (bytes_to_hex bytes) ≡ some bytes
unfolding hex_to_bytes trim
hex_to_bytes-bytes_to_hex bytes h =
    let plain = bytes_to_hex-IsPlain bytes h in
    rw
      (
        trim_start_plain (bytes_to_hex bytes) plain,
        trim_end_plain (bytes_to_hex bytes) plain,
        lower_plain (bytes_to_hex bytes) plain,
      )
      (hex_pairs-bytes_to_hex bytes h)

-- A pair of a digit of base 16 and any other character but `x` passes as that digit alone, where
-- the program means to refuse it.
pub parse_int_pair_lenient :
    (a b v : ℕ)
    → digit_value a ≡ some v
    → digit_value b ≡ none
    → eqb b b'x' ≡ false
    → is_space a ≡ false
    → parse_int_pair a b ≡ some v
unfolding parse_int_pair digit_value
parse_int_pair_lenient a b v ha hb hx hs = ground arith
