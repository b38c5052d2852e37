-- ===== src/Core/Codec/Base64.antt =====
-- Base64 text of codec.ts: the table of symbols, and decoding after encoding.
use nap.Base.{
  ℕ, ◌+◌, ◌*◌, ◌/◌, ◌%◌, ◌^◌, ◌<◌, ◌≡◌, refl, ◌∙◌, Bool, true, false, not, ◌&&◌, ◌||◌, none, some,
  List, [], ◌∷◌, arith, eqb, leb, length, All, holds_below, holds_below_lem,
}
use nap.Text.{Text, is_space, without_spaces, text_discrete}
use nap.Core.Codec.{
  symbol, base64_lookup, encode_base64_bytes, has_valid_padding, padded_value, decode_group,
  decode_groups, decode_base64_bytes, url_unit, strip_padding, encode_base64_url_bytes,
}

-- What the table of symbols gives for an index.
is_symbol_of : ℕ → ℕ → Bool
is_symbol_of c i =
    elim (base64_lookup c) [ none ↦ false | some j ↦ eqb j i ]
    && not (eqb c b'=')
    && not (is_space c)

symbol_table : holds_below (λ i. is_symbol_of (symbol i) i) 64 ≡ true
unfolding holds_below is_symbol_of symbol base64_lookup is_space
symbol_table = refl

record IsSymbol (c i : ℕ) : Type 0 where
  found : base64_lookup c ≡ some i
  unpadded : eqb c b'=' ≡ false
  visible : is_space c ≡ false

IsSymbol-of : (c i : ℕ) → is_symbol_of c i ≡ true → IsSymbol c i
unfolding is_symbol_of
IsSymbol-of c i h = ground arith

symbol-IsSymbol : (i : ℕ) → i < 64 → IsSymbol (symbol i) i
symbol-IsSymbol i h =
    IsSymbol-of (symbol i) i (holds_below_lem (λ i. is_symbol_of (symbol i) i) i 64 h symbol_table)

module _ (c1 c2 c3 c4 i j k l : ℕ) (s1 : IsSymbol c1 i) (s2 : IsSymbol c2 j) where
  decode_group_full :
      IsSymbol c3 k
      → IsSymbol c4 l
      → let chunk = i * 2 ^ 18 + j * 2 ^ 12 + k * 2 ^ 6 + l in
        decode_group c1 c2 c3 c4
        ≡ some ((chunk / 2 ^ 16 % 256) ∷ (chunk / 2 ^ 8 % 256) ∷ (chunk % 256) ∷ [])
  unfolding decode_group padded_value
  decode_group_full s3 s4 = rw (s1.found, s2.found, s3.found, s4.found, s3.unpadded, s4.unpadded)

  decode_group_two :
      IsSymbol c3 k
      → let chunk = i * 2 ^ 18 + j * 2 ^ 12 + k * 2 ^ 6 + 0 in
        decode_group c1 c2 c3 b'=' ≡ some ((chunk / 2 ^ 16 % 256) ∷ (chunk / 2 ^ 8 % 256) ∷ [])
  unfolding decode_group padded_value
  decode_group_two s3 = rw (s1.found, s2.found, s3.found, s3.unpadded)

  decode_group_one :
      let chunk = i * 2 ^ 18 + j * 2 ^ 12 + 0 * 2 ^ 6 + 0 in
      decode_group c1 c2 b'=' b'=' ≡ some ((chunk / 2 ^ 16 % 256) ∷ [])
  unfolding decode_group padded_value
  decode_group_one = rw (s1.found, s2.found)

regroup :
    (chunk : ℕ)
    → chunk < 2 ^ 24
    → chunk / 2 ^ 18 % 64 * 2 ^ 18
        + chunk / 2 ^ 12 % 64 * 2 ^ 12
        + chunk / 2 ^ 6 % 64 * 2 ^ 6
        + chunk % 64
      ≡ chunk
regroup chunk h = omega arith

abbrev pub IsByte : ℕ → Type 0
IsByte b = b < 256

module _ (chunk : ℕ) where
  s1 : IsSymbol (symbol (chunk / 2 ^ 18 % 64)) (chunk / 2 ^ 18 % 64)
  s1 = symbol-IsSymbol (chunk / 2 ^ 18 % 64) (omega arith)

  s2 : IsSymbol (symbol (chunk / 2 ^ 12 % 64)) (chunk / 2 ^ 12 % 64)
  s2 = symbol-IsSymbol (chunk / 2 ^ 12 % 64) (omega arith)

  s3 : IsSymbol (symbol (chunk / 2 ^ 6 % 64)) (chunk / 2 ^ 6 % 64)
  s3 = symbol-IsSymbol (chunk / 2 ^ 6 % 64) (omega arith)

  s4 : IsSymbol (symbol (chunk % 64)) (chunk % 64)
  s4 = symbol-IsSymbol (chunk % 64) (omega arith)

-- The three bytes of a chunk come back from its four symbols.
decode_group_chunk :
    (byte1 byte2 byte3 : ℕ)
    → IsByte byte1
    → IsByte byte2
    → IsByte byte3
    → let chunk = byte1 * 2 ^ 16 + byte2 * 2 ^ 8 + byte3 in
      decode_group
        (symbol (chunk / 2 ^ 18 % 64))
        (symbol (chunk / 2 ^ 12 % 64))
        (symbol (chunk / 2 ^ 6 % 64))
        (symbol (chunk % 64))
      ≡ some (byte1 ∷ byte2 ∷ byte3 ∷ [])
decode_group_chunk byte1 byte2 byte3 h1 h2 h3 =
    let chunk = byte1 * 2 ^ 16 + byte2 * 2 ^ 8 + byte3 in
    decode_group_full _ _ _ _ _ _ _ _ (s1 chunk) (s2 chunk) (s3 chunk) (s4 chunk)
    ∙ ground (arith, regroup chunk)

decode_group_chunk_two :
    (byte1 byte2 : ℕ)
    → IsByte byte1
    → IsByte byte2
    → let chunk = byte1 * 2 ^ 16 + byte2 * 2 ^ 8 + 0 in
      decode_group
        (symbol (chunk / 2 ^ 18 % 64))
        (symbol (chunk / 2 ^ 12 % 64))
        (symbol (chunk / 2 ^ 6 % 64))
        b'='
      ≡ some (byte1 ∷ byte2 ∷ [])
decode_group_chunk_two byte1 byte2 h1 h2 =
    let chunk = byte1 * 2 ^ 16 + byte2 * 2 ^ 8 + 0 in
    decode_group_two _ _ _ 0 _ _ _ 0 (s1 chunk) (s2 chunk) (s3 chunk)
    ∙ ground (arith, regroup chunk)

decode_group_chunk_one :
    (byte1 : ℕ)
    → IsByte byte1
    → let chunk = byte1 * 2 ^ 16 + 0 * 2 ^ 8 + 0 in
      decode_group (symbol (chunk / 2 ^ 18 % 64)) (symbol (chunk / 2 ^ 12 % 64)) b'=' b'='
      ≡ some (byte1 ∷ [])
decode_group_chunk_one byte1 h1 =
    let chunk = byte1 * 2 ^ 16 + 0 * 2 ^ 8 + 0 in
    decode_group_one _ _ 0 0 _ _ 0 0 (s1 chunk) (s2 chunk) ∙ ground (arith, regroup chunk)

decode_groups-encode :
    (bytes : List ℕ) → All IsByte bytes → decode_groups (encode_base64_bytes bytes) ≡ some bytes
unfolding decode_groups encode_base64_bytes
decode_groups-encode [] h = refl
decode_groups-encode (byte1 ∷ []) h = ground (arith, decode_group_chunk_one byte1 h.0)
decode_groups-encode (byte1 ∷ byte2 ∷ []) h =
    ground (arith, decode_group_chunk_two byte1 byte2 h.0 h.1.0)
decode_groups-encode (byte1 ∷ byte2 ∷ byte3 ∷ bytes) h = ground (
  arith,
  decode_group_chunk byte1 byte2 byte3 h.0 h.1.0 h.1.1.0,
  decode_groups-encode bytes h.1.1.1,
)

-- What the encoder writes has no white space, whole groups, and padding at the end alone.
record IsClean (s : Text) : Type 0 where
  spaceless : without_spaces s ≡ s
  whole : length s % 4 ≡ 0
  padded : has_valid_padding s ≡ true

encode-IsClean : (bytes : List ℕ) → IsClean (encode_base64_bytes bytes)
unfolding encode_base64_bytes without_spaces has_valid_padding text_discrete is_space
encode-IsClean [] = record { spaceless = refl; whole = refl; padded = refl }
encode-IsClean (byte1 ∷ []) =
    let chunk = byte1 * 2 ^ 16 + 0 * 2 ^ 8 + 0 in ground (arith, s1 chunk, s2 chunk)
encode-IsClean (byte1 ∷ byte2 ∷ []) =
    let chunk = byte1 * 2 ^ 16 + byte2 * 2 ^ 8 + 0 in ground (arith, s1 chunk, s2 chunk, s3 chunk)
encode-IsClean (byte1 ∷ byte2 ∷ byte3 ∷ bytes) =
    let chunk = byte1 * 2 ^ 16 + byte2 * 2 ^ 8 + byte3 in
    ground (arith, s1 chunk, s2 chunk, s3 chunk, s4 chunk, encode-IsClean bytes)

-- Decoding gives back every sequence of bytes that was encoded.
pub decode-encode :
    (bytes : List ℕ)
    → All IsByte bytes
    → decode_base64_bytes (encode_base64_bytes bytes) ≡ some bytes
unfolding decode_base64_bytes
decode-encode bytes h =
    let c = encode-IsClean bytes in
    rw (c.spaceless, c.whole, c.padded) (decode_groups-encode bytes h)

-- A letter, a digit, `-` or `_`.
abbrev pub is_url_safe : ℕ → Bool
is_url_safe c =
    (leb b'A' c && leb c b'Z')
    || (leb b'a' c && leb c b'z')
    || (leb b'0' c && leb c b'9')
    || eqb c b'-'
    || eqb c b'_'

url_symbol_table : holds_below (λ i. is_url_safe (url_unit (symbol i))) 64 ≡ true
unfolding holds_below symbol url_unit
url_symbol_table = refl

url_symbol_safe : (i : ℕ) → i < 64 → is_url_safe (url_unit (symbol i)) ≡ true
url_symbol_safe i h =
    holds_below_lem (λ i. is_url_safe (url_unit (symbol i))) i 64 h url_symbol_table

unpadded_of_safe : (c : ℕ) → is_url_safe c ≡ true → eqb c b'=' ≡ false
unpadded_of_safe c h = ground arith

-- A character that needs no escape in a URL.
abbrev pub IsUrlSafe : ℕ → Type 0
IsUrlSafe c = is_url_safe c ≡ true

strip_padding_safe :
    (c : ℕ) (s : Text)
    → IsUrlSafe c
    → All IsUrlSafe (strip_padding s)
    → All IsUrlSafe (strip_padding (c ∷ s))
unfolding strip_padding
strip_padding_safe c s h k = ground (arith, unpadded_of_safe c h)

module _ (chunk : ℕ) where
  u1 : IsUrlSafe (url_unit (symbol (chunk / 2 ^ 18 % 64)))
  u1 = url_symbol_safe (chunk / 2 ^ 18 % 64) (omega arith)

  u2 : IsUrlSafe (url_unit (symbol (chunk / 2 ^ 12 % 64)))
  u2 = url_symbol_safe (chunk / 2 ^ 12 % 64) (omega arith)

  u3 : IsUrlSafe (url_unit (symbol (chunk / 2 ^ 6 % 64)))
  u3 = url_symbol_safe (chunk / 2 ^ 6 % 64) (omega arith)

  u4 : IsUrlSafe (url_unit (symbol (chunk % 64)))
  u4 = url_symbol_safe (chunk % 64) (omega arith)

padding_stripped : All IsUrlSafe (strip_padding (url_unit b'=' ∷ url_unit b'=' ∷ []))
unfolding strip_padding url_unit text_discrete
padding_stripped = tt

padding_stripped_one : All IsUrlSafe (strip_padding (url_unit b'=' ∷ []))
unfolding strip_padding url_unit text_discrete
padding_stripped_one = tt

-- A token, an identifier or a challenge made by `encode_base64_url_bytes` has only characters that
-- stand in a URL as they are, the padding gone.
pub encode_base64_url-IsUrlSafe : (bytes : List ℕ) → All IsUrlSafe (encode_base64_url_bytes bytes)
unfolding encode_base64_url_bytes encode_base64_bytes
encode_base64_url-IsUrlSafe [] = tt
encode_base64_url-IsUrlSafe (byte1 ∷ []) =
    let chunk = byte1 * 2 ^ 16 + 0 * 2 ^ 8 + 0 in
    search (strip_padding_safe, u1 chunk, u2 chunk, padding_stripped)
encode_base64_url-IsUrlSafe (byte1 ∷ byte2 ∷ []) =
    let chunk = byte1 * 2 ^ 16 + byte2 * 2 ^ 8 + 0 in
    search (strip_padding_safe, u1 chunk, u2 chunk, u3 chunk, padding_stripped_one)
encode_base64_url-IsUrlSafe (byte1 ∷ byte2 ∷ byte3 ∷ bytes) =
    let chunk = byte1 * 2 ^ 16 + byte2 * 2 ^ 8 + byte3 in
    let rest = encode_base64_url-IsUrlSafe bytes in
    search (strip_padding_safe, u1 chunk, u2 chunk, u3 chunk, u4 chunk, rest)
