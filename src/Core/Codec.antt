-- ===== src/Core/Codec.antt =====
-- packages/nap-core/src/codec.ts, over lists of bytes. The shifted parts of a chunk share no bit,
-- so `|` is written as a sum; `>>` and `&` are quotients and remainders.
pub mod Base64
pub mod Hex
use nap.Base.{
  ℕ, suc, ◌+◌, ◌-◌, ◌*◌, ◌/◌, ◌%◌, ◌^◌, Bool, true, false, not, ◌&&◌, ◌||◌, Option, none, some,
  List, [], ◌∷◌, ◌++◌, map, if◌then◌else◌, leb, eqb, length, is_some, or_default,
}
use nap.Text.{Text, text, ◌==◌, is_space, without_spaces, trim, to_lower_case}

abbrev base64_alphabet : Text
base64_alphabet = text "ABCDEFGHIJKLMNOPQRSTUVWXYZabcdefghijklmnopqrstuvwxyz0123456789+/"

-- `BASE64_ALPHABET[i]`; every index that the program forms is below 64.
unfoldable pub symbol_at : Text → ℕ → ℕ
symbol_at [] i = 0
symbol_at (c ∷ cs) i = if eqb i 0 then c else symbol_at cs (i - 1)

unfoldable pub symbol : ℕ → ℕ
unfolding symbol_at
symbol i = symbol_at base64_alphabet i

-- `BASE64_LOOKUP.get(c)`
unfoldable pub index_of : Text → ℕ → ℕ → Option ℕ
index_of [] i c = none
index_of (d ∷ ds) i c = let rest = index_of ds (i + 1) c in if eqb d c then some i else rest

unfoldable pub base64_lookup : ℕ → Option ℕ
unfolding index_of
base64_lookup c = index_of base64_alphabet 0 c

abbrev chunk_of : ℕ → ℕ → ℕ → ℕ
chunk_of byte1 byte2 byte3 = byte1 * 2 ^ 16 + byte2 * 2 ^ 8 + byte3

unfoldable pub encode_base64_bytes : List ℕ → Text
encode_base64_bytes [] = []
encode_base64_bytes (byte1 ∷ []) =
    let chunk = chunk_of byte1 0 0 in
    symbol (chunk / 2 ^ 18 % 64) ∷ symbol (chunk / 2 ^ 12 % 64) ∷ b'=' ∷ b'=' ∷ []
encode_base64_bytes (byte1 ∷ byte2 ∷ []) =
    let chunk = chunk_of byte1 byte2 0 in
    symbol (chunk / 2 ^ 18 % 64)
    ∷ symbol (chunk / 2 ^ 12 % 64)
    ∷ symbol (chunk / 2 ^ 6 % 64)
    ∷ b'='
    ∷ []
encode_base64_bytes (byte1 ∷ byte2 ∷ byte3 ∷ bytes) =
    let chunk = chunk_of byte1 byte2 byte3 in
    symbol (chunk / 2 ^ 18 % 64)
    ∷ symbol (chunk / 2 ^ 12 % 64)
    ∷ symbol (chunk / 2 ^ 6 % 64)
    ∷ symbol (chunk % 64)
    ∷ encode_base64_bytes bytes

-- `sanitized.slice(sanitized.indexOf('='))`, or nothing where there is no `=`.
unfoldable pub padding_tail : Text → Text
padding_tail [] = []
padding_tail (c ∷ cs) = if eqb c b'=' then c ∷ cs else padding_tail cs

unfoldable pub has_valid_padding : Text → Bool
unfolding padding_tail
has_valid_padding s =
    let tail = padding_tail s in (tail == []) || (tail == text "=") || (tail == text "==")

-- A padding character counts as 0 in the third and in the fourth place.
unfoldable pub padded_value : ℕ → Option ℕ
padded_value c = if eqb c b'=' then some 0 else base64_lookup c

-- The bytes of one group of four, or an error at a character outside the alphabet.
unfoldable pub decode_group : ℕ → ℕ → ℕ → ℕ → Option (List ℕ)
unfolding padded_value
decode_group char1 char2 char3 char4 =
    if is_some (base64_lookup char1)
      && is_some (base64_lookup char2)
      && is_some (padded_value char3)
      && is_some (padded_value char4)
    then some (
        let chunk =
          or_default (base64_lookup char1) 0 * 2 ^ 18
          + or_default (base64_lookup char2) 0 * 2 ^ 12
          + or_default (padded_value char3) 0 * 2 ^ 6
          + or_default (padded_value char4) 0 in
        (chunk / 2 ^ 16 % 256)
        ∷ ((if eqb char3 b'=' then [] else (chunk / 2 ^ 8 % 256) ∷ [])
            ++ (if eqb char4 b'=' then [] else (chunk % 256) ∷ [])))
    else none

-- `none` stands for the error that the loop throws.
unfoldable pub decode_groups : Text → Option (List ℕ)
decode_groups [] = some []
decode_groups (char1 ∷ char2 ∷ char3 ∷ char4 ∷ rest) = elim (decode_group char1 char2 char3 char4) [
  | none ↦ none
  | some bytes ↦ elim (decode_groups rest) [ none ↦ none | some more ↦ some (bytes ++ more) ]
]
decode_groups _ = none

unfoldable pub decode_base64_bytes : Text → Option (List ℕ)
unfolding has_valid_padding
decode_base64_bytes value =
    let sanitized = without_spaces value in
    if not (eqb (length sanitized % 4) 0)
    then none
    else if not (has_valid_padding sanitized)
    then none
    else decode_groups sanitized

-- `.replace(/\+/g, '-').replace(/\//g, '_').replace(/=+$/g, '')`
unfoldable pub url_unit : ℕ → ℕ
url_unit c = if eqb c b'+' then b'-' else if eqb c b'/' then b'_' else c

unfoldable pub strip_padding : Text → Text
strip_padding [] = []
strip_padding (c ∷ cs) =
    let rest = strip_padding cs in if (rest == []) && eqb c b'=' then [] else c ∷ rest

unfoldable pub encode_base64_url_bytes : List ℕ → Text
unfolding url_unit strip_padding
encode_base64_url_bytes bytes = strip_padding (map url_unit (encode_base64_bytes bytes))

unfoldable pub hex_digit : ℕ → ℕ
hex_digit n = if leb n 9 then b'0' + n else b'a' + (n - 10)

unfoldable pub bytes_to_hex : List ℕ → Text
unfolding hex_digit
bytes_to_hex [] = []
bytes_to_hex (b ∷ bytes) = hex_digit (b / 16) ∷ hex_digit (b % 16) ∷ bytes_to_hex bytes

-- The value of a digit of base 16, in lower case.
unfoldable pub digit_value : ℕ → Option ℕ
digit_value c =
    if leb b'0' c && leb c b'9'
    then some (c - b'0')
    else if leb b'a' c && leb c b'f'
    then some (c - b'a' + 10)
    else none

-- `Number.parseInt` of two characters in base 16, as the byte that a `Uint8Array` keeps of it: it
-- skips white space, reads a sign, refuses a bare `0x`, and stops at the first other character.
unfoldable pub parse_int_pair : ℕ → ℕ → Option ℕ
unfolding digit_value
parse_int_pair a b =
    if is_space a || eqb a b'+'
    then digit_value b
    else if eqb a b'-'
    then elim (digit_value b) [ none ↦ none | some v ↦ some ((256 - v) % 256) ]
    else if eqb a b'0' && eqb b b'x'
    then none
    else elim (digit_value a) [
      | none ↦ none
      | some high ↦ elim (digit_value b) [ none ↦ some high | some low ↦ some (16 * high + low) ]
    ]

-- `none` stands for the error that is thrown, at an odd length too.
unfoldable pub hex_pairs : Text → Option (List ℕ)
hex_pairs [] = some []
hex_pairs (a ∷ []) = none
hex_pairs (a ∷ b ∷ rest) = elim (parse_int_pair a b) [
  | none ↦ none
  | some v ↦ elim (hex_pairs rest) [ none ↦ none | some more ↦ some (v ∷ more) ]
]

unfoldable pub hex_to_bytes : Text → Option (List ℕ)
unfolding hex_pairs parse_int_pair trim to_lower_case
hex_to_bytes hex = hex_pairs (to_lower_case (trim hex))
