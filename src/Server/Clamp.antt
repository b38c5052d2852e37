-- ===== src/Server/Clamp.antt =====
-- `clampTtlToDecision`, `constantTimeEquals`, `resolveChallengeTtl` and `padAuthResponse` of
-- packages/nap-server/src/server.ts.
pub mod Compare
use nap.Base.{
  ℕ, ◌+◌, ◌-◌, ◌%◌, ◌≤◌, ◌<◌, ◌≡◌, max, min, Bool, ◌&&◌, ◌||◌, Option, none, some, List, [], ◌∷◌,
  arith, ltb, leb, eqb, if◌then◌else◌, or_default, length, bit_or, bit_xor,
}
use nap.Text.{Text}
use nap.Core.Platform.{Platform}

unfoldable pub clamp_ttl_to_decision : ℕ → Option ℕ → ℕ → ℕ
clamp_ttl_to_decision configured none now = configured
clamp_ttl_to_decision configured (some expires_at) now =
    if leb (now + configured) expires_at then configured else max 1 (expires_at - now)

-- A session's lifetime is the configured one or what is left of the resolver's decision, whichever
-- is less, and one second at least; so it is positive and never longer than configured.
pub clamp_ttl_to_decision-bounds :
    (configured expires_at now : ℕ)
    → 0 < configured
    → let ttl = clamp_ttl_to_decision configured (some expires_at) now in
      (ttl ≡ max 1 (min configured (expires_at - now))) × (0 < ttl) × (ttl ≤ configured)
unfolding clamp_ttl_to_decision
clamp_ttl_to_decision-bounds configured expires_at now h =
    (ground arith, ground arith, ground arith)

-- `resolveChallengeTtl`, `none` where it throws.
unfoldable pub resolve_challenge_ttl : Option ℕ → Option ℕ
resolve_challenge_ttl given =
    let ttl = or_default given 60 in if eqb ttl 0 || ltb 60 ttl then none else some ttl

abbrev or_zero : List ℕ → ℕ
or_zero [] = 0
or_zero (b ∷ bs) = b

-- How long `padAuthResponse` sleeps, from the first random byte and the time that has passed; it
-- draws no byte where the range of the jitter is 0.
unfoldable pub pad_millis : Option ℕ → Option ℕ → List ℕ → ℕ → ℕ
pad_millis min_millis jitter_millis bytes elapsed =
    let floor = or_default min_millis 100 in
    let range = or_default jitter_millis 25 in
    if eqb floor 0 && eqb range 0
    then 0
    else (let jitter = if ltb 0 range then or_zero bytes % (range + 1) else 0 in
        floor + jitter - elapsed)

-- With its padding an answer takes the configured floor at least, and no longer than it takes without
-- or than the floor and the range of the jitter, whichever is more.
pub pad_millis-bounds :
    (floor range elapsed : ℕ) (bytes : List ℕ)
    → let total = elapsed + pad_millis (some floor) (some range) bytes elapsed in
      (floor ≤ total) × (total ≤ max elapsed (floor + range))
unfolding pad_millis
pad_millis-bounds floor range elapsed bytes = (ground arith, ground arith)

-- The loop over the bytes of `left`; a byte that `right` lacks counts as 0.
unfoldable pub compare_bytes : ℕ → List ℕ → List ℕ → ℕ
compare_bytes difference [] right = difference
compare_bytes difference (l ∷ left) [] = compare_bytes (bit_or difference (bit_xor l 0)) left []
compare_bytes difference (l ∷ left) (r ∷ right) =
    compare_bytes (bit_or difference (bit_xor l r)) left right

-- Two sequences of bytes are compared to the end of the first.
unfoldable pub equal_bytes : List ℕ → List ℕ → Bool
equal_bytes left right = eqb (compare_bytes (bit_xor (length left) (length right)) left right) 0

-- `constantTimeEquals`, which compares the encoded texts.
unfoldable pub constant_time_equals : Platform → Text → Text → Bool
constant_time_equals platform left right =
    equal_bytes (platform.text_encode left) (platform.text_encode right)
