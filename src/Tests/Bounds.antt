-- ===== src/Tests/Bounds.antt =====
-- The theorems on encodings, limits and times at concrete inputs.
use nap.Base.{
  or_default, ◌++◌, true, false, ◌↔◌, ℕ, ◌≤◌, ◌≡◌, refl, none, some, List, [], ◌∷◌, arith, All,
}
use nap.Text.{trim, to_lower_case, Text, text}
use nap.JsMap.{get}
use nap.Core.Codec.{encode_base64_bytes, decode_base64_bytes, bytes_to_hex, hex_to_bytes}
use nap.Core.Codec.Base64.{IsByte, decode-encode}
use nap.Core.Codec.Hex.{hex_to_bytes-bytes_to_hex}
use nap.Server.RateLimit.{Scope, RateLimitKey, InMemoryRateLimiter}
use nap.Server.RateLimit.Budget.{admitted, admitted-le}
use nap.Server.Clamp.Compare.{constant_time_equals_iff}
use nap.Server.Audience.{AllowedHost, is_allowed_scheme, parse_entries, base_url_of}
use nap.Server.Audience
use nap.Server.Audience.Allowed.{IsParsed, IsUnder, base_url_of-IsUnder}
use nap.Server.Clamp.{constant_time_equals}
use nap.Tests.Server.{platform}

abbrev some_bytes : List ℕ
some_bytes = 0 ∷ 255 ∷ 16 ∷ 7 ∷ []

some_bytes-IsByte : All IsByte some_bytes
some_bytes-IsByte = (ground arith, (ground arith, (ground arith, (ground arith, tt))))

decode-encode_example : decode_base64_bytes (encode_base64_bytes some_bytes) ≡ some some_bytes
decode-encode_example = decode-encode some_bytes some_bytes-IsByte

hex_to_bytes-bytes_to_hex_example : hex_to_bytes (bytes_to_hex some_bytes) ≡ some some_bytes
hex_to_bytes-bytes_to_hex_example = hex_to_bytes-bytes_to_hex some_bytes some_bytes-IsByte

abbrev limiter : InMemoryRateLimiter
limiter = record {
  window_seconds = 60;
  max_per_window = 2;
  clock = 100;
  windows = [];
  last_pruned_at = none;
}

abbrev from_ip : RateLimitKey
from_ip = record {
  scope = Scope.init;
  npub = some (text "npub1alice");
  pubkey = none;
  client_ip = some (text "10.0.0.1");
}

abbrev four_calls : List (ℕ × RateLimitKey)
four_calls = (100, from_ip) ∷ (101, from_ip) ∷ (130, from_ip) ∷ (159, from_ip) ∷ []

admitted-le_example : admitted (text "init:ip:10.0.0.1") four_calls limiter ≤ 2
unfolding get
admitted-le_example = admitted-le (text "init:ip:10.0.0.1") 100 four_calls limiter refl (
  (ground arith, ground arith),
  (
    (ground arith, ground arith),
    ((ground arith, ground arith), ((ground arith, ground arith), tt)),
  ),
)

constant_time_equals_iff_example :
    (constant_time_equals platform (text "at2") (text "at3") ≡ true) ↔ (text "at2" ≡ text "at3")
constant_time_equals_iff_example = constant_time_equals_iff platform (text "at2") (text "at3")

abbrev entries : List Text
entries = text "https://nap.example" ∷ text "*.example.com" ∷ []

abbrev allowed_hosts : List AllowedHost
allowed_hosts =
    record { host = text "nap.example"; scheme = some (text "https"); wildcard = false }
    ∷ record { host = text "example.com"; scheme = none; wildcard = true }
    ∷ []

base_url_of-IsUnder_example :
    (a : AllowedHost) × IsParsed entries a
    × IsUnder a (to_lower_case (trim (text "Api.example.com")))
    × (is_allowed_scheme a.scheme ≡ true)
    × (text "https://api.example.com"
        ≡ or_default a.scheme (text "https")
          ++ (text "://" ++ to_lower_case (trim (text "Api.example.com"))))
unfolding parse_entries base_url_of Audience.parse_entry to_lower_case trim nap.Text.is_space
    Audience.parse_host Audience.match_scheme nap.Text.strip_prefix Audience.span_scheme
    nap.Text.text_discrete nap.Text.has_unit Audience.find_match Audience.matches nap.Text.ends_with
    nap.Text.trim_start nap.Text.trim_end nap.Text.lower_unit
base_url_of-IsUnder_example =
    base_url_of-IsUnder entries allowed_hosts (text "Api.example.com") (text "https")
      (text "https://api.example.com") refl refl
