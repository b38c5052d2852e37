-- ===== src/Core/Proof.antt =====
-- packages/nap-core/src/header.ts, url.ts, hash.ts, base64.ts and validate.ts: the check of a NIP-98
-- completion proof.
pub mod Tags
pub mod Sound
use nap.Base.{
  ℕ, ◌+◌, Bool, true, false, not, ◌&&◌, ◌||◌, Option, none, some, List, [], ◌∷◌, if◌then◌else◌, ltb,
  eqb, or_default, is_some, ◌>>=◌ as then_some,
}
use nap.Text.{Text, text, ◌==◌, is_empty, strip_prefix, trim, to_upper_case}
use nap.Core.Types.{
  AuthCompleteRequest, Nip98Event, VerifiedNip98Completion, VerifyNip98CompletionInput,
}
use nap.Core.Errors
use nap.Core.Errors.{NapErrorCode, Verdict, ok, fail, failure, require, ◌>>=◌, ◌>>◌}
use nap.Core.Codec.{bytes_to_hex, decode_base64_bytes}
use nap.Core.Json.{Json, property, text_property, number_property, string_array_array}
use nap.Core.Platform.{Platform}

-- The value that a property's test accepts, or a rejection.
abbrev nostr_scheme : Text
nostr_scheme = text "Nostr "

-- The fields of a parsed event, each of the type that the program tests for.
unfoldable pub event_of_json : Json → Option Nip98Event
event_of_json parsed = then_some (text_property (text "id") parsed) λ id.
    then_some (text_property (text "pubkey") parsed) λ pubkey.
      then_some (number_property (text "created_at") parsed) λ created_at.
        then_some (number_property (text "kind") parsed) λ kind.
          then_some (text_property (text "content") parsed) λ content.
            then_some (text_property (text "sig") parsed) λ sig.
              then_some (then_some (property (text "tags") parsed) string_array_array) λ tags.
                some (record {
                  id = id;
                  pubkey = pubkey;
                  created_at = created_at;
                  kind = kind;
                  tags = tags;
                  content = content;
                  sig = sig;
                })

-- `tag[0] === name`
abbrev pub is_named : Text → List Text → Bool
is_named name [] = false
is_named name (t ∷ ts) = t == name

-- `event.tags.filter((tag) => tag[0] === tagName)`
unfoldable pub tags_named : Text → List (List Text) → List (List Text)
tags_named name [] = []
tags_named name (tag ∷ tags) =
    let rest = tags_named name tags in if is_named name tag then tag ∷ rest else rest

-- `tag[1]`
abbrev pub tag_value : List Text → Option Text
tag_value (name ∷ value ∷ more) = some value
tag_value _ = none

abbrev pub single_value : List (List Text) → Option Text
single_value (tag ∷ []) = tag_value tag
single_value _ = none

abbrev tag_failure : Text → NapErrorCode
tag_failure name =
    if name == text "payload"
    then NapErrorCode.complete_missing_payload
    else if name == text "challenge_id"
    then NapErrorCode.complete_missing_challenge_id
    else NapErrorCode.complete_invalid_event_json

abbrev pub require_some {ℓ} : {A : Type ℓ} → Option A → NapErrorCode → Verdict A
require_some none code = fail (failure code)
require_some (some a) code = ok a

-- The one value of a tag that occurs once.
unfoldable pub get_single_tag : Nip98Event → Text → Verdict Text
get_single_tag event name =
    require_some (single_value (tags_named name event.tags)) (tag_failure name)

-- `if (typeof value !== 'string') return failure(code)`
abbrev pub or_fail {ℓ} : {A : Type ℓ} → Verdict A → NapErrorCode → Verdict A
or_fail (ok a) code = ok a
or_fail (fail e) code = fail (failure code)

unfoldable pub is_created_at_in_window : ℕ → ℕ → ℕ → Bool
is_created_at_in_window created_at now skew =
    not (ltb (created_at + skew) now || ltb (now + skew) created_at)

unfoldable pub is_challenge_bound_created_at : ℕ → ℕ → ℕ → ℕ → ℕ → Bool
is_challenge_bound_created_at created_at issued_at expires_at lower upper =
    not (ltb (created_at + lower) issued_at || ltb (expires_at + upper) created_at)

module _ (platform : Platform) where
  unfoldable pub sha256_hex : List ℕ → Text
  sha256_hex value = bytes_to_hex (platform.sha256 value)

  unfoldable pub parse_nostr_authorization_header : Text → Option Nip98Event
  parse_nostr_authorization_header header = then_some (strip_prefix nostr_scheme header) λ rest.
      let payload = trim rest in
      if is_empty payload
      then none
      else (then_some (decode_base64_bytes payload)
          λ bytes. then_some (platform.json_parse (platform.text_decode bytes)) event_of_json)

  abbrev same_url : Option Text → Option Text → Bool
  same_url (some a) (some b) = a == b
  same_url _ _ = false

  unfoldable pub exact_url_match : Text → Text → Bool
  exact_url_match left right = same_url (platform.url_to_string left) (platform.url_to_string right)

  -- The tags of a verified event against the request.
  unfoldable pub verify_tags :
      VerifyNip98CompletionInput → Nip98Event → Verdict VerifiedNip98Completion
  verify_tags input event = do
    url ← get_single_tag event (text "u")
    require (exact_url_match url input.url) NapErrorCode.complete_url_mismatch
    method ← get_single_tag event (text "method")
    require (method == to_upper_case input.method) NapErrorCode.complete_method_mismatch
    payload ← get_single_tag event (text "payload")
    require (payload == sha256_hex input.raw_body) NapErrorCode.complete_payload_mismatch
    challenge_id ← get_single_tag event (text "challenge_id")
    require (not (is_empty input.body.challenge_id) && (challenge_id == input.body.challenge_id))
        NapErrorCode.complete_missing_challenge_id
    challenge ←
        or_fail (get_single_tag event (text "challenge")) NapErrorCode.complete_challenge_mismatch
    ok (record {
      event = event;
      challenge = challenge;
      challenge_id = challenge_id;
      payload = payload;
    })

  -- The event of the `Authorization` header.
  unfoldable pub read_event : Option Text → Verdict Nip98Event
  read_event authorization = do
    header ← require_some authorization NapErrorCode.complete_missing_auth_header
    require (not (is_empty header)) NapErrorCode.complete_missing_auth_header
    require (is_some (strip_prefix nostr_scheme header)) NapErrorCode.complete_invalid_auth_scheme
    require_some (parse_nostr_authorization_header header) NapErrorCode.complete_invalid_event_json

  -- The event by itself.
  unfoldable pub check_event : VerifyNip98CompletionInput → Nip98Event → Verdict (Unit {0})
  check_event input event = do
    require (eqb event.kind 27235) NapErrorCode.complete_invalid_kind
    require (is_empty event.content) NapErrorCode.complete_invalid_event_json
    require (platform.verify_event event) NapErrorCode.complete_invalid_signature
    require (is_created_at_in_window event.created_at input.now input.max_clock_skew_seconds)
        NapErrorCode.complete_created_at_out_of_range

  unfoldable pub verify_nip98_completion :
      VerifyNip98CompletionInput → Verdict VerifiedNip98Completion
  verify_nip98_completion input = do
    event ← read_event input.authorization
    check_event input event
    verify_tags input event
