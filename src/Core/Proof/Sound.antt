-- ===== src/Core/Proof/Sound.antt =====
-- What `verifyNip98Completion` of validate.ts has established when it accepts a proof.
use nap.Base.{
  ◌+◌, ◌≤◌, ◌≡◌, ◌≢◌, ◌↔◌, refl, true, false, Option, none, some, [], ◌∷◌, arith, is_some,
}
use nap.Text.{Text, text, is_empty, strip_prefix, to_upper_case}
use nap.Core.Types.{Nip98Event, VerifiedNip98Completion, VerifyNip98CompletionInput}
use nap.Core.Errors.{ok}
use nap.Core.Platform.{Platform}
use nap.Core.Proof.{
  get_single_tag, is_created_at_in_window, nostr_scheme, sha256_hex,
  parse_nostr_authorization_header, exact_url_match, read_event, check_event, verify_tags,
  verify_nip98_completion,
}
use nap.Core.Proof.Tags.{IsSingle, get_single_tag-IsSingle, get_single_tag_of_IsSingle}

module _ (platform : Platform) where
  -- The tags bind the proof to this URL, method, body and challenge.
  pub record BindsRequest (input : VerifyNip98CompletionInput) (v : VerifiedNip98Completion)
      : Type 0 where
    pub url : Text
    pub url_tag : IsSingle (text "u") url v.event.tags
    pub canonical : Text
    pub url_left : platform.url_to_string url ≡ some canonical
    pub url_right : platform.url_to_string input.url ≡ some canonical
    pub method_tag : IsSingle (text "method") (to_upper_case input.method) v.event.tags
    pub payload_tag : IsSingle (text "payload") v.payload v.event.tags
    pub payload : v.payload ≡ sha256_hex platform input.raw_body
    pub challenge_id_tag : IsSingle (text "challenge_id") v.challenge_id v.event.tags
    pub challenge_id : v.challenge_id ≡ input.body.challenge_id
    pub challenge_id_given : v.challenge_id ≢ []
    pub challenge_tag : IsSingle (text "challenge") v.challenge v.event.tags

  -- The event is genuine: it came in the header, its kind and content are those of NIP-98, its
  -- signature verifies, and it was made within the clock skew of now.
  pub record IsGenuine (input : VerifyNip98CompletionInput) (event : Nip98Event) : Type 0 where
    pub header : Text
    pub given : input.authorization ≡ some header
    pub parsed : parse_nostr_authorization_header platform header ≡ some event
    pub kind : event.kind ≡ 27235
    pub content : event.content ≡ []
    pub signed : platform.verify_event event ≡ true
    pub not_old : input.now ≤ event.created_at + input.max_clock_skew_seconds
    pub not_early : event.created_at ≤ input.now + input.max_clock_skew_seconds

  exact_url_match-canonical :
      (left right : Text)
      → exact_url_match platform left right ≡ true
      → (canonical : Text) × (platform.url_to_string left ≡ some canonical)
        × (platform.url_to_string right ≡ some canonical)
  unfolding exact_url_match
  exact_url_match-canonical left right h = ground arith

  module _ (input : VerifyNip98CompletionInput) (event : Nip98Event) (v : VerifiedNip98Completion)
      (accepted : verify_tags platform input event ≡ ok v) where
    verify_tags-event : v.event ≡ event
    unfolding verify_tags
    verify_tags-event = ground arith

    verify_tags-url :
        (url : Text) × (get_single_tag event (text "u") ≡ ok url)
        × (exact_url_match platform url input.url ≡ true)
    unfolding verify_tags
    verify_tags-url = ground arith

    verify_tags-method : get_single_tag event (text "method") ≡ ok (to_upper_case input.method)
    unfolding verify_tags
    verify_tags-method = ground arith

    verify_tags-payload :
        (get_single_tag event (text "payload") ≡ ok v.payload)
        × (v.payload ≡ sha256_hex platform input.raw_body)
    unfolding verify_tags
    verify_tags-payload = ground arith

    verify_tags-challenge :
        (get_single_tag event (text "challenge_id") ≡ ok v.challenge_id)
        × (v.challenge_id ≡ input.body.challenge_id)
        × (is_empty v.challenge_id ≡ false)
        × (get_single_tag event (text "challenge") ≡ ok v.challenge)
    unfolding verify_tags
    verify_tags-challenge = ground arith

  verify_tags-BindsRequest :
      (input : VerifyNip98CompletionInput) (event : Nip98Event) (v : VerifiedNip98Completion)
      → verify_tags platform input event ≡ ok v
      → BindsRequest input v
  verify_tags-BindsRequest input event v h =
      let same = verify_tags-event input event v h in
      let (url, has_url, matches) = verify_tags-url input event v h in
      let (canonical, left, right) = exact_url_match-canonical url input.url matches in
      let has_method = verify_tags-method input event v h in
      let (has_payload, payload) = verify_tags-payload input event v h in
      let (has_id, id, given, has_challenge) = verify_tags-challenge input event v h in
      record {
        url = url;
        url_tag = rw same (get_single_tag-IsSingle event _ _ has_url);
        canonical = canonical;
        url_left = left;
        url_right = right;
        method_tag = rw same (get_single_tag-IsSingle event _ _ has_method);
        payload_tag = rw same (get_single_tag-IsSingle event _ _ has_payload);
        payload = payload;
        challenge_id_tag = rw same (get_single_tag-IsSingle event _ _ has_id);
        challenge_id = id;
        challenge_id_given = ground arith;
        challenge_tag = rw same (get_single_tag-IsSingle event _ _ has_challenge);
      }

  read_event-ok :
      (authorization : Option Text) (event : Nip98Event)
      → read_event platform authorization ≡ ok event
      → (header : Text) × (authorization ≡ some header)
        × (parse_nostr_authorization_header platform header ≡ some event)
  unfolding read_event
  read_event-ok none event h = cc
  read_event-ok (some header) event h = (header, refl, ground arith)

  check_event-ok :
      (input : VerifyNip98CompletionInput) (event : Nip98Event) (u : Unit {0})
      → check_event platform input event ≡ ok u
      → (event.kind ≡ 27235)
        × (event.content ≡ [])
        × (platform.verify_event event ≡ true)
        × (input.now ≤ event.created_at + input.max_clock_skew_seconds)
        × (event.created_at ≤ input.now + input.max_clock_skew_seconds)
  unfolding check_event is_created_at_in_window
  check_event-ok input event u h = ground arith

  verify_nip98_completion-steps :
      (input : VerifyNip98CompletionInput) (v : VerifiedNip98Completion)
      → verify_nip98_completion platform input ≡ ok v
      → (event : Nip98Event) × (read_event platform input.authorization ≡ ok event)
        × (check_event platform input event ≡ ok tt)
        × (verify_tags platform input event ≡ ok v)
  unfolding verify_nip98_completion
  verify_nip98_completion-steps input v h = ground arith

  verify-IsGenuine :
      (input : VerifyNip98CompletionInput) (v : VerifiedNip98Completion)
      → verify_nip98_completion platform input ≡ ok v
      → (event : Nip98Event) × IsGenuine input event × (verify_tags platform input event ≡ ok v)
  verify-IsGenuine input v h =
      let (event, read, checked, tags) = verify_nip98_completion-steps input v h in
      let (header, given, parsed) = read_event-ok input.authorization event read in
      let (kind, content, signed, not_old, not_early) = check_event-ok input event tt checked in
      (
        event,
        record {
          header = header;
          given = given;
          parsed = parsed;
          kind = kind;
          content = content;
          signed = signed;
          not_old = not_old;
          not_early = not_early;
        },
        tags,
      )

  pub verify_nip98_completion_sound :
      (input : VerifyNip98CompletionInput) (v : VerifiedNip98Completion)
      → verify_nip98_completion platform input ≡ ok v
      → IsGenuine input v.event × BindsRequest input v
  verify_nip98_completion_sound input v h =
      let (event, genuine, tags) = verify-IsGenuine input v h in
      (
        rw (verify_tags-event input event v tags) genuine,
        verify_tags-BindsRequest input event v tags,
      )

  parse-starts :
      (header : Text) (event : Nip98Event)
      → parse_nostr_authorization_header platform header ≡ some event
      → (is_empty header ≡ false) × (is_some (strip_prefix nostr_scheme header) ≡ true)
  unfolding parse_nostr_authorization_header strip_prefix
  parse-starts [] event h = cc
  parse-starts (c ∷ cs) event h = ground arith

  verify_tags_complete :
      (input : VerifyNip98CompletionInput) (v : VerifiedNip98Completion)
      → BindsRequest input v
      → verify_tags platform input v.event ≡ ok v
  unfolding verify_tags exact_url_match
  verify_tags_complete input v b = ground (
    arith,
    get_single_tag_of_IsSingle v.event (text "u") b.url b.url_tag,
    get_single_tag_of_IsSingle v.event _ _ b.method_tag,
    get_single_tag_of_IsSingle v.event _ _ b.payload_tag,
    get_single_tag_of_IsSingle v.event _ _ b.challenge_id_tag,
    get_single_tag_of_IsSingle v.event _ _ b.challenge_tag,
    b.payload,
    b.challenge_id,
    b.challenge_id_given,
    b.url_left,
    b.url_right,
  )

  pub verify_nip98_completion_complete :
      (input : VerifyNip98CompletionInput) (v : VerifiedNip98Completion)
      → IsGenuine input v.event
      → BindsRequest input v
      → verify_nip98_completion platform input ≡ ok v
  unfolding verify_nip98_completion read_event check_event is_created_at_in_window
  verify_nip98_completion_complete input v g b =
      ground (arith, parse-starts g.header v.event g.parsed, verify_tags_complete input v b)

  -- A completion proof is accepted, with the value `v`, exactly when the event in the header is
  -- genuine and its tags bind it to the request's URL, method, body and challenge.
  pub verify_nip98_completion_iff :
      (input : VerifyNip98CompletionInput) (v : VerifiedNip98Completion)
      → (verify_nip98_completion platform input ≡ ok v)
        ↔ (IsGenuine input v.event × BindsRequest input v)
  verify_nip98_completion_iff input v =
      (verify_nip98_completion_sound input v, λ p. verify_nip98_completion_complete input v p.0 p.1)
