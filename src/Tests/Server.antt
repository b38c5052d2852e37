-- ===== src/Tests/Server.antt =====
-- The theorems on the endpoints, with a toy platform: an encoding and a hash that are the identity,
-- and a JSON parser that knows two texts.
use nap.Base.{
  ◌<◌, ◌⊎◌, ◌≢◌, ◌≤◌, ◌≡◌, ◌↔◌, refl, Bool, true, false, Option, none, some, [], ◌∷◌, arith,
  if◌then◌else◌,
}
use nap.Text.{Text, text, ◌==◌}
use nap.JsMap.{get}
use nap.Core.Types.{
  ChallengeRecord, SessionRecord, AuthInitResponse, AuthCompleteRequest, VerifiedNip98Completion,
}
use nap.Core.Errors.{NapErrorCode, Verdict, ok, fail, failure}
use nap.Core.Json.{Json, num, str, arr, obj, nil, cons, end, field}
use nap.Core.Codec.{encode_base64_bytes, bytes_to_hex}
use nap.Core.Platform.{Platform}
use nap.Core.Proof.{sha256_hex, verify_nip98_completion}
use nap.Core.Proof.Sound.{IsGenuine, BindsRequest, verify_nip98_completion_iff}
use nap.Core.Codec
use nap.Core.Proof
use nap.Server.Request
use nap.Server.Complete
use nap.Server.World
use nap.Server.Challenges
use nap.Server.Stores.{AclResolver, AclResolutionContext}
use nap.Server.Challenges.{InMemoryChallengeStore, in_memory_challenge_store, count_outstanding}
use nap.Server.Sessions.{
  InMemorySessionStore, in_memory_session_store, get_by_refresh_token, rotate_refresh_token,
  revoke_by_session_id, get_by_session_id,
}
use nap.Server.World.{NapServerOptions, World, LimiterOption}
use nap.Server.Complete.{VerifyCompletionInput, VerifyCompletionOutcome, success, verify_completion}
use nap.Server.Complete.Sound.{IsEarned, nip98_input, verify_completion_sound}
use nap.Server.Clamp
use nap.Server.Issue
use nap.Server.Refresh
use nap.Server.Issue.{IssueChallengeInput, issue_challenge, announce, find_exceeded_outstanding_cap}
use nap.Server.Issue.Caps
use nap.Server.Issue.Caps.{
  same_caller, issue_challenge-ok, issue_challenge-cap, issue_challenge-refused,
}
use nap.Server.Refresh.{RefreshSessionInput, refresh_session, rotation_params, resolve_for_refresh}
use nap.Server.Refresh.Reuse.{
  IsRefreshable, refresh_session-replay, rotation_params-lifetime, decide_again,
}
use nap.Server.Refresh.Denied.{refresh_session-denied}
use nap.Server.Acl.Revoking.{IsEnded}
use nap.Server.Refresh.Sound.{IsRenewed, refresh_session_sound}
use nap.Tests.Data.{one_challenge, one_challenge-IsMap, one_session, empty_sessions, alice_session}

abbrev pub allowing : Bool → AclResolver (Unit {0})
allowing allowed = record {
  resolve = λ npub pubkey context u. (
    record {
      allowed = allowed;
      roles = text "member" ∷ [];
      permissions = text "read" ∷ [];
      reason = none;
      revoke_sessions = some true;
      expires_at = none;
    },
    u,
  );
}

abbrev pub body_text : Text
body_text = text "{body}"

abbrev event_text : Text
event_text = text "{event}"

abbrev tag : Text → Text → Json
tag name value = arr (cons (str name) (cons (str value) nil))

abbrev url : Text
url = text "https://nap.example/auth/complete"

abbrev event_json : Json
event_json = obj (
    field (text "id") (str (text "e1")) (
      field (text "pubkey") (str (text "a1")) (
        field (text "created_at") (num 120) (
          field (text "kind") (num 27235) (
            field (text "tags")
              (arr (
                cons (tag (text "u") url) (
                  cons (tag (text "method") (text "POST")) (
                    cons (tag (text "payload") (text "7b626f64797d")) (
                      cons (tag (text "challenge_id") (text "c1"))
                        (cons (tag (text "challenge") (text "x1")) nil))))))
              (field (text "content") (str []) (field (text "sig") (str (text "sig")) end)))))))

abbrev parse : Text → Option Json
parse t =
    if t == body_text
    then some (obj (field (text "challenge_id") (str (text "c1")) end))
    else (if t == event_text then some event_json else none)

abbrev pub platform : Platform
platform = record {
  json_parse = parse;
  text_encode = λ t. t;
  text_decode = λ bytes. bytes;
  url_to_string = λ t. some t;
  sha256 = λ bytes. bytes;
  verify_event = λ event. true;
  nip19_decode = λ npub. some (text "npub", some (text "a1"));
}

abbrev pub options :
    NapServerOptions InMemoryChallengeStore InMemorySessionStore (Unit {0}) (Unit {0})
options = record {
  platform = platform;
  challenge_store = in_memory_challenge_store;
  session_store = in_memory_session_store;
  acl_resolver = allowing true;
  rate_limiter = LimiterOption.disabled;
  random_source = λ draws length. draws ∷ length ∷ [];
  metrics = true;
  challenge_ttl_seconds = none;
  session_ttl_seconds = none;
  result_cache_ttl_seconds = none;
  max_clock_skew_seconds = none;
  lower_bound_grace_seconds = none;
  upper_bound_grace_seconds = none;
  step_up_ttl_seconds = none;
  refresh_ttl_seconds = some 3600;
  max_session_lifetime_seconds = some 7200;
  supported_extensions = none;
  max_outstanding_challenges_per_npub = some 2;
  max_outstanding_challenges_per_ip = none;
  max_failures_per_challenge = none;
  min_auth_response_millis = none;
  response_jitter_millis = none;
}

abbrev pub world :
    InMemorySessionStore → World InMemoryChallengeStore InMemorySessionStore (Unit {0}) (Unit {0})
world sessions = record {
  challenges = one_challenge;
  sessions = sessions;
  acl = tt;
  limiter = tt;
  default_limiter = none;
  sinks = record { audit = []; counters = [] };
  draws = 0;
  now = 130;
  wall_now = 130;
}

abbrev completing : VerifyCompletionInput
completing = record {
  authorization = some (text "Nostr e2V2ZW50fQ==");
  method = text "POST";
  url = url;
  raw_body = body_text;
  client_ip = none;
}

abbrev value_of : Verdict SessionRecord → SessionRecord
value_of (ok r) = r
value_of (fail e) = alice_session

abbrev at_refresh : AclResolutionContext
at_refresh = record { voucher = none; now = 130; session = none }

abbrev after :
    Option (
      Verdict AuthInitResponse
      × World InMemoryChallengeStore InMemorySessionStore (Unit {0}) (Unit {0}))
    → World InMemoryChallengeStore InMemorySessionStore (Unit {0}) (Unit {0})
after none = world empty_sessions
after (some (r, w')) = w'

abbrev given_of : VerifyCompletionOutcome → SessionRecord
given_of (success r) = r
given_of _ = alice_session

verify_completion_sound_example :
    let (outcome, w') = verify_completion options completing (world empty_sessions) in
    IsEarned options completing (world empty_sessions) w' (given_of outcome)
unfolding verify_completion Request.parse_auth_complete_request nap.Text.text_discrete
    Request.request_of_json nap.Core.Json.find_field Complete.complete_body Complete.authenticate
    Complete.limit World.check_rate_limit Complete.verify_proof verify_nip98_completion
    Proof.read_event nap.Text.strip_prefix Proof.parse_nostr_authorization_header nap.Text.trim
    nap.Text.trim_start nap.Text.trim_end nap.Text.is_space Codec.decode_base64_bytes
    Codec.decode_groups Codec.decode_group Codec.has_valid_padding Codec.padding_tail
    Codec.padded_value Codec.index_of Codec.base64_lookup nap.Text.without_spaces
    Proof.event_of_json Proof.check_event Proof.is_created_at_in_window Proof.verify_tags
    Proof.get_single_tag Proof.tags_named Proof.exact_url_match sha256_hex bytes_to_hex
    Codec.hex_digit nap.Text.to_upper_case nap.Text.upper_unit Complete.load_challenge
    Complete.check_challenge Proof.is_challenge_bound_created_at Complete.open_session
    Complete.resolve_acl Complete.redeem_challenge nap.Core.Json.as_texts nap.Core.Json.as_tags
    Challenges.get_challenge get Challenges.redeem Challenges.redeem_record World.count_total
    World.log Complete.create_session_record World.draw
verify_completion_sound_example =
    let (outcome, w') = verify_completion options completing (world empty_sessions) in
    verify_completion_sound options completing (world empty_sessions) w' (given_of outcome) refl

abbrev proof : VerifiedNip98Completion
proof = record {
  event = record {
    id = text "e1";
    pubkey = text "a1";
    created_at = 120;
    kind = 27235;
    tags =
        (text "u" ∷ url ∷ [])
        ∷ (text "method" ∷ text "POST" ∷ [])
        ∷ (text "payload" ∷ text "7b626f64797d" ∷ [])
        ∷ (text "challenge_id" ∷ text "c1" ∷ [])
        ∷ (text "challenge" ∷ text "x1" ∷ [])
        ∷ [];
    content = [];
    sig = text "sig";
  };
  challenge = text "x1";
  challenge_id = text "c1";
  payload = text "7b626f64797d";
}

abbrev asked : AuthCompleteRequest
asked = record { challenge_id = text "c1"; step_up = none; voucher = none }

verify_nip98_completion_iff_example :
    (verify_nip98_completion platform (nip98_input options completing asked 130) ≡ ok proof) ↔ (
      IsGenuine platform (nip98_input options completing asked 130) proof.event
      × BindsRequest platform (nip98_input options completing asked 130) proof)
verify_nip98_completion_iff_example =
    verify_nip98_completion_iff platform (nip98_input options completing asked 130) proof

abbrev issuing : IssueChallengeInput
issuing = record {
  npub = text "npub1alice";
  auth_url = url;
  auth_method = none;
  client_ip = some (text "10.0.0.1");
}

abbrev issued : AuthInitResponse
issued = record {
  challenge_id = Codec.encode_base64_url_bytes (0 ∷ 12 ∷ []);
  challenge = Codec.encode_base64_url_bytes (1 ∷ 32 ∷ []);
  auth_url = url;
  auth_method = text "POST";
  issued_at = 130;
  expires_at = 190;
  supported_extensions = none;
}

abbrev after_issue : World InMemoryChallengeStore InMemorySessionStore (Unit {0}) (Unit {0})
after_issue = after (issue_challenge options issuing (world empty_sessions))

issue_challenge-ok_example :
    (c : ChallengeRecord) × Caps.IsFresh options issuing 0 130 c
    × Caps.IsAnnounced options issued c
    × (options.challenge_store.create c one_challenge ≡ (true, after_issue.challenges))
    × (find_exceeded_outstanding_cap options
          (text "npub1alice")
          (some (text "10.0.0.1"))
          130
          one_challenge
        ≡ none)
unfolding issue_challenge Clamp.resolve_challenge_ttl Issue.admit_caller World.check_rate_limit
    Issue.decode_npub nap.Text.text_discrete find_exceeded_outstanding_cap count_outstanding
    Challenges.count_records World.count_total Issue.keep_challenge Codec.encode_base64_url_bytes
    Issue.make_challenge encode_base64_bytes World.draw
issue_challenge-ok_example =
    issue_challenge-ok options issuing (world empty_sessions) after_issue issued refl

issue_challenge-cap_example : count_outstanding (same_caller issuing 130) after_issue.challenges ≤ 2
unfolding issue_challenge Clamp.resolve_challenge_ttl Issue.admit_caller World.check_rate_limit
    Issue.decode_npub nap.Text.text_discrete find_exceeded_outstanding_cap count_outstanding
    Challenges.count_records World.count_total Issue.keep_challenge Codec.encode_base64_url_bytes
    Issue.make_challenge encode_base64_bytes World.draw get Codec.symbol
issue_challenge-cap_example =
    issue_challenge-cap options issuing (world empty_sessions) after_issue issued 2 refl refl
      (ground arith) one_challenge-IsMap (refl, tt) refl (ground arith) refl

abbrev refreshing : Text → RefreshSessionInput
refreshing token = record { refresh_token = some token; client_ip = none }

refresh_session-replay_example :
    let (r, w') = refresh_session options (refreshing (text "rt1")) (world one_session) in
    (r ≡ fail (failure NapErrorCode.refresh_reused))
    × (w'.sessions ≡ revoke_by_session_id (text "s1") 130 one_session)
unfolding get_by_refresh_token get Refresh.matches_token Clamp.constant_time_equals
    Clamp.equal_bytes Clamp.compare_bytes nap.Text.text_discrete
refresh_session-replay_example =
    refresh_session-replay options (refreshing (text "rt1")) (world one_session)
      get_by_refresh_token rotate_refresh_token (text "rt1") alice_session refl refl refl refl refl
      refl refl refl

refresh_session_sound_example :
    let (r, w') = refresh_session options (refreshing (text "rt2")) (world one_session) in
    IsRenewed options (refreshing (text "rt2")) (world one_session) w' (value_of r)
unfolding refresh_session get_by_refresh_token get Refresh.matches_token Clamp.constant_time_equals
    Clamp.equal_bytes Clamp.compare_bytes nap.Text.text_discrete Refresh.refresh_configured
    Complete.limit World.check_rate_limit Refresh.present Refresh.find_session Refresh.refuse_reuse
    nap.Server.Refresh.check_session resolve_for_refresh Refresh.rotate_session rotation_params
    World.draw World.log rotate_refresh_token Complete.resolve_acl
refresh_session_sound_example =
    let (r, w') = refresh_session options (refreshing (text "rt2")) (world one_session) in
    refresh_session_sound options (refreshing (text "rt2")) (world one_session) w' (value_of r) refl

rotation_params-lifetime_example :
    let p =
      (rotation_params options 3600
        (text "rt2")
        alice_session
        ((allowing true).resolve (text "npub1alice") (text "a1") at_refresh tt).0
        (world one_session)).0 in
    (130 < 7300) × (p.expires_at ≤ 7300) × (p.refresh_expires_at ≤ 7300)
unfolding Refresh.check_session Refresh.matches_token Clamp.constant_time_equals Clamp.equal_bytes
    Clamp.compare_bytes
rotation_params-lifetime_example =
    rotation_params-lifetime options (text "rt2") alice_session (world one_session)
      (world one_session) 7200 3600
      ((allowing true).resolve (text "npub1alice") (text "a1") at_refresh tt).0 refl refl

-- The resolver denies the principal, and sessions end by their expiry alone.
abbrev denying : NapServerOptions InMemoryChallengeStore InMemorySessionStore (Unit {0}) (Unit {0})
denying = record options { acl_resolver = allowing false; max_session_lifetime_seconds = none }

alice-IsRefreshable : IsRefreshable denying (text "rt2") 130 alice_session
unfolding Refresh.matches_token Clamp.constant_time_equals Clamp.equal_bytes Clamp.compare_bytes
alice-IsRefreshable = record {
  held = refl;
  not_replayed = refl;
  not_revoked = refl;
  not_past = ground arith;
}

refresh_session-denied_example :
    let (result, w') = refresh_session denying (refreshing (text "rt2")) (world one_session) in
    (result ≡ fail (failure NapErrorCode.refresh_acl_denied))
    × ((((decide_again denying alice_session (world one_session)).revoke_sessions ≡ some true)
          × IsEnded (text "a1") (get_by_session_id (text "s1") w'.sessions))
        ⊎ (((decide_again denying alice_session (world one_session)).revoke_sessions ≢ some true)
            × (w'.sessions ≡ one_session)))
unfolding get_by_refresh_token get nap.Text.text_discrete
refresh_session-denied_example =
    refresh_session-denied denying (text "rt2") (refreshing (text "rt2")) alice_session
      (world one_session) (text "s1") refl refl refl refl refl refl refl alice-IsRefreshable
      (ground arith) refl
