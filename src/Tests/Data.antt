-- ===== src/Tests/Data.antt =====
-- The principals, challenges, sessions and stores that the examples share.
use nap.Base.{refl, none, some, [], ◌∷◌}
use nap.Text.{Text, text}
use nap.JsMap.{get, IsMap}
use nap.Core.Types.{ChallengeState, ChallengeRecord, SessionRecord}
use nap.Server.Stores.{RedeemParams, RotateRefreshTokenParams}
use nap.Server.Challenges.{InMemoryChallengeStore}
use nap.Server.Sessions.{InMemorySessionStore}
use nap.Server.Sessions.Sweep.{IsSound}
use nap.Server.Sessions.Runs.{creates, step, step-IsSound}

abbrev pub first : ChallengeRecord
first = record {
  challenge_id = text "c1";
  challenge = text "x1";
  npub = text "npub1alice";
  pubkey = text "a1";
  auth_url = text "https://nap.example/auth/complete";
  auth_method = text "POST";
  issued_at = 100;
  expires_at = 160;
  state = ChallengeState.issued;
  redeemed_event_id = none;
  redeemed_session_id = none;
  result_cache_until = none;
  client_ip = some (text "10.0.0.1");
  failure_count = none;
}

abbrev pub second : ChallengeRecord
second = record first { challenge_id = text "c2"; challenge = text "x2" }

abbrev pub empty_challenges : InMemoryChallengeStore
empty_challenges = record { clock = 100; records = []; last_swept_at = none }

abbrev pub one_challenge : InMemoryChallengeStore
one_challenge = record { clock = 120; records = (text "c1", first) ∷ []; last_swept_at = some 100 }

pub one_challenge-IsMap : IsMap one_challenge.records
unfolding get nap.Text.text_discrete
one_challenge-IsMap = (refl, tt)

abbrev pub by_event : Text → RedeemParams
by_event id = record { event_id = id; session_id = text "s1"; now = 130; result_cache_until = 160 }

abbrev pub alice_session : SessionRecord
alice_session = record {
  session_id = text "s1";
  challenge_id = text "c1";
  access_token = text "at2";
  principal_npub = text "npub1alice";
  principal_pubkey = text "a1";
  roles = text "member" ∷ [];
  permissions = text "read" ∷ [];
  issued_at = 100;
  expires_at = 1000;
  step_up_token = none;
  step_up_expires_at = none;
  refresh_token = some (text "rt2");
  refresh_expires_at = some 5000;
  previous_refresh_token = some (text "rt1");
  revoked_at = none;
}

abbrev pub empty_sessions : InMemorySessionStore
empty_sessions = record {
  clock = 100;
  objects = λ _. alice_session;
  next = 0;
  sessions_by_challenge_id = [];
  sessions_by_id = [];
  sessions_by_access_token = [];
  sessions_by_refresh_token = [];
  last_swept_at = none;
}

-- After one refresh of the session.
abbrev pub one_session : InMemorySessionStore
one_session = record {
  clock = 200;
  objects = λ _. alice_session;
  next = 1;
  sessions_by_challenge_id = (text "c1", 0) ∷ [];
  sessions_by_id = (text "s1", 0) ∷ [];
  sessions_by_access_token = (text "at2", 0) ∷ [];
  sessions_by_refresh_token = (text "rt1", 0) ∷ (text "rt2", 0) ∷ [];
  last_swept_at = none;
}

abbrev pub next_tokens : RotateRefreshTokenParams
next_tokens = record {
  expected_refresh_token = text "rt2";
  access_token = text "at3";
  refresh_token = text "rt3";
  now = 200;
  expires_at = 1100;
  refresh_expires_at = 5100;
  roles = text "member" ∷ [];
  permissions = text "read" ∷ [];
}

pub empty_sessions-IsSound : IsSound empty_sessions
unfolding get
empty_sessions-IsSound = record {
  is_map = tt;
  coherent = record {
    allocated = λ id ref h. cc;
    by_id = λ id ref h. cc;
    by_challenge_id = λ id ref h. cc;
    by_access_token = λ token ref h. cc;
    by_refresh_token = λ token ref h. cc;
  };
}

-- After the login that creates the session.
abbrev pub after_login : InMemorySessionStore
after_login = step (creates alice_session) empty_sessions

pub after_login-IsSound : IsSound after_login
unfolding get
after_login-IsSound =
    step-IsSound (creates alice_session) empty_sessions refl empty_sessions-IsSound
