-- ===== src/Tests/Express.antt =====
-- The theorems on the Express adapter, with the options and the session of the other examples.
use nap.Base.{◌≡◌, refl, true, none, some, [], arith}
use nap.Text.{Text, text}
use nap.Server.Sessions.{InMemorySessionStore, in_memory_session_store}
use nap.Server.Challenges.{InMemoryChallengeStore}
use nap.Express.Http.{Request, Response, CookieOptions, sets, clears}
use nap.Express.Guards.{GuardOptions, GuardWorld, load_session}
use nap.Express.Guards.Refusal.{permission, IsLogged}
use nap.Express.Guards.Logged.{guarded, guarded-IsLogged}
use nap.Express.Handlers
use nap.Express.Handlers.{
  ExpressOptions, sent, write_nap_cookie_success, answer_success, logout_handler, complete_handler,
  route_guard_options, guard_world,
}
use nap.Express.Handlers.Logout.{IsClearingOf, logout_handler-ends, logout_handler-clears}
use nap.Tests.Data.{one_session, alice_session, after_login, after_login-IsSound}
use nap.Tests.Server.{platform, allowing, options, world, body_text}

abbrev guard_options : GuardOptions InMemorySessionStore (Unit {0})
guard_options = record {
  platform = platform;
  session_store = in_memory_session_store;
  cookie_name = none;
  acl_resolver = some (allowing true);
  registry = none;
  audit_logger = true;
  metrics = true;
}

abbrev guarding : GuardWorld InMemorySessionStore (Unit {0})
guarding = record {
  sessions = one_session;
  acl = tt;
  sinks = record { audit = []; counters = [] };
  now = 200;
}

abbrev sample_request : Request
sample_request = record {
  authorization = some (text "Bearer at2");
  cookie = none;
  step_up_token = none;
  method = text "POST";
  npub = none;
  raw_body = some body_text;
  ip = some (text "10.0.0.1");
}

guarded-IsLogged_example :
    IsLogged guard_options
      (permission (text "write"))
      sample_request
      guarding
      []
      (guarded guard_options (permission (text "write")) sample_request guarding).0
      (guarded guard_options (permission (text "write")) sample_request guarding).1.sinks.audit
guarded-IsLogged_example =
    guarded-IsLogged guard_options (permission (text "write")) sample_request guarding refl

abbrev express : ExpressOptions InMemoryChallengeStore InMemorySessionStore (Unit {0}) (Unit {0})
express = record {
  server = options;
  get_external_base_url = some (λ req. some (text "https://nap.example"));
  audience_resolver = none;
  cookie_name = none;
  clear_cookie_options = none;
  get_client_ip = none;
  raw_body_extractor = none;
  write_success = some (write_nap_cookie_success (text "session") none none);
  write_failure = none;
}

logout_handler-ends_example :
    (load_session
      (route_guard_options express)
      sample_request
      (guard_world express (logout_handler express sample_request (world after_login)).1)).0
    ≡ none
logout_handler-ends_example =
    logout_handler-ends express sample_request (world after_login) refl after_login-IsSound
      (ground arith)

logout_handler-clears_example :
    (attrs cleared : CookieOptions) × (response : Response) × ((answer_success express
        alice_session).cookie
      ≡ sets (text "session") (text "at2") attrs)
    × ((logout_handler express sample_request (world one_session)).0 ≡ sent response)
    × (response.cookie ≡ clears (text "session") cleared)
    × IsClearingOf attrs cleared
unfolding Handlers.cookie_names_agree write_nap_cookie_success nap.Text.text_discrete
logout_handler-clears_example =
    logout_handler-clears express sample_request (world one_session) alice_session (text "session")
      none none refl refl refl
