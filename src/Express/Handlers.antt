-- ===== src/Express/Handlers.antt =====
-- The endpoints of packages/nap-adapter-express/src/adapter.ts, and the checks of their options.
pub mod Uniform
pub mod Logout
use nap.Base.{
  ℕ, Bool, true, false, not, ◌&&◌, ◌||◌, Option, none, some, List, [], ◌∷◌, ◌++◌, if◌then◌else◌,
  or_default, is_some, truthy_number,
}
use nap.Text.{Text, text, ◌==◌}
use nap.Core.Types.{SessionRecord}
use nap.Core.Errors.{NapErrorCode, VerifyCompleteFailure, Verdict, ok, fail}
use nap.Server.Stores.{SessionStore}
use nap.Server.World.{NapServerOptions, World}
use nap.Server.Issue.{issue_challenge}
use nap.Server.Complete.{VerifyCompletionOutcome, verify_completion}
use nap.Server.Complete
use nap.Server.Refresh.{refresh_session}
use nap.Server.View.{AuthSuccessResponse, to_public_auth_success, to_public_session_view}
use nap.Express.Http.{
  Request, Response, Body, challenge, success, session, error, status_ok, empty, CookieOptions,
  CookieChange, sets, clears, respond, unauthorized, rate_limited, normalize_base_url,
  bearer_token_of,
}
use nap.Express.Guards.{GuardOptions, GuardWorld, load_session}

-- `writeSuccess`: what it sends for a body, and the marks that `writeNapCookieSuccess` leaves on it.
pub record WriteSuccess : Type 0 where
  pub write : AuthSuccessResponse → Response
  pub discards_tokens : Bool
  pub cookie_attrs : Option CookieOptions
  pub cookie_name : Option Text

-- A function of the application may throw, which is `none`.
pub record ExpressOptions (C S A L : Type 0) : Type 0 where
  pub server : NapServerOptions C S A L
  pub get_external_base_url : Option (Request → Option Text)
  pub audience_resolver : Option (Request → Option Text)
  pub cookie_name : Option Text
  pub clear_cookie_options : Option CookieOptions
  pub get_client_ip : Option (Request → Option Text)
  pub raw_body_extractor : Option (Request → Option (List ℕ))
  pub write_success : Option WriteSuccess
  pub write_failure : Option (VerifyCompleteFailure → Response)

-- A response, or an error handed to `next`.
pub data Reply : Type 0 where
  sent : Response → Reply
  failed : Reply

-- `attrs` without `maxAge` and `expires`.
abbrev pub without_lifetime : CookieOptions → CookieOptions
without_lifetime attrs = record attrs { max_age = none; expires = none }

-- The `cookieOptions` that a caller hands over: a property is absent, or present and perhaps
-- `undefined`, which is `some none`.
pub record GivenCookieOptions : Type 0 where
  pub http_only : Option (Option Bool)
  pub secure : Option (Option Bool)
  pub same_site : Option (Option Text)
  pub path : Option (Option Text)
  pub domain : Option (Option Text)
  pub max_age : Option (Option ℕ)
  pub expires : Option (Option ℕ)

abbrev secure_cookie_defaults : CookieOptions
secure_cookie_defaults = record {
  http_only = some true;
  secure = some true;
  same_site = some (text "lax");
  path = some (text "/");
  domain = none;
  max_age = none;
  expires = none;
}

-- `{ ...SECURE_COOKIE_DEFAULTS, ...cookieOptions }`: what is present wins, `undefined` too.
unfoldable pub with_secure_defaults : Option GivenCookieOptions → CookieOptions
with_secure_defaults none = secure_cookie_defaults
with_secure_defaults (some o) = record {
  http_only = or_default o.http_only secure_cookie_defaults.http_only;
  secure = or_default o.secure secure_cookie_defaults.secure;
  same_site = or_default o.same_site secure_cookie_defaults.same_site;
  path = or_default o.path secure_cookie_defaults.path;
  domain = or_default o.domain none;
  max_age = or_default o.max_age none;
  expires = or_default o.expires none;
}

-- `{ path: '/' }`
abbrev only_path : CookieOptions
only_path = record {
  http_only = none;
  secure = none;
  same_site = none;
  path = some (text "/");
  domain = none;
  max_age = none;
  expires = none;
}

abbrev transformed : Option (AuthSuccessResponse → Body) → AuthSuccessResponse → Body
transformed none body = status_ok
transformed (some f) body = f body

unfoldable pub write_nap_cookie_success :
    Text → Option GivenCookieOptions → Option (AuthSuccessResponse → Body) → WriteSuccess
write_nap_cookie_success cookie_name cookie_options transform_body =
    let attrs = with_secure_defaults cookie_options in
    record {
      write = λ body. record (respond 200 (transformed transform_body body)) {
        cookie = sets cookie_name body.access_token attrs;
      };
      discards_tokens = not (is_some transform_body);
      cookie_attrs = some attrs;
      cookie_name = some cookie_name;
    }

module _ {C S A L : Type 0} (options : ExpressOptions C S A L) where
  abbrev cookie_in_use : Text
  cookie_in_use = or_default options.cookie_name (text "session")

  -- `assertOneAudienceSource`
  unfoldable pub has_one_audience_source : Bool
  has_one_audience_source =
      (is_some options.get_external_base_url && not (is_some options.audience_resolver))
      || (is_some options.audience_resolver && not (is_some options.get_external_base_url))

  -- `assertCookieNamesAgree`
  unfoldable pub cookie_names_agree : Bool
  cookie_names_agree = elim options.write_success [
    | none ↦ true
    | some writer ↦ elim writer.cookie_name [
      | none ↦ true
      | some written ↦ written == cookie_in_use
    ]
  ]

  abbrev discards : Option WriteSuccess → Bool
  discards none = false
  discards (some writer) = writer.discards_tokens

  -- `assertRefreshIsWirable`
  unfoldable pub refresh_is_wirable : Bool
  refresh_is_wirable =
      truthy_number options.server.refresh_ttl_seconds
      && is_some options.server.session_store.get_by_refresh_token
      && is_some options.server.session_store.rotate_refresh_token
      && not (discards options.write_success)

  unfoldable pub auth_complete_url : Request → Option Text
  auth_complete_url req = elim options.audience_resolver [
    | some resolve ↦ resolve req
    | none ↦ elim options.get_external_base_url [
      | none ↦ none
      | some get ↦ elim (get req) [
        | none ↦ none
        | some base ↦ some (normalize_base_url base ++ text "/auth/complete")
      ]
    ]
  ]

  -- `clientIpOf` and `rawBodyOf`
  abbrev pub client_ip_of : Request → Option Text
  client_ip_of req = elim options.get_client_ip [ none ↦ req.ip | some get ↦ get req ]

  abbrev pub raw_body_of : Request → Option (List ℕ)
  raw_body_of req = elim options.raw_body_extractor [ none ↦ req.raw_body | some get ↦ get req ]

  -- `issueChallengeFailure`
  unfoldable pub issue_failure : VerifyCompleteFailure → Response
  issue_failure e = elim e.code [
    | NapErrorCode.init_rate_limited ↦ rate_limited e.retry_after_seconds
    | NapErrorCode.init_invalid_npub ↦ respond 400 (error (text "bad request"))
    | _ ↦ respond 500 (error (text "internal error"))
  ]

  unfoldable pub init_handler : Request → World C S A L → Reply × World C S A L
  init_handler req w = elim req.npub [
    | none ↦ (sent (respond 400 (error (text "bad request"))), w)
    | some npub ↦ elim (auth_complete_url req) [
      | none ↦ (failed, w)
      | some url ↦
          elim (issue_challenge options.server
            (record {
              npub = npub;
              auth_url = url;
              auth_method = some (text "POST");
              client_ip = client_ip_of req;
            })
            w) [
              | none ↦ (failed, w)
              | some (fail e, w') ↦ (sent (issue_failure e), w')
              | some (ok response, w') ↦ (sent (respond 200 (challenge response)), w')
            ]
    ]
  ]

  -- The answer to a success, of `/auth/complete` and of `/auth/refresh`.
  unfoldable pub answer_success : SessionRecord → Response
  answer_success r =
      let body = to_public_auth_success r in
      elim options.write_success [
        | none ↦ respond 200 (success body)
        | some writer ↦ writer.write body
      ]

  -- The answer to a failure of `/auth/complete`.
  unfoldable pub answer_failure : VerifyCompleteFailure → Response
  answer_failure e = elim e.code [
    | NapErrorCode.complete_rate_limited ↦ rate_limited e.retry_after_seconds
    | _ ↦ elim options.write_failure [ none ↦ unauthorized | some write ↦ write e ]
  ]

  abbrev answer_outcome : VerifyCompletionOutcome → Response
  answer_outcome (Complete.success r) = answer_success r
  answer_outcome (Complete.failed e) = answer_failure e
  answer_outcome Complete.malformed_request = respond 400 (error (text "bad request"))

  unfoldable pub complete_handler : Request → World C S A L → Reply × World C S A L
  complete_handler req w = elim (raw_body_of req) [
    | none ↦ (failed, w)
    | some raw_body ↦ elim (auth_complete_url req) [
      | none ↦ (failed, w)
      | some url ↦
          let (outcome, w') =
            verify_completion options.server
              (record {
                authorization = req.authorization;
                method = req.method;
                url = url;
                raw_body = raw_body;
                client_ip = client_ip_of req;
              })
              w in
          (sent (answer_outcome outcome), w')
    ]
  ]

  -- The answer to a refresh.
  abbrev answer_refresh : Verdict SessionRecord → Response
  answer_refresh (ok r) = answer_success r
  answer_refresh (fail e) = elim e.code [
    | NapErrorCode.refresh_rate_limited ↦ rate_limited e.retry_after_seconds
    | _ ↦ unauthorized
  ]

  unfoldable pub refresh_handler : Request → World C S A L → Reply × World C S A L
  refresh_handler req w =
      let (result, w') =
        refresh_session options.server
          (record { refresh_token = bearer_token_of req; client_ip = client_ip_of req }) w in
      (sent (answer_refresh result), w')

  -- `routeGuardOptions`
  abbrev pub route_guard_options : GuardOptions S A
  route_guard_options = record {
    platform = options.server.platform;
    session_store = options.server.session_store;
    cookie_name = options.cookie_name;
    acl_resolver = none;
    registry = none;
    audit_logger = false;
    metrics = false;
  }

  -- The world of a guard within the server's.
  abbrev pub guard_world : World C S A L → GuardWorld S A
  guard_world w = record { sessions = w.sessions; acl = w.acl; sinks = w.sinks; now = w.now }

  unfoldable pub session_handler : Request → World C S A L → Reply × World C S A L
  session_handler req w =
      let (found, g) = load_session route_guard_options req (guard_world w) in
      (
        sent (elim found [
          | none ↦ unauthorized
          | some r ↦ respond 200 (session (to_public_session_view r))
        ]),
        record w { sessions = g.sessions },
      )

  -- The attributes that the cookie is cleared with.
  unfoldable pub cleared_with : CookieOptions
  cleared_with = elim options.clear_cookie_options [
    | some given ↦ given
    | none ↦ elim options.write_success [
      | none ↦ only_path
      | some writer ↦ elim writer.cookie_attrs [
        | none ↦ only_path
        | some attrs ↦ without_lifetime attrs
      ]
    ]
  ]

  abbrev revoke_found : Option SessionRecord → ℕ → S → S
  revoke_found none now s = s
  revoke_found (some r) now s = options.server.session_store.revoke_by_session_id r.session_id now s

  unfoldable pub logout_handler : Request → World C S A L → Reply × World C S A L
  logout_handler req w =
      let (found, g) = load_session route_guard_options req (guard_world w) in
      let s = revoke_found found w.now g.sessions in
      (
        sent (record (respond 204 empty) { cookie = clears cookie_in_use cleared_with }),
        record w { sessions = s },
      )
