-- ===== src/Express/Handlers/Uniform.antt =====
-- What a caller learns from the answers of packages/nap-adapter-express/src/adapter.ts.
use nap.Base.{ℕ, ◌≡◌, ◌≢◌, none, some, List, arith}
use nap.Text.{Text}
use nap.Core.Errors.{NapErrorCode, VerifyCompleteFailure, fail}
use nap.Server.World.{World}
use nap.Server.Complete.{VerifyCompletionInput, verify_completion}
use nap.Server.Complete
use nap.Server.Refresh.{refresh_session}
use nap.Express.Http.{Request, unauthorized, bearer_token_of}
use nap.Express.Handlers.{
  ExpressOptions, sent, answer_failure, client_ip_of, raw_body_of, auth_complete_url,
  complete_handler, refresh_handler,
}

module _ {C S A L : Type 0} (options : ExpressOptions C S A L) where
  -- The input that `/auth/complete` gives to `verifyCompletion`.
  abbrev pub completion_of : Request → List ℕ → Text → VerifyCompletionInput
  completion_of req raw_body url = record {
    authorization = req.authorization;
    method = req.method;
    url = url;
    raw_body = raw_body;
    client_ip = client_ip_of options req;
  }

  -- Without a `writeFailure` of its own, a login that fails for any reason but the rate limit is
  -- answered by the same 401, whichever check has failed.
  pub complete_handler-unauthorized :
      (req : Request) (w w' : World C S A L) (raw_body : List ℕ) (url : Text)
      (e : VerifyCompleteFailure)
      → options.write_failure ≡ none
      → raw_body_of options req ≡ some raw_body
      → auth_complete_url options req ≡ some url
      → verify_completion options.server (completion_of req raw_body url) w
        ≡ (Complete.failed e, w')
      → e.code ≢ NapErrorCode.complete_rate_limited
      → complete_handler options req w ≡ (sent unauthorized, w')
  unfolding complete_handler answer_failure
  complete_handler-unauthorized req w w' raw_body url e d b u h n = ground (arith, b, u, h, d, n)

  -- A refresh that fails for any reason but the rate limit is answered by the same 401 as a login.
  pub refresh_handler-unauthorized :
      (req : Request) (w w' : World C S A L) (e : VerifyCompleteFailure)
      → refresh_session options.server
          (record { refresh_token = bearer_token_of req; client_ip = client_ip_of options req })
          w
        ≡ (fail e, w')
      → e.code ≢ NapErrorCode.refresh_rate_limited
      → refresh_handler options req w ≡ (sent unauthorized, w')
  unfolding refresh_handler
  refresh_handler-unauthorized req w w' e h n = ground (arith, h, n)
