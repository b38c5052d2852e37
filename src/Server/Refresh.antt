-- ===== src/Server/Refresh.antt =====
-- `refreshSession`, `resolveEffectiveAcl` and the public views of a session of
-- packages/nap-server/src/server.ts, without the padding of a refresh (Server/Clamp.antt).
pub mod Denied
pub mod Reuse
pub mod Sound
use nap.Base.{
  ℕ, ◌+◌, Bool, true, false, not, ◌&&◌, ◌||◌, Option, none, some, List, [], ◌++◌, if◌then◌else◌,
  ltb, leb, min, or_default, truthy_number,
}
use nap.Text.{Text, text, truthy}
use nap.JsMap.{JsMap}
use nap.Core.Types.{SessionRecord, AclDecision}
use nap.Core.Errors.{NapErrorCode, Verdict, ok, fail, failure}
use nap.Core.Platform.{Platform}
use nap.Server.RateLimit.{Scope}
use nap.Server.Stores.{
  SessionStore, AclResolver, RotateRefreshTokenParams, AclResolutionContext, SessionView,
}
use nap.Server.Audit.{AuditCode, Detail, words, Outcome}
use nap.Server.World.{NapServerOptions, World, Action, pure, ◌>>=◌, ◌>>◌, draw, log, log_failure}
use nap.Server.Clamp.{clamp_ttl_to_decision, constant_time_equals}
use nap.Server.Complete.{one, is_true, fail_with, check_that, limit, resolve_acl}

pub record RefreshSessionInput : Type 0 where
  pub refresh_token : Option Text
  pub client_ip : Option Text

-- `constantTimeEquals(held, presented)` where something is held.
unfoldable pub matches_token : Platform → Option Text → Text → Bool
matches_token platform none presented = false
matches_token platform (some held) presented =
    truthy (some held) && constant_time_equals platform held presented

abbrev ceiling_of : Option ℕ → SessionRecord → Option ℕ
ceiling_of none r = none
ceiling_of (some lifetime) r = some (r.issued_at + lifetime)

-- `decisionBound`
abbrev decision_bound : Option ℕ → Option ℕ → Option ℕ
decision_bound none expires_at = expires_at
decision_bound (some ceiling) expires_at = some (min ceiling (or_default expires_at ceiling))

abbrev under : Option ℕ → ℕ → ℕ
under none n = n
under (some ceiling) n = min n ceiling

abbrev of_session : SessionRecord → JsMap Detail
of_session r = one (text "session_id") r.session_id

abbrev with_reason : Option Text → JsMap Detail → JsMap Detail
with_reason none details = details
with_reason (some reason) details = details ++ one (text "reason") reason

abbrev pub is_past : ℕ → Option ℕ → Bool
is_past now none = false
is_past now (some end) = leb end now

abbrev pub view_of : SessionRecord → SessionView
view_of r = record { roles = r.roles; permissions = r.permissions }

-- `if (!wanted || !first || !second) { … }`
abbrev pub choose : {F G X : Type 0} → Bool → Option F → Option G → (F → G → X) → X → X
choose true (some f) (some g) given missing = given f g
choose _ _ _ given missing = missing

module _ {C S A L : Type 0} (options : NapServerOptions C S A L) where
  abbrev log_session : AuditCode → Outcome → SessionRecord → World C S A L → World C S A L
  log_session code outcome r = log options (record {
    code = code;
    outcome = outcome;
    npub = none;
    pubkey = some r.principal_pubkey;
    details = of_session r;
  })

  -- The token that a request presents, where it presents one.
  unfoldable pub present : RefreshSessionInput → Action (World C S A L) Text
  present input = elim (input.refresh_token) [
    | none ↦ fail_with options NapErrorCode.refresh_unknown_token []
    | some token ↦
        if truthy (some token)
        then pure token
        else fail_with options NapErrorCode.refresh_unknown_token []
  ]

  unfoldable pub find_session :
      (Text → S → Option SessionRecord) → Text → Action (World C S A L) SessionRecord
  find_session get_by_refresh_token presented w = elim (get_by_refresh_token presented w.sessions) [
    | none ↦ fail_with options NapErrorCode.refresh_unknown_token [] w
    | some r ↦ (ok r, w)
  ]

  -- A replayed token ends its session.
  unfoldable pub refuse_reuse : Text → SessionRecord → Action (World C S A L) (Unit {0})
  refuse_reuse presented r w =
      if matches_token options.platform r.previous_refresh_token presented
      then (
        fail (failure NapErrorCode.refresh_reused),
        log_session (AuditCode.error NapErrorCode.refresh_reused) Outcome.failure r (record w {
          sessions = options.session_store.revoke_by_session_id r.session_id w.now w.sessions;
        }),
      )
      else (ok tt, w)

  -- The checks on a session that is not replayed.
  unfoldable pub check_session : Text → SessionRecord → Action (World C S A L) (Unit {0})
  check_session presented r w =
      (do
        check_that options (matches_token options.platform r.refresh_token presented)
            NapErrorCode.refresh_unknown_token (of_session r)
        check_that options (not (truthy_number r.revoked_at)) NapErrorCode.refresh_revoked
            (of_session r)
        check_that options
            (truthy_number r.refresh_expires_at && leb w.now (or_default r.refresh_expires_at 0))
            NapErrorCode.refresh_expired (of_session r)
        check_that options (not (is_past w.now (ceiling_of options.max_session_lifetime_seconds r)))
            NapErrorCode.refresh_expired
            (with_reason (some (text "max_session_lifetime")) (of_session r)))
        w

  -- The resolver's answer; an affirmative denial ends every session of the principal.
  unfoldable pub resolve_for_refresh : SessionRecord → Action (World C S A L) AclDecision
  resolve_for_refresh r w =
      let (decision, w1) =
        resolve_acl options r.principal_npub r.principal_pubkey
          (record { voucher = none; now = w.now; session = some (view_of r) }) w in
      if decision.allowed
      then (ok decision, w1)
      else fail_with options NapErrorCode.refresh_acl_denied
          (with_reason decision.reason (of_session r))
          (if is_true decision.revoke_sessions
            then record w1 {
              sessions =
                  (options.session_store.revoke_by_principal r.principal_pubkey w.now
                    w1.sessions).1;
            }
            else w1)

  -- What the rotation is asked for: the new tokens, and times under the ceiling.
  unfoldable pub rotation_params :
      ℕ
      → Text
      → SessionRecord
      → AclDecision
      → World C S A L
      → RotateRefreshTokenParams × World C S A L
  rotation_params refresh_ttl presented r decision w =
      let ceiling = ceiling_of options.max_session_lifetime_seconds r in
      let (access_token, w1) = draw options 32 w in
      let (refresh_token, w2) = draw options 32 w1 in
      (
        record {
          expected_refresh_token = presented;
          access_token = access_token;
          refresh_token = refresh_token;
          now = w.now;
          expires_at =
              clamp_ttl_to_decision (or_default options.session_ttl_seconds 900)
                (decision_bound ceiling decision.expires_at) w.now
              + w.now;
          refresh_expires_at = under ceiling (w.now + refresh_ttl);
          roles = decision.roles;
          permissions = decision.permissions;
        },
        w2,
      )

  unfoldable pub rotate_session :
      (Text → RotateRefreshTokenParams → S → Option SessionRecord × S)
      → ℕ
      → Text
      → SessionRecord
      → AclDecision
      → Action (World C S A L) SessionRecord
  rotate_session rotate_refresh_token refresh_ttl presented r decision w =
      let (params, w1) = rotation_params refresh_ttl presented r decision w in
      let (result, sessions) = rotate_refresh_token r.session_id params w1.sessions in
      let w2 = record w1 { sessions = sessions } in
      elim result [
        | none ↦ fail_with options NapErrorCode.refresh_internal (of_session r) w2
        | some rotated ↦
            (ok rotated, log_session AuditCode.refresh_success Outcome.success rotated w2)
      ]

  -- The part of `refreshSession` after its configuration is found complete.
  unfoldable pub refresh_configured :
      (Text → S → Option SessionRecord)
      → (Text → RotateRefreshTokenParams → S → Option SessionRecord × S)
      → ℕ
      → RefreshSessionInput
      → Action (World C S A L) SessionRecord
  refresh_configured get_by_refresh_token rotate_refresh_token refresh_ttl input = do
    limit options Scope.refresh none input.client_ip NapErrorCode.refresh_rate_limited []
    presented ← present input
    r ← find_session get_by_refresh_token presented
    refuse_reuse presented r
    check_session presented r
    decision ← resolve_for_refresh r
    rotate_session rotate_refresh_token refresh_ttl presented r decision

  abbrev pub not_configured : Action (World C S A L) SessionRecord
  not_configured =
      fail_with options NapErrorCode.refresh_unknown_token
        (one (text "reason") (text "not_configured"))

  -- `refreshSessionUnpadded`
  unfoldable pub refresh_session : RefreshSessionInput → Action (World C S A L) SessionRecord
  refresh_session input =
      choose (truthy_number options.refresh_ttl_seconds) options.session_store.get_by_refresh_token
        options.session_store.rotate_refresh_token
        (λ get_by_refresh_token rotate_refresh_token.
          refresh_configured get_by_refresh_token rotate_refresh_token
            (or_default options.refresh_ttl_seconds 0) input)
        not_configured
