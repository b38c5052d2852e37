-- ===== src/Server/Refresh/Reuse.antt =====
-- What `refreshSession` of packages/nap-server/src/server.ts checks, and what it does when a token is
-- replayed.
use nap.Base.{
  ℕ, ◌+◌, ◌≤◌, ◌<◌, ◌≡◌, true, false, Option, none, some, arith, or_default, truthy_number,
}
use nap.Text.{Text, truthy}
use nap.Core.Types.{SessionRecord, AclDecision}
use nap.Core.Errors.{NapErrorCode, ok, fail, failure}
use nap.Server.Stores.{RotateRefreshTokenParams}
use nap.Server.World.{
  NapServerOptions, LimiterOption, World, draw, log, log_failure, check_rate_limit,
}
use nap.Server.Clamp.{clamp_ttl_to_decision}
use nap.Server.Complete.{limit}
use nap.Server.Refresh.{
  RefreshSessionInput, matches_token, view_of, present, find_session, refuse_reuse, check_session,
  rotation_params, refresh_configured, refresh_session,
}

module _ {C S A L : Type 0} (options : NapServerOptions C S A L) where
  -- With refresh configured and no limiter, where the session that the store finds for the presented
  -- token has it as its previous one, the refresh is refused as a replay and the session is revoked,
  -- whatever else holds of it.
  pub refresh_session-replay :
      (input : RefreshSessionInput) (w : World C S A L)
      (get_by_refresh_token : Text → S → Option SessionRecord)
      (rotate_refresh_token : Text → RotateRefreshTokenParams → S → Option SessionRecord × S)
      (token : Text) (r : SessionRecord)
      → options.rate_limiter ≡ LimiterOption.disabled
      → truthy_number options.refresh_ttl_seconds ≡ true
      → options.session_store.get_by_refresh_token ≡ some get_by_refresh_token
      → options.session_store.rotate_refresh_token ≡ some rotate_refresh_token
      → input.refresh_token ≡ some token
      → get_by_refresh_token token w.sessions ≡ some r
      → matches_token options.platform r.previous_refresh_token token ≡ true
      → truthy (some token) ≡ true
      → ((refresh_session options input w).0 ≡ fail (failure NapErrorCode.refresh_reused))
        × ((refresh_session options input w).1.sessions
            ≡ options.session_store.revoke_by_session_id r.session_id w.now w.sessions)
  unfolding refresh_session refresh_configured limit check_rate_limit present find_session
      refuse_reuse log
  refresh_session-replay input w g rotate token r d c eg er t f m z = (ground arith, ground arith)

  -- The checks that a session passes before its tokens are rotated.
  pub record IsRefreshable (token : Text) (now : ℕ) (r : SessionRecord) : Type 0 where
    pub held : matches_token options.platform r.refresh_token token ≡ true
    pub not_replayed : matches_token options.platform r.previous_refresh_token token ≡ false
    pub not_revoked : truthy_number r.revoked_at ≡ false
    pub not_past : now ≤ or_default r.refresh_expires_at 0

  pub checked-IsRefreshable :
      (token : Text) (r : SessionRecord) (w w1 w2 : World C S A L)
      → refuse_reuse options token r w ≡ (ok tt, w1)
      → check_session options token r w1 ≡ (ok tt, w2)
      → IsRefreshable token w.now r × (w2 ≡ w)
  unfolding refuse_reuse check_session log_failure log
  checked-IsRefreshable token r w w1 w2 h k = (
    record {
      held = ground arith;
      not_replayed = ground arith;
      not_revoked = ground arith;
      not_past = ground arith;
    },
    ground arith,
  )

  -- Under a maximal lifetime, a session that passes the checks has not reached its end, and neither
  -- new expiry passes it, whatever the resolver's decision and the configured lifetimes are.
  pub rotation_params-lifetime :
      (token : Text) (r : SessionRecord) (w w' : World C S A L) (lifetime refresh_ttl : ℕ)
      (decision : AclDecision)
      → options.max_session_lifetime_seconds ≡ some lifetime
      → check_session options token r w ≡ (ok tt, w')
      → let p = (rotation_params options refresh_ttl token r decision w').0 in
        (w.now < r.issued_at + lifetime)
        × (p.expires_at ≤ r.issued_at + lifetime)
        × (p.refresh_expires_at ≤ r.issued_at + lifetime)
  unfolding check_session rotation_params clamp_ttl_to_decision log_failure log draw
  rotation_params-lifetime token r w w' lifetime refresh_ttl decision m h =
      (ground arith, ground arith, ground arith)

  -- The resolver's answer to a refresh, which sees the session and no voucher.
  abbrev pub decide_again : SessionRecord → World C S A L → AclDecision
  decide_again r w =
      (options.acl_resolver.resolve r.principal_npub r.principal_pubkey
        (record { voucher = none; now = w.now; session = some (view_of r) }) w.acl).0
