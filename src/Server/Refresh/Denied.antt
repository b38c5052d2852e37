-- ===== src/Server/Refresh/Denied.antt =====
-- What a refresh whose principal the resolver denies leaves of the sessions.
use nap.Base.{
  ◌<◌, ◌≡◌, ◌≢◌, ◌⊎◌, inl, inr, true, false, none, some, arith, truthy_number, Bool-cases,
}
use nap.Text.{Text, truthy}
use nap.Core.Types.{SessionRecord}
use nap.Core.Errors.{NapErrorCode, fail, failure}
use nap.Server.World.{NapServerOptions, LimiterOption, World, log, log_failure, check_rate_limit}
use nap.Server.Sessions.{
  InMemorySessionStore, in_memory_session_store, get_by_refresh_token, get_by_session_id,
}
use nap.Server.Sessions.Revocation.{get-revoke_by_principal}
use nap.Server.Acl.Revoking.{IsEnded}
use nap.Server.Complete.{limit, resolve_acl, is_true}
use nap.Server.Refresh.{
  RefreshSessionInput, present, find_session, refuse_reuse, check_session, resolve_for_refresh,
  refresh_configured, refresh_session,
}
use nap.Server.Refresh.Reuse.{IsRefreshable, decide_again}

module _ {C A L : Type 0} (options : NapServerOptions C InMemorySessionStore A L) where
  -- With refresh configured and no limiter, a token that is the current one of a session on the
  -- in-memory store, which has neither ended nor a maximal lifetime, is refused where the resolver
  -- denies the principal now. If the resolver asks for it, every session that the principal holds has
  -- then ended; otherwise the sessions are as they were.
  pub refresh_session-denied :
      (token : Text) (input : RefreshSessionInput) (r : SessionRecord)
      (w : World C InMemorySessionStore A L) (id : Text)
      → options.session_store ≡ in_memory_session_store
      → options.rate_limiter ≡ LimiterOption.disabled
      → truthy_number options.refresh_ttl_seconds ≡ true
      → options.max_session_lifetime_seconds ≡ none
      → input.refresh_token ≡ some token
      → truthy (some token) ≡ true
      → get_by_refresh_token token w.sessions ≡ some r
      → IsRefreshable options token w.now r
      → 0 < w.now
      → (decide_again options r w).allowed ≡ false
      → let (result, w') = refresh_session options input w in
        (result ≡ fail (failure NapErrorCode.refresh_acl_denied))
        × ((((decide_again options r w).revoke_sessions ≡ some true)
              × IsEnded r.principal_pubkey (get_by_session_id id w'.sessions))
            ⊎ (((decide_again options r w).revoke_sessions ≢ some true)
                × (w'.sessions ≡ w.sessions)))
  unfolding refresh_session refresh_configured limit check_rate_limit present find_session
      refuse_reuse check_session resolve_for_refresh log log_failure resolve_acl
  refresh_session-denied token input r w id e l c m t z f i pos d =
      let revoked = get-revoke_by_principal id r.principal_pubkey w.now w.sessions in
      (
        ground (arith, e, l, c, m, t, z, f, i.held, i.not_replayed, i.not_revoked, i.not_past, d),
        elim (Bool-cases (is_true (decide_again options r w).revoke_sessions)) [
          | inl y ↦ inl (
            ground (arith, y),
            ground (
              arith, e, l, c, m, t, z, f, i.held, i.not_replayed, i.not_revoked, i.not_past, d, y,
              revoked,
            ),
          )
          | inr n ↦ inr (
            λ y. ground (arith, n, y),
            ground (
              arith, e, l, c, m, t, z, f, i.held, i.not_replayed, i.not_revoked, i.not_past, d, n,
            ),
          )
        ],
      )
