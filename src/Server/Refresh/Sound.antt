-- ===== src/Server/Refresh/Sound.antt =====
-- What `refreshSession` of packages/nap-server/src/server.ts has established when it succeeds.
use nap.Base.{
  ℕ, ◌≡◌, ◌≢◌, refl, ap, subst, ◌∙◌, Bool, true, false, Option, none, some, [], arith, or_default,
  truthy_number,
}
use nap.Text.{Text}
use nap.Core.Types.{SessionRecord, AclDecision}
use nap.Core.Errors.{NapErrorCode, ok}
use nap.Server.RateLimit.{Scope}
use nap.Server.Stores.{RotateRefreshTokenParams}
use nap.Server.World.{NapServerOptions, World, Action, ◌>>=◌, ◌>>◌, bind-ok, draw, log, log_failure}
use nap.Server.Complete.{limit, resolve_acl}
use nap.Server.Complete.Sound.{Keeps, limit-Keeps}
use nap.Server.Refresh.{
  RefreshSessionInput, present, find_session, refuse_reuse, check_session, resolve_for_refresh,
  rotation_params, rotate_session, refresh_configured, refresh_session, choose, not_configured,
}
use nap.Server.Refresh.Reuse.{IsRefreshable, checked-IsRefreshable, decide_again}

choose-given :
    {F G W Y : Type 0} (wanted : Bool) (f : Option F) (g : Option G) (go : F → G → Action W Y)
    (other : Action W Y) (w w' : W) (y : Y)
    → choose wanted f g go other w ≡ (ok y, w')
    → other w ≢ (ok y, w')
    → (a : F) × (b : G) × (f ≡ some a) × (g ≡ some b) × (go a b w ≡ (ok y, w'))
choose-given true (some a) (some b) go other w w' y h n = (a, b, refl, refl, h)
choose-given true none g go other w w' y h n = elim (n h) [ ]
choose-given true (some a) none go other w w' y h n = elim (n h) [ ]
choose-given false f g go other w w' y h n = elim (n h) [ ]

module _ {C S A L : Type 0} (options : NapServerOptions C S A L) where
  resolve_for_refresh-ok :
      (r : SessionRecord) (w w' : World C S A L) (decision : AclDecision)
      → resolve_for_refresh options r w ≡ (ok decision, w')
      → (decision ≡ decide_again options r w)
        × (decision.allowed ≡ true)
        × (w'.sessions ≡ w.sessions)
  unfolding resolve_for_refresh log_failure log resolve_acl
  resolve_for_refresh-ok r w w' decision h = (ground arith, ground arith, ground arith)

  rotate_session-ok :
      (rotate : Text → RotateRefreshTokenParams → S → Option SessionRecord × S) (refresh_ttl : ℕ)
      (token : Text) (r : SessionRecord) (decision : AclDecision) (w w' : World C S A L)
      (given : SessionRecord)
      → rotate_session options rotate refresh_ttl token r decision w ≡ (ok given, w')
      → rotate r.session_id (rotation_params options refresh_ttl token r decision w).0 w.sessions
        ≡ (some given, w'.sessions)
  unfolding rotate_session log rotation_params draw
  rotate_session-ok rotate refresh_ttl token r decision w w' given h = ground arith

  -- What stands behind a session that a refresh returns.
  pub record IsRenewed (input : RefreshSessionInput) (w w' : World C S A L) (given : SessionRecord)
      : Type 0 where
    pub get_by_refresh_token : Text → S → Option SessionRecord
    pub offered : options.session_store.get_by_refresh_token ≡ some get_by_refresh_token
    pub rotate : Text → RotateRefreshTokenParams → S → Option SessionRecord × S
    pub rotated : options.session_store.rotate_refresh_token ≡ some rotate
    pub token : Text
    pub presented : input.refresh_token ≡ some token
    pub session : SessionRecord
    pub found : get_by_refresh_token token w.sessions ≡ some session
    pub refreshable : IsRefreshable options token w.now session
    -- The world at the resolver's call, where the limiter has been asked.
    pub asked : World C S A L
    pub kept : Keeps options w asked
    pub allowed : (decide_again options session asked).allowed ≡ true
    pub params : RotateRefreshTokenParams
    pub expected : params.expected_refresh_token ≡ token
    pub roles : params.roles ≡ (decide_again options session asked).roles
    pub permissions : params.permissions ≡ (decide_again options session asked).permissions
    pub renewed : rotate session.session_id params asked.sessions ≡ (some given, w'.sessions)

  present-ok :
      (input : RefreshSessionInput) (w w' : World C S A L) (token : Text)
      → present options input w ≡ (ok token, w')
      → (input.refresh_token ≡ some token) × (w' ≡ w)
  unfolding present log_failure log
  present-ok input w w' token h = (ground arith, ground arith)

  find_session-ok :
      (get_by_refresh_token : Text → S → Option SessionRecord) (token : Text) (w w' : World C S A L)
      (r : SessionRecord)
      → find_session options get_by_refresh_token token w ≡ (ok r, w')
      → (get_by_refresh_token token w.sessions ≡ some r) × (w' ≡ w)
  unfolding find_session log_failure log
  find_session-ok get_by_refresh_token token w w' r h = (ground arith, ground arith)

  refresh_session-configured :
      (input : RefreshSessionInput) (w w' : World C S A L) (given : SessionRecord)
      → refresh_session options input w ≡ (ok given, w')
      → (g : Text → S → Option SessionRecord) × (rotate : Text
          → RotateRefreshTokenParams
          → S
          → Option SessionRecord × S)
        × (options.session_store.get_by_refresh_token ≡ some g)
        × (options.session_store.rotate_refresh_token ≡ some rotate)
        × (refresh_configured options g rotate (or_default options.refresh_ttl_seconds 0) input w
            ≡ (ok given, w'))
  unfolding refresh_session log_failure log
  refresh_session-configured input w w' given h =
      choose-given (truthy_number options.refresh_ttl_seconds)
        options.session_store.get_by_refresh_token options.session_store.rotate_refresh_token
        (λ g rotate.
          refresh_configured options g rotate (or_default options.refresh_ttl_seconds 0) input)
        (not_configured options) w w' given h (ground arith)

  assemble :
      (input : RefreshSessionInput) (w w1 w2 w3 w4 w5 w6 w' : World C S A L) (given : SessionRecord)
      (g : Text → S → Option SessionRecord)
      → options.session_store.get_by_refresh_token ≡ some g
      → (rotate : Text → RotateRefreshTokenParams → S → Option SessionRecord × S)
      → options.session_store.rotate_refresh_token ≡ some rotate
      → (t : Text) (r : SessionRecord) (d : AclDecision) (ttl : ℕ) → Keeps options w w1
      → present options input w1 ≡ (ok t, w2)
      → find_session options g t w2 ≡ (ok r, w3)
      → refuse_reuse options t r w3 ≡ (ok tt, w4)
      → check_session options t r w4 ≡ (ok tt, w5)
      → resolve_for_refresh options r w5 ≡ (ok d, w6)
      → rotate_session options rotate ttl t r d w6 ≡ (ok given, w')
      → IsRenewed input w w' given
  unfolding rotation_params draw
  assemble input w w1 w2 w3 w4 w5 w6 w' given g eg rotate er t r d ttl kept h2 h3 h4 h5 h6 h7 =
      let (presented, same2) = present-ok input w1 w2 t h2 in
      let (found, same3) = find_session-ok g t w2 w3 r h3 in
      let (refreshable, same5) = checked-IsRefreshable options t r w3 w4 w5 h4 h5 in
      let same = same5 ∙ same3 ∙ same2 in
      let (decided, allowed, sessions) = resolve_for_refresh-ok r w5 w6 d h6 in
      let at_asked = decided ∙ ap (decide_again options r) same in
      record {
        get_by_refresh_token = g;
        offered = eg;
        rotate = rotate;
        rotated = er;
        token = t;
        presented = presented;
        session = r;
        found = subst (λ s. g t s ≡ some r) (ap (λ v. v.sessions) same2 ∙ kept.sessions) found;
        refreshable =
            subst (λ n. IsRefreshable options t n r) (ap (λ v. v.now) (same3 ∙ same2) ∙ kept.now)
              refreshable;
        asked = w1;
        kept = kept;
        allowed = subst (λ e. e.allowed ≡ true) at_asked allowed;
        params = (rotation_params options ttl t r d w6).0;
        expected = refl;
        roles = ap (λ e. e.roles) at_asked;
        permissions = ap (λ e. e.permissions) at_asked;
        renewed =
            subst
              (λ s.
                rotate r.session_id (rotation_params options ttl t r d w6).0 s
                ≡ (some given, w'.sessions))
              (sessions ∙ ap (λ v. v.sessions) same)
              (rotate_session-ok rotate ttl t r d w6 w' given h7);
      }

  -- A refresh that succeeds was made with the session's current token, which no rotation has
  -- replaced; the session is neither revoked nor past its refresh expiry; the resolver allows the
  -- principal now; and the session returned is the store's rotation, under the presented token and
  -- with the roles and permissions of that decision.
  pub refresh_session_sound :
      (input : RefreshSessionInput) (w w' : World C S A L) (given : SessionRecord)
      → refresh_session options input w ≡ (ok given, w')
      → IsRenewed input w w' given
  unfolding refresh_configured
  refresh_session_sound input w w' given h =
      let (g, rotate, eg, er, c) = refresh_session-configured input w w' given h in
      let ttl = or_default options.refresh_ttl_seconds 0 in
      let renew = λ (t : Text) (r : SessionRecord).
        resolve_for_refresh options r >>= rotate_session options rotate ttl t r in
      let check = λ (t : Text) (r : SessionRecord). check_session options t r >> renew t r in
      let judge = λ (t : Text) (r : SessionRecord). refuse_reuse options t r >> check t r in
      let seek = λ (t : Text). find_session options g t >>= judge t in
      let (u, w1, h1, k1) =
        bind-ok
          (limit options Scope.refresh none input.client_ip NapErrorCode.refresh_rate_limited [])
          (λ u. present options input >>= seek) w w' given c in
      let (t, w2, h2, k2) = bind-ok (present options input) seek w1 w' given k1 in
      let (r, w3, h3, k3) = bind-ok (find_session options g t) (judge t) w2 w' given k2 in
      let (u4, w4, h4, k4) = bind-ok (refuse_reuse options t r) (λ u. check t r) w3 w' given k3 in
      let (u5, w5, h5, k5) = bind-ok (check_session options t r) (λ u. renew t r) w4 w' given k4 in
      let (d, w6, h6, k6) =
        bind-ok (resolve_for_refresh options r) (rotate_session options rotate ttl t r) w5 w' given
          k5 in
      let kept =
        limit-Keeps options Scope.refresh none input.client_ip NapErrorCode.refresh_rate_limited []
          w w1 (ok u) h1 in
      assemble input w w1 w2 w3 w4 w5 w6 w' given g eg rotate er t r d ttl kept h2 h3 h4 h5 h6 k6
