-- ===== src/Express/Guards/Sound.antt =====
-- What lets a request through the guards of packages/nap-adapter-express/src/adapter.ts, and that every
-- refusal is logged.
use nap.Base.{
  ◌<◌, ◌≡◌, ◌↔◌, ◌⊎◌, inl, inr, refl, true, false, Option, some, List, arith, Option-cases,
  truthy_number,
}
use nap.Text.{Text, truthy}
use nap.Core.Types.{SessionRecord}
use nap.Server.Stores.{SessionView}
use nap.Server.Audit.{GuardDenialCode}
use nap.Server.View.{resolve_effective_acl}
use nap.Express.Http.{Request}
use nap.Express.Guards.{
  GuardOptions, GuardWorld, passed, GuardContext, judged, denied, token_of, includes_some,
  load_session, load_guard_context, deny_guard, require_role,
}

module _ {S A : Type 0} (options : GuardOptions S A) where
  -- The session of the request's token, neither revoked nor expired.
  pub record IsSession (req : Request) (w : GuardWorld S A) (r : SessionRecord) : Type 0 where
    pub token : Text
    pub presented : token_of options.cookie_name req ≡ some token
    pub given : truthy (some token) ≡ true
    pub found : (options.session_store.get_by_access_token token w.sessions).0 ≡ some r
    pub not_revoked : truthy_number r.revoked_at ≡ false
    pub not_expired : w.now < r.expires_at

  pub load_session-IsSession :
      (req : Request) (w : GuardWorld S A) (r : SessionRecord)
      → (load_session options req w).0 ≡ some r
      → IsSession req w r
  unfolding load_session
  load_session-IsSession req w r h = elim (Option-cases (token_of options.cookie_name req)) [
    | inl e ↦ ground (arith, e)
    | inr (token, e) ↦ record {
      token = token;
      presented = e;
      given = ground (arith, e);
      found = ground (arith, e);
      not_revoked = ground (arith, e);
      not_expired = ground (arith, e);
    }
  ]

  pub load_session_of_IsSession :
      (req : Request) (w : GuardWorld S A) (r : SessionRecord)
      → IsSession req w r
      → (load_session options req w).0 ≡ some r
  unfolding load_session
  load_session_of_IsSession req w r i =
      ground (arith, i.presented, i.given, i.found, i.not_revoked, i.not_expired)

  pub load_session-keeps :
      (req : Request) (w : GuardWorld S A)
      → ((load_session options req w).1.now ≡ w.now)
        × ((load_session options req w).1.acl ≡ w.acl)
        × ((load_session options req w).1.sinks ≡ w.sinks)
  unfolding load_session
  load_session-keeps req w = elim (Option-cases (token_of options.cookie_name req)) [
    | inl e ↦ ground (arith, e)
    | inr (token, e) ↦ ground (arith, e)
  ]

  -- The roles and permissions that the request is judged by: the resolver's now, or the session's.
  abbrev pub judged_by : Request → GuardWorld S A → SessionRecord → Option SessionView
  judged_by req w r =
      let w1 = (load_session options req w).1 in
      (resolve_effective_acl options.acl_resolver (some options.session_store) w.now r w.acl
        w1.sessions).0

  -- The request is that of a session, judged by these roles and permissions.
  pub record IsJudged (req : Request) (w : GuardWorld S A) (r : SessionRecord) (view : SessionView)
      : Type 0 where
    pub session : IsSession req w r
    pub judged_so : judged_by req w r ≡ some view

  pub load_guard_context-IsJudged :
      (req : Request) (w : GuardWorld S A) (r : SessionRecord) (view : SessionView)
      → ((load_guard_context options req w).0 ≡ judged r view) ↔ IsJudged req w r view
  unfolding load_guard_context
  load_guard_context-IsJudged req w r view =
      let (now, acl, sinks) = load_session-keeps req w in
      elim (Option-cases (load_session options req w).0) [
        | inl e ↦ (
          λ h. ground (arith, e),
          λ i. ground (arith, e, load_session_of_IsSession req w r i.session),
        )
        | inr (q, e) ↦ (
          λ h.
              let same : q ≡ r = ground (arith, e) in
              record {
                session = load_session-IsSession req w r (ground (arith, e, same));
                judged_so = ground (arith, e, now, acl, same);
              },
          λ i.
              let own = load_session_of_IsSession req w r i.session in
              ground (arith, e, own, now, acl, i.judged_so),
        )
      ]

  pub load_guard_context-keeps :
      (req : Request) (w : GuardWorld S A)
      → ((load_guard_context options req w).1.now ≡ w.now)
        × ((load_guard_context options req w).1.sinks ≡ w.sinks)
  unfolding load_guard_context
  load_guard_context-keeps req w =
      ground (arith, load_session-keeps req w, Option-cases (load_session options req w).0)

  -- The context that a guard judges by.
  pub context_cases :
      (c : GuardContext)
      → ((code : GuardDenialCode) × (r : Option SessionRecord) × (c ≡ denied code r))
        ⊎ ((r : SessionRecord) × (view : SessionView) × (c ≡ judged r view))
  context_cases (denied code r) = inl (code, r, refl)
  context_cases (judged r view) = inr (r, view, refl)

  -- A request passes `requireRole` exactly when its token leads to a session that is neither revoked
  -- nor expired and one of the accepted roles is among those that the request is judged by.
  pub require_role_iff :
      (accepted : List Text) (req : Request) (w : GuardWorld S A)
      → ((require_role options accepted req w).0 ≡ passed) ↔ (
          (r : SessionRecord) × (view : SessionView) × IsJudged req w r view
          × (includes_some accepted view.roles ≡ true))
  unfolding require_role deny_guard
  require_role_iff accepted req w = elim (context_cases (load_guard_context options req w).0) [
    | inl (code, q, e) ↦ (
      λ h. ground (arith, e),
      λ (r, view, i, has). ground (arith, e, (load_guard_context-IsJudged req w r view).1 i),
    )
    | inr (r, view, e) ↦ (
      λ h. (r, view, (load_guard_context-IsJudged req w r view).0 e, ground (arith, e)),
      λ (q, seen, i, has). ground (arith, e, (load_guard_context-IsJudged req w q seen).1 i),
    )
  ]
