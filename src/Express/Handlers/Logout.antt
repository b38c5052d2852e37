-- ===== src/Express/Handlers/Logout.antt =====
-- A logout of packages/nap-adapter-express/src/adapter.ts ends the session and clears its cookie.
use nap.Base.{◌<◌, ◌≡◌, refl, inl, inr, true, Option, none, some, arith, Option-cases, or_default}
use nap.Text.{Text, text}
use nap.Core.Types.{SessionRecord}
use nap.Server.Sessions.{InMemorySessionStore, in_memory_session_store, get_by_access_token}
use nap.Server.Sessions.Sweep.{IsSound}
use nap.Server.Sessions.Lookup.{get_by_access_token_again, get_by_access_token-revoked}
use nap.Server.World.{World}
use nap.Server.View.{AuthSuccessResponse, to_public_auth_success}
use nap.Express.Http.{Request, Response, Body, CookieOptions, sets, clears, respond, empty}
use nap.Express.Guards.{token_of, load_session}
use nap.Express.Handlers.{
  ExpressOptions, GivenCookieOptions, sent, write_nap_cookie_success, with_secure_defaults,
  cookie_names_agree, cleared_with, without_lifetime, route_guard_options, guard_world,
  logout_handler, answer_success,
}

-- Two sets of attributes name one cookie: the same domain, path and flags. The second has no lifetime.
pub record IsClearingOf (attrs cleared : CookieOptions) : Type 0 where
  pub domain : cleared.domain ≡ attrs.domain
  pub path : cleared.path ≡ attrs.path
  pub same_site : cleared.same_site ≡ attrs.same_site
  pub secure : cleared.secure ≡ attrs.secure
  pub http_only : cleared.http_only ≡ attrs.http_only
  pub ageless : cleared.max_age ≡ none
  pub undated : cleared.expires ≡ none

module _ {C A L : Type 0} (options : ExpressOptions C InMemorySessionStore A L) where
  -- On the in-memory store, the token of a request that has logged out no longer leads to a session.
  pub logout_handler-ends :
      (req : Request) (w : World C InMemorySessionStore A L)
      → options.server.session_store ≡ in_memory_session_store
      → IsSound w.sessions
      → 0 < w.now
      → (load_session
          (route_guard_options options)
          req
          (guard_world options (logout_handler options req w).1)).0
        ≡ none
  unfolding logout_handler load_session
  logout_handler-ends req w e v pos = elim (Option-cases (token_of options.cookie_name req)) [
    | inl absent ↦ ground (arith, absent)
    | inr (token, given) ↦ elim (Option-cases (get_by_access_token token w.sessions).0) [
      | inl unknown ↦ ground (arith, e, given, unknown, get_by_access_token_again token w.sessions)
      | inr (r, found) ↦ ground (
        arith,
        e,
        given,
        found,
        get_by_access_token_again token w.sessions,
        get_by_access_token-revoked token w.now w.sessions r v found,
      )
    ]
  ]

  -- Where a login writes its cookie by `writeNapCookieSuccess`, the cookie names agree and no other
  -- attributes are set, a logout clears the cookie of the same name, with the domain, the path and the
  -- flags that the login wrote it with, and without a lifetime.
  pub logout_handler-clears :
      (req : Request) (w : World C InMemorySessionStore A L) (r : SessionRecord) (name : Text)
      (given : Option GivenCookieOptions) (transform : Option (AuthSuccessResponse → Body))
      → options.write_success ≡ some (write_nap_cookie_success name given transform)
      → cookie_names_agree options ≡ true
      → options.clear_cookie_options ≡ none
      → (attrs cleared : CookieOptions) × (response : Response) × ((answer_success options r).cookie
          ≡ sets name r.access_token attrs)
        × ((logout_handler options req w).0 ≡ sent response)
        × (response.cookie ≡ clears name cleared)
        × IsClearingOf attrs cleared
  unfolding logout_handler answer_success cookie_names_agree cleared_with write_nap_cookie_success
      to_public_auth_success
  logout_handler-clears req w r name given transform e agree c =
      let name_in_use : or_default options.cookie_name (text "session") ≡ name =
        ground (arith, e, agree) in
      let cleared = without_lifetime (with_secure_defaults given) in
      (
        with_secure_defaults given,
        cleared,
        record (respond 204 empty) { cookie = clears name cleared },
        rw (e, answer_success) refl,
        rw (c, e, name_in_use, logout_handler, cleared_with) refl,
        refl,
        record {
          domain = refl;
          path = refl;
          same_site = refl;
          secure = refl;
          http_only = refl;
          ageless = refl;
          undated = refl;
        },
      )
