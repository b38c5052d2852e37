-- ===== src/Express/Guards.antt =====
-- The guards of packages/nap-adapter-express/src/adapter.ts: a request goes on, or is refused and the
-- refusal is logged.
pub mod StepUp
pub mod Sound
pub mod Refusal
pub mod Logged
use nap.Base.{
  ℕ, Bool, true, false, not, ◌&&◌, ◌||◌, Option, none, some, List, [], ◌∷◌, if◌then◌else◌, ltb, leb,
  or_default, truthy_number,
}
use nap.Text.{Text, text, ◌==◌, includes, truthy, trim, strip_prefix}
use nap.Core.Types.{SessionRecord}
use nap.Core.Platform.{Platform}
use nap.Server.Stores.{SessionStore, AclResolver, SessionView}
use nap.Server.Acl.{PermissionDefinition, PermissionRegistry}
use nap.Server.Audit.{
  GuardDenialCode, no_session, acl_denied, permission_denied, role_denied, step_up_required,
  GuardDenialDetails, Sinks, log_guard_denial,
}
use nap.Server.Refresh.{matches_token}
use nap.Server.View.{resolve_effective_acl}
use nap.Express.Http.{Request, Response, unauthorized, forbidden, parse_cookie_value}

pub record GuardOptions (S A : Type 0) : Type 0 where
  pub platform : Platform
  pub session_store : SessionStore S
  pub cookie_name : Option Text
  pub acl_resolver : Option (AclResolver A)
  pub registry : Option PermissionRegistry
  pub audit_logger : Bool
  pub metrics : Bool

-- What a guard works on; the clock reads the same throughout a request.
pub record GuardWorld (S A : Type 0) : Type 0 where
  pub sessions : S
  pub acl : A
  pub sinks : Sinks
  pub now : ℕ

-- `next()`, or a response.
pub data GuardResult : Type 0 where
  passed : GuardResult
  refused : Response → GuardResult

pub data GuardContext : Type 0 where
  judged : SessionRecord → SessionView → GuardContext
  denied : GuardDenialCode → Option SessionRecord → GuardContext

-- `authorization?.startsWith('Bearer ') ? … : null`
abbrev bearer_of : Option Text → Option Text
bearer_of none = none
bearer_of (some header) = elim (strip_prefix (text "Bearer ") header) [
  | none ↦ none
  | some rest ↦ some (trim rest)
]

-- The token of a request: the header's, or else the cookie's.
unfoldable pub token_of : Option Text → Request → Option Text
token_of cookie_name req =
    let cookie = parse_cookie_value req.cookie (or_default cookie_name (text "session")) in
    if truthy (bearer_of req.authorization) then bearer_of req.authorization else cookie

abbrev pub is_current : ℕ → SessionRecord → Bool
is_current now r = not (truthy_number r.revoked_at || leb r.expires_at now)

abbrev keep_current : ℕ → Option SessionRecord → Option SessionRecord
keep_current now none = none
keep_current now (some r) = if is_current now r then some r else none

-- `requiresStepUp`
unfoldable pub marks_step_up : Text → List PermissionDefinition → Bool
marks_step_up permission [] = false
marks_step_up permission (d ∷ ds) =
    (d.key == permission && d.step_up) || marks_step_up permission ds

abbrev pub requires_step_up : Text → Option PermissionRegistry → Bool
requires_step_up permission none = false
requires_step_up permission (some registry) = marks_step_up permission registry.permissions

-- `accepted.some((entry) => roles.includes(entry))`
unfoldable pub includes_some : List Text → List Text → Bool
includes_some [] roles = false
includes_some (r ∷ accepted) roles = includes r roles || includes_some accepted roles

abbrev pub about_permission : Text → Option GuardDenialDetails
about_permission permission = some (record { permission = some permission; roles = none })

abbrev pub about_roles : List Text → Option GuardDenialDetails
about_roles roles = some (record { permission = none; roles = some roles })

module _ {S A : Type 0} (options : GuardOptions S A) where
  -- `loadSession`
  unfoldable pub load_session : Request → GuardWorld S A → Option SessionRecord × GuardWorld S A
  load_session req w = elim (token_of options.cookie_name req) [
    | none ↦ (none, w)
    | some token ↦
        let (found, s) = options.session_store.get_by_access_token token w.sessions in
        if truthy (some token)
        then (keep_current w.now found, record w { sessions = s })
        else (none, w)
  ]

  -- `hasValidStepUpToken`
  unfoldable pub has_valid_step_up_token : Request → ℕ → SessionRecord → Bool
  has_valid_step_up_token req now r = elim (req.step_up_token) [
    | none ↦ false
    | some provided ↦
        truthy (some provided)
        && matches_token options.platform r.step_up_token provided
        && ltb now (or_default r.step_up_expires_at 0)
  ]

  unfoldable pub load_guard_context : Request → GuardWorld S A → GuardContext × GuardWorld S A
  load_guard_context req w =
      let (found, w1) = load_session req w in
      elim found [
        | none ↦ (denied no_session none, w1)
        | some r ↦
            let (acl, (a, s)) =
              resolve_effective_acl options.acl_resolver (some options.session_store) w1.now r
                w1.acl w1.sessions in
            let w2 = record w1 { acl = a; sessions = s } in
            elim acl [ none ↦ (denied acl_denied (some r), w2) | some view ↦ (judged r view, w2) ]
      ]

  -- `denyGuard`
  unfoldable pub deny_guard :
      GuardDenialCode
      → Option SessionRecord
      → Response
      → Option GuardDenialDetails
      → GuardWorld S A
      → GuardResult × GuardWorld S A
  deny_guard code r response details w = (
    refused response,
    record w {
      sinks = log_guard_denial options.audit_logger options.metrics code r details w.sinks;
    },
  )

  unfoldable pub require_permission : Text → Request → GuardWorld S A → GuardResult × GuardWorld S A
  require_permission permission req w =
      let (context, w') = load_guard_context req w in
      let about = about_permission permission in
      elim context [
        | denied code r ↦ deny_guard code r unauthorized about w'
        | judged r acl ↦
            if not (includes permission acl.permissions)
            then deny_guard permission_denied (some r) (forbidden (text "forbidden")) about w'
            else (if requires_step_up permission options.registry
                  && not (has_valid_step_up_token req w'.now r)
                then deny_guard step_up_required (some r) (forbidden (text "step-up required"))
                    about w'
                else (passed, w'))
      ]

  unfoldable pub require_role : List Text → Request → GuardWorld S A → GuardResult × GuardWorld S A
  require_role accepted req w =
      let (context, w') = load_guard_context req w in
      elim context [
        | denied code r ↦ deny_guard code r unauthorized (about_roles accepted) w'
        | judged r acl ↦
            if includes_some accepted acl.roles
            then (passed, w')
            else deny_guard role_denied (some r) (forbidden (text "forbidden"))
                (about_roles accepted) w'
      ]

  unfoldable pub require_step_up : Request → GuardWorld S A → GuardResult × GuardWorld S A
  require_step_up req w =
      let (found, w') = load_session req w in
      elim found [
        | none ↦ deny_guard no_session none unauthorized none w'
        | some r ↦
            if has_valid_step_up_token req w'.now r
            then (passed, w')
            else deny_guard step_up_required (some r) (forbidden (text "step-up required")) none w'
      ]

  unfoldable pub require_session : Request → GuardWorld S A → GuardResult × GuardWorld S A
  require_session req w =
      let (context, w') = load_guard_context req w in
      elim context [
        | denied code r ↦ deny_guard code r unauthorized none w'
        | judged r acl ↦ (passed, w')
      ]
