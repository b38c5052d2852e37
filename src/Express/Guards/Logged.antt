-- ===== src/Express/Guards/Logged.antt =====
-- Every refusal of a guard of packages/nap-adapter-express/src/adapter.ts is logged, once.
use nap.Base.{
  ◌≡◌, inl, inr, refl, true, not, ◌&&◌, none, some, List, arith, Option-cases, Bool-cases,
}
use nap.Text.{Text, text, includes}
use nap.Server.Audit.{no_session, permission_denied, role_denied, step_up_required}
use nap.Express.Http.{Request, unauthorized, forbidden}
use nap.Express.Guards.{
  GuardOptions, GuardWorld, GuardResult, load_session, load_guard_context, includes_some,
  requires_step_up, has_valid_step_up_token, about_permission, about_roles, require_permission,
  require_role, require_session, require_step_up,
}
use nap.Express.Guards.StepUp.{requires_step_up-IsMarked}
use nap.Express.Guards.Sound.{
  load_session-IsSession, load_session_of_IsSession, load_session-keeps, load_guard_context-keeps,
}
use nap.Express.Guards.Refusal.{
  Guard, permission, role, session, step_up, IsUnknown, IsLogged, unknown, lacks_permission,
  lacks_role, unconfirmed, not_stepped_up, silent, deny_guard-IsLogged, IsLogged-from,
  judged_or_refused, no_HasStepUp,
}

module _ {S A : Type 0} (options : GuardOptions S A) where
  unfoldable pub guarded : Guard → Request → GuardWorld S A → GuardResult × GuardWorld S A
  guarded (permission p) = require_permission options p
  guarded (role accepted) = require_role options accepted
  guarded session = require_session options
  guarded step_up = require_step_up options

  require_session-IsLogged :
      (req : Request) (w : GuardWorld S A)
      → options.audit_logger ≡ true
      → IsLogged options session req w w.sinks.audit
          (require_session options req w).0
          (require_session options req w).1.sinks.audit
  unfolding require_session
  require_session-IsLogged req w h =
      let w' = (load_guard_context options req w).1 in
      IsLogged-from options session req w w'.sinks w.sinks (require_session options req w).0
        (require_session options req w).1.sinks.audit (load_guard_context-keeps options req w).1
        (elim (judged_or_refused options session req w refl) [
          | inl (code, q, why, status, e) ↦
              rw (e, require_session)
                (deny_guard-IsLogged options session req w code q unauthorized none w' why status
                  refl h)
          | inr (r, view, i, e) ↦ rw (e, require_session) silent
        ])

  require_role-IsLogged :
      (accepted : List Text) (req : Request) (w : GuardWorld S A)
      → options.audit_logger ≡ true
      → IsLogged options
          (role accepted)
          req
          w
          w.sinks.audit
          (require_role options accepted req w).0
          (require_role options accepted req w).1.sinks.audit
  unfolding require_role
  require_role-IsLogged accepted req w h =
      let w' = (load_guard_context options req w).1 in
      let about = about_roles accepted in
      IsLogged-from options (role accepted) req w w'.sinks w.sinks
        (require_role options accepted req w).0 (require_role options accepted req w).1.sinks.audit
        (load_guard_context-keeps options req w).1
        (elim (judged_or_refused options (role accepted) req w refl) [
          | inl (code, q, why, status, e) ↦
              rw (e, require_role)
                (deny_guard-IsLogged options (role accepted) req w code q unauthorized about w' why
                  status refl h)
          | inr (r, view, i, e) ↦ elim (Bool-cases (includes_some accepted view.roles)) [
            | inl has ↦ rw (e, has, require_role) silent
            | inr lacks ↦
                rw (e, lacks, require_role)
                  (deny_guard-IsLogged options (role accepted) req w role_denied (some r)
                    (forbidden (text "forbidden")) about w' (lacks_role accepted r view i lacks)
                    refl refl h)
          ]
        ])

  require_step_up-IsLogged :
      (req : Request) (w : GuardWorld S A)
      → options.audit_logger ≡ true
      → IsLogged options step_up req w w.sinks.audit
          (require_step_up options req w).0
          (require_step_up options req w).1.sinks.audit
  unfolding require_step_up IsUnknown
  require_step_up-IsLogged req w h =
      let w' = (load_session options req w).1 in
      let (now, acl, sinks) = load_session-keeps options req w in
      IsLogged-from options step_up req w w'.sinks w.sinks (require_step_up options req w).0
        (require_step_up options req w).1.sinks.audit sinks
        (elim (Option-cases (load_session options req w).0) [
          | inl e ↦
              let no : IsUnknown options req w =
                λ (r, i). ground (arith, e, load_session_of_IsSession options req w r i) in
              rw (e, require_step_up)
                (deny_guard-IsLogged options step_up req w no_session none unauthorized none w'
                  (unknown step_up no) refl refl h)
          | inr (r, e) ↦ elim (Bool-cases (has_valid_step_up_token options req w'.now r)) [
            | inl valid ↦ rw (e, valid, require_step_up) silent
            | inr lacks ↦
                let i = load_session-IsSession options req w r e in
                rw (e, lacks, require_step_up)
                  (deny_guard-IsLogged options step_up req w step_up_required (some r)
                    (forbidden (text "step-up required")) none w'
                    (not_stepped_up r i
                      (no_HasStepUp options req w.now r (ground (arith, lacks, now))))
                    refl refl h)
          ]
        ])

  require_permission-IsLogged :
      (p : Text) (req : Request) (w : GuardWorld S A)
      → options.audit_logger ≡ true
      → IsLogged options
          (permission p)
          req
          w
          w.sinks.audit
          (require_permission options p req w).0
          (require_permission options p req w).1.sinks.audit
  unfolding require_permission
  require_permission-IsLogged p req w h =
      let w' = (load_guard_context options req w).1 in
      let about = about_permission p in
      let (now, sinks) = load_guard_context-keeps options req w in
      IsLogged-from options (permission p) req w w'.sinks w.sinks
        (require_permission options p req w).0 (require_permission options p req w).1.sinks.audit
        sinks
        (elim (judged_or_refused options (permission p) req w refl) [
          | inl (code, q, why, status, e) ↦
              rw (e, require_permission)
                (deny_guard-IsLogged options (permission p) req w code q unauthorized about w' why
                  status refl h)
          | inr (r, view, i, e) ↦ elim (Bool-cases (includes p view.permissions)) [
            | inr lacks ↦
                rw (e, lacks, require_permission)
                  (deny_guard-IsLogged options (permission p) req w permission_denied (some r)
                    (forbidden (text "forbidden")) about w' (lacks_permission p r view i lacks) refl
                    refl h)
            | inl has ↦
                elim (Bool-cases (
                  requires_step_up p options.registry
                  && not (has_valid_step_up_token options req w'.now r))) [
                    | inl lacks ↦
                        let marked =
                          (requires_step_up-IsMarked p options.registry).0
                            (ground (arith, lacks)) in
                        let none_valid =
                          no_HasStepUp options req w.now r (ground (arith, lacks, now)) in
                        rw (e, has, lacks, require_permission)
                          (deny_guard-IsLogged options (permission p) req w step_up_required
                            (some r) (forbidden (text "step-up required")) about w'
                            (unconfirmed p r view i has marked none_valid) refl refl h)
                    | inr holds ↦ rw (e, has, holds, require_permission) silent
                  ]
          ]
        ])

  -- With an audit logger, a guard that lets a request through logs nothing, and one that refuses it
  -- logs one event: a failure of the code that says why, with the principal of the session and the
  -- permission or the roles that the guard asks for. A missing session and a denial by the resolver
  -- are answered 401, all else 403.
  pub guarded-IsLogged :
      (g : Guard) (req : Request) (w : GuardWorld S A)
      → options.audit_logger ≡ true
      → IsLogged options g req w w.sinks.audit (guarded g req w).0 (guarded g req w).1.sinks.audit
  unfolding guarded
  guarded-IsLogged (permission p) req w h = require_permission-IsLogged p req w h
  guarded-IsLogged (role accepted) req w h = require_role-IsLogged accepted req w h
  guarded-IsLogged session req w h = require_session-IsLogged req w h
  guarded-IsLogged step_up req w h = require_step_up-IsLogged req w h
