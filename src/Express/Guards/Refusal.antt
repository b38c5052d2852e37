-- ===== src/Express/Guards/Refusal.antt =====
-- Why a guard of packages/nap-adapter-express/src/adapter.ts refuses a request, and the event of it.
use nap.Base.{
  ℕ, ◌≡◌, ◌⊎◌, inl, inr, refl, Bool, true, false, Option, none, some, List, [], ◌∷◌, ◌++◌, arith,
  Option-cases, subst,
}
use nap.Text.{Text, text, includes}
use nap.JsMap.{JsMap}
use nap.Core.Types.{SessionRecord}
use nap.Server.Stores.{SessionView}
use nap.Server.Audit.{
  GuardDenialCode, no_session, acl_denied, permission_denied, role_denied, step_up_required,
  GuardDenialDetails, AuditEvent, AuditCode, Outcome, Detail, words, names, Sinks, denial_event,
  log_guard_denial, log,
}
use nap.Express.Http.{Request, Response}
use nap.Express.Guards.{
  GuardOptions, GuardWorld, GuardResult, passed, refused, judged, denied, load_session,
  load_guard_context, includes_some, has_valid_step_up_token, deny_guard,
}
use nap.Express.Guards.StepUp.{IsMarked, HasStepUp, has_valid_step_up_token-HasStepUp}
use nap.Express.Guards.Sound.{
  IsSession, IsJudged, judged_by, load_session-IsSession, load_session_of_IsSession,
  load_session-keeps,
}

-- The four guards.
pub data Guard : Type 0 where
  permission : Text → Guard
  role : List Text → Guard
  session step_up : Guard

module _ {S A : Type 0} (options : GuardOptions S A) where
  -- What the event of a guard says beside its code.
  abbrev pub details_of : Guard → JsMap Detail
  details_of (permission p) = (text "permission", words p) ∷ []
  details_of (role accepted) = (text "roles", names accepted) ∷ []
  details_of session = []
  details_of step_up = []

  -- The guard looks at the roles and permissions of a session.
  abbrev pub judges : Guard → Bool
  judges step_up = false
  judges _ = true

  -- The request's token leads to no session.
  unfoldable pub IsUnknown : Request → GuardWorld S A → Type 0
  IsUnknown req w = ¬ ((r : SessionRecord) × IsSession options req w r)

  -- Why a guard refuses a request: by its code, and the session that the request is of.
  pub data IsRefusal (req : Request) (w : GuardWorld S A)
      : Guard → GuardDenialCode → Option SessionRecord → Type 0 where
    unknown : (g : Guard) → IsUnknown req w → IsRefusal req w g no_session none
    no_access :
        (g : Guard) (r : SessionRecord)
        → judges g ≡ true
        → IsSession options req w r
        → judged_by options req w r ≡ none
        → IsRefusal req w g acl_denied (some r)
    lacks_permission :
        (p : Text) (r : SessionRecord) (view : SessionView)
        → IsJudged options req w r view
        → includes p view.permissions ≡ false
        → IsRefusal req w (permission p) permission_denied (some r)
    lacks_role :
        (accepted : List Text) (r : SessionRecord) (view : SessionView)
        → IsJudged options req w r view
        → includes_some accepted view.roles ≡ false
        → IsRefusal req w (role accepted) role_denied (some r)
    unconfirmed :
        (p : Text) (r : SessionRecord) (view : SessionView)
        → IsJudged options req w r view
        → includes p view.permissions ≡ true
        → IsMarked p options.registry
        → ¬ HasStepUp options req w.now r
        → IsRefusal req w (permission p) step_up_required (some r)
    not_stepped_up :
        (r : SessionRecord)
        → IsSession options req w r
        → ¬ HasStepUp options req w.now r
        → IsRefusal req w step_up step_up_required (some r)

  -- An event that names the denial, and the principal of the session if there is one.
  pub record IsEventOf (g : Guard) (code : GuardDenialCode) (r : Option SessionRecord)
      (event : AuditEvent) : Type 0 where
    pub coded : event.code ≡ AuditCode.guard code
    pub failed : event.outcome ≡ Outcome.failure
    pub npub : event.npub ≡ elim r [ none ↦ none | some q ↦ some q.principal_npub ]
    pub pubkey : event.pubkey ≡ elim r [ none ↦ none | some q ↦ some q.principal_pubkey ]
    pub detailed : event.details ≡ details_of g

  abbrev pub status_of : GuardDenialCode → ℕ
  status_of no_session = 401
  status_of acl_denied = 401
  status_of _ = 403

  -- Nothing more is logged for a request that goes on; of one that is refused, there is a reason, and
  -- the event of it.
  pub data IsLogged (g : Guard) (req : Request) (w : GuardWorld S A) (old : List AuditEvent)
      : GuardResult → List AuditEvent → Type 0 where
    silent : IsLogged g req w old passed old
    logged :
        (response : Response) (code : GuardDenialCode) (r : Option SessionRecord)
        (event : AuditEvent)
        → IsRefusal req w g code r
        → response.status ≡ status_of code
        → IsEventOf g code r event
        → IsLogged g req w old (refused response) (old ++ (event ∷ []))

  denial_event-IsEventOf :
      (g : Guard) (code : GuardDenialCode) (r : Option SessionRecord)
      (about : Option GuardDenialDetails)
      → (denial_event code r about).details ≡ details_of g
      → IsEventOf g code r (denial_event code r about)
  denial_event-IsEventOf g code none about h = record {
    coded = refl;
    failed = refl;
    npub = refl;
    pubkey = refl;
    detailed = h;
  }
  denial_event-IsEventOf g code (some q) about h = record {
    coded = refl;
    failed = refl;
    npub = refl;
    pubkey = refl;
    detailed = h;
  }

  pub deny_guard-IsLogged :
      (g : Guard) (req : Request) (w : GuardWorld S A) (code : GuardDenialCode)
      (r : Option SessionRecord) (response : Response) (about : Option GuardDenialDetails)
      (w' : GuardWorld S A)
      → IsRefusal req w g code r
      → response.status ≡ status_of code
      → (denial_event code r about).details ≡ details_of g
      → options.audit_logger ≡ true
      → IsLogged g req w w'.sinks.audit
          (deny_guard options code r response about w').0
          (deny_guard options code r response about w').1.sinks.audit
  unfolding deny_guard log_guard_denial log
  deny_guard-IsLogged g req w code r response about w' why status detailed h =
      let event = denial_event code r about in
      let new : w'.sinks.audit ++ (event ∷ [])
          ≡ (deny_guard options code r response about w').1.sinks.audit =
        ground (arith, h) in
      subst (IsLogged g req w w'.sinks.audit (refused response)) new
        (logged response code r event why status (denial_event-IsEventOf g code r about detailed))

  pub IsLogged-from :
      (g : Guard) (req : Request) (w : GuardWorld S A) (x y : Sinks) (result : GuardResult)
      (new : List AuditEvent)
      → x ≡ y
      → IsLogged g req w x.audit result new
      → IsLogged g req w y.audit result new
  IsLogged-from g req w x y result new e h = subst (λ k. IsLogged g req w k.audit result new) e h

  -- The context of a guard is a reason to refuse the request, or the session that it is judged by.
  pub judged_or_refused :
      (g : Guard) (req : Request) (w : GuardWorld S A)
      → judges g ≡ true
      → ((code : GuardDenialCode) × (r : Option SessionRecord) × IsRefusal req w g code r
          × (401 ≡ status_of code)
          × ((load_guard_context options req w).0 ≡ denied code r))
        ⊎ ((r : SessionRecord) × (view : SessionView) × IsJudged options req w r view
            × ((load_guard_context options req w).0 ≡ judged r view))
  unfolding load_guard_context IsUnknown
  judged_or_refused g req w looks =
      let (now, acl, sinks) = load_session-keeps options req w in
      elim (Option-cases (load_session options req w).0) [
        | inl e ↦
            let no : IsUnknown req w =
              λ (r, i). ground (arith, e, load_session_of_IsSession options req w r i) in
            inl (no_session, none, unknown g no, refl, ground (arith, e))
        | inr (r, e) ↦
            let i = load_session-IsSession options req w r e in
            elim (Option-cases (judged_by options req w r)) [
              | inl d ↦ inl (
                acl_denied,
                some r,
                no_access g r looks i d,
                refl,
                ground (arith, e, d, now, acl),
              )
              | inr (view, d) ↦
                  inr
                    (r, view, record { session = i; judged_so = d }, ground (arith, e, d, now, acl))
            ]
      ]

  -- With no step-up token that is valid now.
  pub no_HasStepUp :
      (req : Request) (now : ℕ) (r : SessionRecord)
      → has_valid_step_up_token options req now r ≡ false
      → ¬ HasStepUp options req now r
  no_HasStepUp req now r h i =
      ground (arith, h, (has_valid_step_up_token-HasStepUp options req now r).1 i)
