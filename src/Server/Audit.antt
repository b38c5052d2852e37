-- ===== src/Server/Audit.antt =====
-- packages/nap-server/src/metrics.ts and guard.ts, and the audit types of types.ts: the events that
-- the server logs, and the counters that follow from them. A sink is the list of what it was given;
-- an error that it throws is swallowed where guard.ts and metrics.ts catch it.
use nap.Base.{ℕ, Bool, true, false, Option, none, some, List, [], ◌∷◌, ◌++◌, if◌then◌else◌}
use nap.Text.{Text, text}
use nap.JsMap.{JsMap, get}
use nap.Core.Types.{SessionRecord}
use nap.Core.Errors.{NapErrorCode}

pub data NapCounter : Type 0 where
  auth_init_total auth_complete_total auth_success_total auth_failure_total : NapCounter
  auth_rate_limited_total challenge_redeemed_total challenge_retry_hit_total : NapCounter
  challenge_expired_total audience_mismatch_total payload_mismatch_total : NapCounter

pub data Outcome : Type 0 where
  success failure rate_limited : Outcome

pub data GuardDenialCode : Type 0 where
  no_session acl_denied permission_denied role_denied step_up_required : GuardDenialCode

-- The `code` of an event: an error code, a success of an endpoint, or a denial of a guard.
pub data AuditCode : Type 0 where
  error : NapErrorCode → AuditCode
  complete_success refresh_success : AuditCode
  guard : GuardDenialCode → AuditCode

pub data Detail : Type 0 where
  words : Text → Detail
  number : ℕ → Detail
  flag : Bool → Detail
  names : List Text → Detail

pub record AuditEvent : Type 0 where
  pub code : AuditCode
  pub outcome : Outcome
  pub npub : Option Text
  pub pubkey : Option Text
  pub details : JsMap Detail

abbrev counter_by_outcome : Outcome → NapCounter
counter_by_outcome success = auth_success_total
counter_by_outcome failure = auth_failure_total
counter_by_outcome rate_limited = auth_rate_limited_total

abbrev counter_by_error : NapErrorCode → List NapCounter
counter_by_error NapErrorCode.complete_expired_challenge = challenge_expired_total ∷ []
counter_by_error NapErrorCode.complete_url_mismatch = audience_mismatch_total ∷ []
counter_by_error NapErrorCode.complete_payload_mismatch = payload_mismatch_total ∷ []
counter_by_error _ = []

-- `event.details?.retry === true`
abbrev is_retry : Option Detail → Bool
is_retry (some (flag true)) = true
is_retry _ = false

abbrev counter_by_code : AuditCode → JsMap Detail → List NapCounter
counter_by_code (error code) details = counter_by_error code
counter_by_code complete_success details =
    (if is_retry (get (text "retry") details)
      then challenge_retry_hit_total
      else challenge_redeemed_total)
    ∷ []
counter_by_code refresh_success details = []
counter_by_code (guard code) details = []

-- The increments of the logger that `withMetrics` wraps, in their order.
unfoldable pub counters_of : AuditEvent → List NapCounter
counters_of event = counter_by_outcome event.outcome ∷ counter_by_code event.code event.details

pub record Sinks : Type 0 where
  pub audit : List AuditEvent
  pub counters : List NapCounter

-- The logger of an endpoint; `metrics` says whether a recorder is bound.
unfoldable pub log : Bool → AuditEvent → Sinks → Sinks
log metrics event s = record s {
  audit = s.audit ++ (event ∷ []);
  counters = if metrics then s.counters ++ counters_of event else s.counters;
}

unfoldable pub count_total : Bool → NapCounter → Sinks → Sinks
count_total metrics counter s = record s {
  counters = if metrics then s.counters ++ (counter ∷ []) else s.counters;
}

pub record GuardDenialDetails : Type 0 where
  pub permission : Option Text
  pub roles : Option (List Text)

abbrev detail_if : Text → Option Detail → JsMap Detail
detail_if key none = []
detail_if key (some d) = (key, d) ∷ []

abbrev denial_details : Option GuardDenialDetails → JsMap Detail
denial_details none = []
denial_details (some d) =
    detail_if (text "permission") (elim d.permission [ none ↦ none | some p ↦ some (words p) ])
    ++ detail_if (text "roles") (elim d.roles [ none ↦ none | some rs ↦ some (names rs) ])

abbrev field_of : (SessionRecord → Text) → Option SessionRecord → Option Text
field_of f none = none
field_of f (some r) = some (f r)

-- The event of a denial.
abbrev pub denial_event :
    GuardDenialCode → Option SessionRecord → Option GuardDenialDetails → AuditEvent
denial_event code session details = record {
  code = guard code;
  outcome = failure;
  npub = field_of (λ r. r.principal_npub) session;
  pubkey = field_of (λ r. r.principal_pubkey) session;
  details = denial_details details;
}

-- `logGuardDenial`; without an audit logger nothing is counted either.
unfoldable pub log_guard_denial :
    Bool → Bool → GuardDenialCode → Option SessionRecord → Option GuardDenialDetails → Sinks → Sinks
log_guard_denial audit_logger metrics code session details s =
    if audit_logger then log metrics (denial_event code session details) s else s
