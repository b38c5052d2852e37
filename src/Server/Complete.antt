-- ===== src/Server/Complete.antt =====
-- `verifyCompletion` of packages/nap-server/src/server.ts, without its padding (Server/Clamp.antt):
-- `verifyCompletionUnpadded` in the four parts that follow one another in it.
pub mod Sound
use nap.Base.{
  ℕ, ◌+◌, Bool, true, false, not, ◌&&◌, ◌||◌, Option, none, some, List, [], ◌∷◌, if◌then◌else◌, ltb,
  leb, eqb, or_default, truthy_number,
}
use nap.Text.{Text, text, ◌==◌, is_text, truthy}
use nap.JsMap.{JsMap}
use nap.Core.Types.{
  ChallengeState, ChallengeRecord, SessionRecord, AclDecision, AuthCompleteRequest,
  VerifiedNip98Completion, VerifyNip98CompletionInput,
}
use nap.Core.Errors.{NapErrorCode, VerifyCompleteFailure, Verdict, ok, fail, failure}
use nap.Core.Proof.{verify_nip98_completion, is_challenge_bound_created_at}
use nap.Server.RateLimit.{Scope, RateLimitDecision}
use nap.Server.Stores.{RedeemParams, RedeemStatus, AclResolutionContext}
use nap.Server.Challenges.{is_expired}
use nap.Server.Audit.{AuditCode, Detail, words, number, flag, Outcome, auth_complete_total}
use nap.Server.World.{
  NapServerOptions, World, Action, pure, ◌>>=◌, ◌>>◌, draw, log, log_failure, log_rate_limited,
  count_total, check_rate_limit,
}
use nap.Server.Request.{parse_auth_complete_request}
use nap.Server.Clamp.{clamp_ttl_to_decision}

pub record VerifyCompletionInput : Type 0 where
  pub authorization : Option Text
  pub method : Text
  pub url : Text
  pub raw_body : List ℕ
  pub client_ip : Option Text

pub data VerifyCompletionOutcome : Type 0 where
  success : SessionRecord → VerifyCompletionOutcome
  failed : VerifyCompleteFailure → VerifyCompletionOutcome
  malformed_request : VerifyCompletionOutcome

abbrev is_failed_terminal : ChallengeState → Bool
is_failed_terminal ChallengeState.failed_terminal = true
is_failed_terminal _ = false

abbrev pub one : Text → Text → JsMap Detail
one key value = (key, words value) ∷ []

abbrev pub of_challenge : Text → JsMap Detail
of_challenge id = one (text "challenge_id") id

abbrev pub is_true : Option Bool → Bool
is_true (some true) = true
is_true _ = false

abbrev same_text : Option Text → Option Text → Bool
same_text (some a) (some b) = a == b
same_text _ _ = false

-- A token of 32 bytes, if one is wanted.
abbrev pub draw_if :
    {C S A L : Type 0}
    → NapServerOptions C S A L
    → Bool
    → World C S A L
    → Option Text × World C S A L
draw_if options wanted w =
    if wanted then (let (token, w') = draw options 32 w in (some token, w')) else (none, w)

module _ {C S A L : Type 0} (options : NapServerOptions C S A L) where
  -- `await logFailure(auditLogger, code, details); return failure(code);`
  abbrev pub fail_with : {X : Type 0} → NapErrorCode → JsMap Detail → Action (World C S A L) X
  fail_with code details w = (fail (failure code), log_failure options code details w)

  -- `if (!test) { await logFailure(…); return failure(code); }`
  abbrev pub check_that : Bool → NapErrorCode → JsMap Detail → Action (World C S A L) (Unit {0})
  check_that true code details = pure tt
  check_that false code details = fail_with code details

  -- A limited endpoint: the request goes on, or is logged and refused.
  unfoldable pub limit :
      Scope
      → Option Text
      → Option Text
      → NapErrorCode
      → JsMap Detail
      → Action (World C S A L) (Unit {0})
  limit scope pubkey client_ip code details w =
      let (decision, w') =
        check_rate_limit options
          (record { scope = scope; npub = none; pubkey = pubkey; client_ip = client_ip }) w in
      if decision.allowed then (ok tt, w') else (
        fail (record (failure code) { retry_after_seconds = decision.retry_after_seconds }),
        log_rate_limited options code pubkey details w',
      )

  unfoldable pub verify_proof :
      VerifyCompletionInput → AuthCompleteRequest → Action (World C S A L) VerifiedNip98Completion
  verify_proof input body w =
      elim (verify_nip98_completion options.platform (record {
        authorization = input.authorization;
        method = input.method;
        url = input.url;
        body = body;
        raw_body = input.raw_body;
        now = w.now;
        max_clock_skew_seconds = or_default options.max_clock_skew_seconds 60;
      })) [
        | ok proof ↦ (ok proof, w)
        | fail e ↦ (fail e, log_failure options e.code (one (text "url") input.url) w)
      ]

  -- The limits and the proof.
  unfoldable pub authenticate :
      VerifyCompletionInput → AuthCompleteRequest → Action (World C S A L) VerifiedNip98Completion
  authenticate input body = do
    limit Scope.complete none input.client_ip NapErrorCode.complete_rate_limited
        (of_challenge body.challenge_id)
    proof ← verify_proof input body
    limit Scope.complete (some proof.event.pubkey) none NapErrorCode.complete_rate_limited
        (of_challenge body.challenge_id)
    pure proof

  -- `recordChallengeFailure`
  unfoldable pub record_challenge_failure : Text → World C S A L → World C S A L
  record_challenge_failure id w = elim options.challenge_store.record_failure [
    | none ↦ w
    | some record_failure ↦
        let max_failures = or_default options.max_failures_per_challenge 5 in
        if eqb max_failures 0
        then w
        else (let (result, c) = record_failure id w.now max_failures w.challenges in
            let w' = record w { challenges = c } in
            elim result [
              | none ↦ w'
              | some r ↦
                  if is_failed_terminal r.state
                  then log_failure options NapErrorCode.complete_failed_terminal
                      ((text "challenge_id", words id)
                        ∷ (text "failure_count", number r.failure_count)
                        ∷ [])
                      w'
                  else w'
            ])
  ]

  -- A failure that counts against the challenge's budget.
  abbrev pub spend_unless : Bool → NapErrorCode → Text → Action (World C S A L) (Unit {0})
  spend_unless true code id w = (ok tt, w)
  spend_unless false code id w = fail_with code (of_challenge id) (record_challenge_failure id w)

  abbrev pub require_challenge :
      Option ChallengeRecord → Text → Action (World C S A L) ChallengeRecord
  require_challenge none id = fail_with NapErrorCode.complete_unknown_challenge (of_challenge id)
  require_challenge (some c) id = pure c

  -- The checks on a challenge that was found.
  unfoldable pub check_challenge :
      VerifiedNip98Completion → ChallengeRecord → Action (World C S A L) (Unit {0})
  check_challenge proof c w =
      (do
        check_that (not (ltb c.expires_at w.now || is_expired c.state))
            NapErrorCode.complete_expired_challenge (of_challenge c.challenge_id)
        check_that (not (is_failed_terminal c.state)) NapErrorCode.complete_failed_terminal
            (of_challenge c.challenge_id)
        check_that (c.pubkey == proof.event.pubkey) NapErrorCode.complete_principal_mismatch
            (of_challenge c.challenge_id)
        spend_unless (c.challenge == proof.challenge) NapErrorCode.complete_challenge_mismatch
            c.challenge_id
        spend_unless
            (is_challenge_bound_created_at proof.event.created_at c.issued_at c.expires_at
              (or_default options.lower_bound_grace_seconds 30)
              (or_default options.upper_bound_grace_seconds 5))
            NapErrorCode.complete_created_at_out_of_range c.challenge_id)
        w

  unfoldable pub load_challenge : VerifiedNip98Completion → Action (World C S A L) ChallengeRecord
  load_challenge proof w =
      (do
        c ←
            require_challenge (options.challenge_store.get proof.challenge_id w.challenges)
              proof.challenge_id
        check_challenge proof c
        pure c)
        w

  unfoldable pub create_session_record :
      ChallengeRecord → AclDecision → Bool → World C S A L → SessionRecord × World C S A L
  create_session_record c decision step_up w =
      let ttl =
        clamp_ttl_to_decision (or_default options.session_ttl_seconds 900) decision.expires_at
          w.now in
      let (session_id, w1) = draw options 24 w in
      let (access_token, w2) = draw options 32 w1 in
      let (step_up_token, w3) = draw_if options step_up w2 in
      let refreshes = truthy_number options.refresh_ttl_seconds in
      let (refresh_token, w4) = draw_if options refreshes w3 in
      (
        record {
          session_id = session_id;
          challenge_id = c.challenge_id;
          access_token = access_token;
          principal_npub = c.npub;
          principal_pubkey = c.pubkey;
          roles = decision.roles;
          permissions = decision.permissions;
          issued_at = w.now;
          expires_at = w.now + ttl;
          step_up_token = step_up_token;
          step_up_expires_at =
              if step_up then some (w.now + or_default options.step_up_ttl_seconds 600) else none;
          refresh_token = refresh_token;
          refresh_expires_at =
              if refreshes then some (w.now + or_default options.refresh_ttl_seconds 0) else none;
          previous_refresh_token = none;
          revoked_at = none;
        },
        w4,
      )

  -- `aclResolver.resolve(npub, pubkey, context)`
  unfoldable pub resolve_acl :
      Text → Text → AclResolutionContext → World C S A L → AclDecision × World C S A L
  resolve_acl npub pubkey context w =
      let (decision, a) = options.acl_resolver.resolve npub pubkey context w.acl in
      (decision, record w { acl = a })

  -- The resolver's decision and the session that it authorises.
  unfoldable pub open_session :
      ChallengeRecord → AuthCompleteRequest → Action (World C S A L) SessionRecord
  open_session c body w =
      let (decision, w1) =
        resolve_acl c.npub c.pubkey (record { voucher = body.voucher; now = w.now; session = none })
          w in
      if decision.allowed
      then (let (r, w2) = create_session_record c decision (is_true body.step_up) w1 in
          let (session, s) = options.session_store.create_for_challenge r w2.sessions in
          (ok session, record w2 { sessions = s }))
      else fail_with NapErrorCode.complete_acl_denied (of_challenge c.challenge_id) w1

  abbrev pub is_cached : Option Text → ℕ → Option ChallengeRecord → Option Text
  is_cached event_id now none = none
  is_cached event_id now (some c) =
      if same_text c.redeemed_event_id event_id
        && truthy c.redeemed_session_id
        && (not (truthy_number c.result_cache_until) || leb now (or_default c.result_cache_until 0))
      then c.redeemed_session_id
      else none

  abbrev log_success : JsMap Detail → World C S A L → World C S A L
  log_success details = log options (record {
    code = AuditCode.complete_success;
    outcome = Outcome.success;
    npub = none;
    pubkey = none;
    details = details;
  })

  -- A completion of a redeemed challenge: the cached session, for the same event in time.
  unfoldable pub retry_completion :
      ChallengeRecord → VerifiedNip98Completion → Action (World C S A L) SessionRecord
  retry_completion c proof w =
      elim (is_cached (some proof.event.id) w.now
        (options.challenge_store.get c.challenge_id w.challenges)) [
          | none ↦
              fail_with NapErrorCode.complete_redeemed_challenge (of_challenge c.challenge_id) w
          | some id ↦ elim (options.session_store.get_by_session_id id w.sessions) [
            | none ↦
                fail_with NapErrorCode.complete_internal
                  ((text "challenge_id", words c.challenge_id)
                    ∷ (text "reason", words (text "redeemed_session_missing"))
                    ∷ [])
                  w
            | some existing ↦ (
              ok existing,
              log_success
                  ((text "challenge_id", words c.challenge_id)
                    ∷ (text "session_id", words existing.session_id)
                    ∷ (text "retry", flag true)
                    ∷ [])
                  w,
            )
          ]
        ]

  abbrev pub redeem_params : VerifiedNip98Completion → SessionRecord → ℕ → RedeemParams
  redeem_params proof session now = record {
    event_id = proof.event.id;
    session_id = session.session_id;
    now = now;
    result_cache_until = now + or_default options.result_cache_ttl_seconds 30;
  }

  unfoldable pub redeem_challenge :
      ChallengeRecord
      → VerifiedNip98Completion
      → SessionRecord
      → Action (World C S A L) SessionRecord
  redeem_challenge c proof session w =
      let (status, store) =
        options.challenge_store.redeem c.challenge_id (redeem_params proof session w.now)
          w.challenges in
      let w' = record w { challenges = store } in
      elim status [
        | RedeemStatus.redeemed ↦ (
          ok session,
          log_success
              ((text "challenge_id", words c.challenge_id)
                ∷ (text "session_id", words session.session_id)
                ∷ [])
              w',
        )
        | RedeemStatus.expired ↦
            fail_with NapErrorCode.complete_expired_challenge (of_challenge c.challenge_id) w'
        | RedeemStatus.not_found ↦
            fail_with NapErrorCode.complete_unknown_challenge (of_challenge c.challenge_id) w'
        | RedeemStatus.already_redeemed ↦ retry_completion c proof w'
      ]

  unfoldable pub complete_body :
      VerifyCompletionInput → AuthCompleteRequest → Action (World C S A L) SessionRecord
  complete_body input body = do
    proof ← authenticate input body
    c ← load_challenge proof
    session ← open_session c body
    redeem_challenge c proof session

  abbrev outcome_of : Verdict SessionRecord → VerifyCompletionOutcome
  outcome_of (ok session) = success session
  outcome_of (fail e) = failed e

  unfoldable pub verify_completion :
      VerifyCompletionInput → World C S A L → VerifyCompletionOutcome × World C S A L
  verify_completion input w =
      let w1 = count_total options auth_complete_total w in
      elim (parse_auth_complete_request options.platform input.raw_body) [
        | none ↦ (malformed_request, w1)
        | some body ↦ let (r, w2) = complete_body input body w1 in (outcome_of r, w2)
      ]
