-- ===== src/Server/Complete/Sound.antt =====
-- What `verifyCompletion` of packages/nap-server/src/server.ts has established when it succeeds, and
-- what its refusals leave alone.
use nap.Base.{
  ℕ, ◌+◌, ◌≤◌, ◌≡◌, ◌≢◌, ◌⊎◌, sym, ap, subst, ◌∙◌, true, Option, none, some, arith, or_default,
}
use nap.Text.{Text}
use nap.Core.Types.{
  ChallengeState, ChallengeRecord, SessionRecord, AclDecision, AuthCompleteRequest,
  VerifiedNip98Completion, VerifyNip98CompletionInput,
}
use nap.Core.Errors.{NapErrorCode, Verdict, ok}
use nap.Core.Proof.{verify_nip98_completion, is_challenge_bound_created_at}
use nap.Core.Proof.Sound.{IsGenuine, BindsRequest, verify_nip98_completion_sound}
use nap.Server.RateLimit.{Scope}
use nap.Server.Stores.{RedeemStatus}
use nap.JsMap.{JsMap}
use nap.Server.Audit.{Detail, auth_complete_total}
use nap.Server.World.{
  NapServerOptions, World, pure, ◌>>=◌, ◌>>◌, bind-ok, draw, log, log_failure, log_rate_limited,
  count_total, check_rate_limit,
}
use nap.Server.Request.{parse_auth_complete_request}
use nap.Server.Complete.{
  VerifyCompletionInput, success, of_challenge, redeem_params, limit, verify_proof, authenticate,
  check_challenge, load_challenge, create_session_record, resolve_acl, open_session,
  retry_completion, redeem_challenge, complete_body, verify_completion,
}

module _ {C S A L : Type 0} (options : NapServerOptions C S A L) where
  -- The stores, the resolver's state and the time are as they were.
  pub record Keeps (w w' : World C S A L) : Type 0 where
    pub challenges : w'.challenges ≡ w.challenges
    pub sessions : w'.sessions ≡ w.sessions
    pub acl : w'.acl ≡ w.acl
    pub now : w'.now ≡ w.now

  pub limit-Keeps :
      (scope : Scope) (pubkey client_ip : Option Text) (code : NapErrorCode)
      (details : JsMap Detail) (w w' : World C S A L) (r : Verdict (Unit {0}))
      → limit options scope pubkey client_ip code details w ≡ (r, w')
      → Keeps w w'
  unfolding limit check_rate_limit log_rate_limited log
  limit-Keeps scope pubkey client_ip code details w w' r h = record {
    challenges = ground arith;
    sessions = ground arith;
    acl = ground arith;
    now = ground arith;
  }

  abbrev pub nip98_input :
      VerifyCompletionInput → AuthCompleteRequest → ℕ → VerifyNip98CompletionInput
  nip98_input input body now = record {
    authorization = input.authorization;
    method = input.method;
    url = input.url;
    body = body;
    raw_body = input.raw_body;
    now = now;
    max_clock_skew_seconds = or_default options.max_clock_skew_seconds 60;
  }

  verify_proof-ok :
      (input : VerifyCompletionInput) (body : AuthCompleteRequest) (w w' : World C S A L)
      (proof : VerifiedNip98Completion)
      → verify_proof options input body w ≡ (ok proof, w')
      → (verify_nip98_completion options.platform (nip98_input input body w.now) ≡ ok proof)
        × (w' ≡ w)
  unfolding verify_proof
  verify_proof-ok input body w w' proof h = ground arith

  authenticate-ok :
      (input : VerifyCompletionInput) (body : AuthCompleteRequest) (w w' : World C S A L)
      (proof : VerifiedNip98Completion)
      → authenticate options input body w ≡ (ok proof, w')
      → (verify_nip98_completion options.platform (nip98_input input body w.now) ≡ ok proof)
        × Keeps w w'
  unfolding authenticate
  authenticate-ok input body w w' proof h =
      let code = NapErrorCode.complete_rate_limited in
      let details = of_challenge body.challenge_id in
      let second = λ (p : VerifiedNip98Completion).
        limit options Scope.complete (some p.event.pubkey) none code details in
      let tail = λ (p : VerifiedNip98Completion). second p >> pure p in
      let (u1, w1, h1, k1) =
        bind-ok (limit options Scope.complete none input.client_ip code details)
          (λ u. verify_proof options input body >>= tail) w w' proof h in
      let (p, w2, h2, k2) = bind-ok (verify_proof options input body) tail w1 w' proof k1 in
      let (u3, w3, h3, k3) = bind-ok (second p) (λ u. pure p) w2 w' proof k2 in
      let (proved, same) = verify_proof-ok input body w1 w2 p h2 in
      let l1 = limit-Keeps Scope.complete none input.client_ip code details w w1 (ok u1) h1 in
      let l3 =
        limit-Keeps Scope.complete (some p.event.pubkey) none code details w2 w3 (ok u3) h3 in
      (
        ground (arith, proved, k3, l1.now),
        record {
          challenges = ground (arith, same, k3, l1.challenges, l3.challenges);
          sessions = ground (arith, same, k3, l1.sessions, l3.sessions);
          acl = ground (arith, same, k3, l1.acl, l3.acl);
          now = ground (arith, same, k3, l1.now, l3.now);
        },
      )

  -- The checks that a challenge passes before a session is opened for it.
  pub record IsUsable (now : ℕ) (proof : VerifiedNip98Completion) (c : ChallengeRecord)
      : Type 0 where
    pub not_past : now ≤ c.expires_at
    pub not_expired : c.state ≢ ChallengeState.expired
    pub not_terminal : c.state ≢ ChallengeState.failed_terminal
    pub principal : c.pubkey ≡ proof.event.pubkey
    pub challenge : c.challenge ≡ proof.challenge
    pub not_before :
        c.issued_at ≤ proof.event.created_at + or_default options.lower_bound_grace_seconds 30
    pub not_after :
        proof.event.created_at ≤ c.expires_at + or_default options.upper_bound_grace_seconds 5

  check_challenge-ok :
      (proof : VerifiedNip98Completion) (c : ChallengeRecord) (w w' : World C S A L)
      → check_challenge options proof c w ≡ (ok tt, w')
      → IsUsable w.now proof c × (w' ≡ w)
  unfolding check_challenge log_failure log is_challenge_bound_created_at
  check_challenge-ok proof c w w' h = (
    record {
      not_past = ground arith;
      not_expired = ground arith;
      not_terminal = ground arith;
      principal = ground arith;
      challenge = ground arith;
      not_before = ground arith;
      not_after = ground arith;
    },
    ground arith,
  )

  load_challenge-ok :
      (proof : VerifiedNip98Completion) (c : ChallengeRecord) (w w' : World C S A L)
      → load_challenge options proof w ≡ (ok c, w')
      → (options.challenge_store.get proof.challenge_id w.challenges ≡ some c)
        × (check_challenge options proof c w ≡ (ok tt, w'))
  unfolding load_challenge log_failure log
  load_challenge-ok proof c w w' h = ground arith

  -- The resolver's answer at a login.
  abbrev pub decide : ChallengeRecord → AuthCompleteRequest → ℕ → A → AclDecision
  decide c body now a =
      (options.acl_resolver.resolve c.npub c.pubkey
        (record { voucher = body.voucher; now = now; session = none }) a).0

  open_session-ok :
      (c : ChallengeRecord) (body : AuthCompleteRequest) (w w' : World C S A L)
      (session : SessionRecord)
      → open_session options c body w ≡ (ok session, w')
      → ((decide c body w.now w.acl).allowed ≡ true)
        × (w'.now ≡ w.now)
        × (w'.challenges ≡ w.challenges)
  unfolding open_session create_session_record resolve_acl log_failure log draw
  open_session-ok c body w w' session h = ground arith

  -- What `redeem` answers, and the challenges after it.
  abbrev pub redeeming :
      ChallengeRecord → VerifiedNip98Completion → SessionRecord → ℕ → C → RedeemStatus × C
  redeeming c proof session now store =
      options.challenge_store.redeem c.challenge_id (redeem_params options proof session now) store

  -- The challenge has been redeemed for this same event, and the session of then is still held.
  pub record IsRetried (id : Text) (proof : VerifiedNip98Completion) (store : C) (s : S)
      (given : SessionRecord) : Type 0 where
    pub current : ChallengeRecord
    pub found : options.challenge_store.get id store ≡ some current
    pub event : current.redeemed_event_id ≡ some proof.event.id
    pub session_id : Text
    pub session : current.redeemed_session_id ≡ some session_id
    pub held : options.session_store.get_by_session_id session_id s ≡ some given

  -- The two ways to end with a session.
  abbrev pub IsAnswered :
      ChallengeRecord → VerifiedNip98Completion → SessionRecord → ℕ → C → S → SessionRecord → Type 0
  IsAnswered c proof opened now store sessions given =
      let (status, store') = redeeming c proof opened now store in
      ((status ≡ RedeemStatus.redeemed) × (given ≡ opened))
      ⊎ ((status ≡ RedeemStatus.already_redeemed)
          × IsRetried c.challenge_id proof store' sessions given)

  redeem_challenge-ok :
      (c : ChallengeRecord) (proof : VerifiedNip98Completion) (session : SessionRecord)
      (w w' : World C S A L) (given : SessionRecord)
      → redeem_challenge options c proof session w ≡ (ok given, w')
      → IsAnswered c proof session w.now w.challenges w'.sessions given
  unfolding redeem_challenge retry_completion log_failure log
  redeem_challenge-ok c proof session w w' given h = ground arith

  -- What stands behind a session that a completion returns.
  pub record IsEarned (input : VerifyCompletionInput) (w w' : World C S A L) (given : SessionRecord)
      : Type 0 where
    pub body : AuthCompleteRequest
    pub parsed : parse_auth_complete_request options.platform input.raw_body ≡ some body
    pub proof : VerifiedNip98Completion
    pub genuine : IsGenuine options.platform (nip98_input input body w.now) proof.event
    pub bound : BindsRequest options.platform (nip98_input input body w.now) proof
    pub challenge : ChallengeRecord
    pub found : options.challenge_store.get proof.challenge_id w.challenges ≡ some challenge
    pub usable : IsUsable w.now proof challenge
    pub allowed : (decide challenge body w.now w.acl).allowed ≡ true
    pub opened : SessionRecord
    pub answered : IsAnswered challenge proof opened w.now w.challenges w'.sessions given

  complete_body-ok :
      (input : VerifyCompletionInput) (body : AuthCompleteRequest) (w w' : World C S A L)
      (given : SessionRecord)
      → parse_auth_complete_request options.platform input.raw_body ≡ some body
      → complete_body options input body w ≡ (ok given, w')
      → IsEarned input w w' given
  unfolding complete_body
  complete_body-ok input body w w' given b h =
      let from = λ (p : VerifiedNip98Completion) (c : ChallengeRecord).
        open_session options c body >>= redeem_challenge options c p in
      let (p, w1, h1, k1) =
        bind-ok (authenticate options input body) (λ p. load_challenge options p >>= from p) w w'
          given h in
      let (c, w2, h2, k2) = bind-ok (load_challenge options p) (from p) w1 w' given k1 in
      let (o, w3, h3, k3) =
        bind-ok (open_session options c body) (redeem_challenge options c p) w2 w' given k2 in
      let (proved, kept) = authenticate-ok input body w w1 p h1 in
      let (genuine, bound) =
        verify_nip98_completion_sound options.platform (nip98_input input body w.now) p proved in
      let (found, checked) = load_challenge-ok p c w1 w2 h2 in
      let (usable, same) = check_challenge-ok p c w1 w2 checked in
      let (allowed, now, challenges) = open_session-ok c body w2 w3 o h3 in
      let answered = redeem_challenge-ok c p o w3 w' given k3 in
      let now_w = now ∙ ap (λ v. v.now) same ∙ kept.now in
      let challenges_w = challenges ∙ ap (λ v. v.challenges) same ∙ kept.challenges in
      record {
        body = body;
        parsed = b;
        proof = p;
        genuine = genuine;
        bound = bound;
        challenge = c;
        found = rw (sym kept.challenges) found;
        usable = rw (sym kept.now) usable;
        allowed = ground (arith, allowed, same, kept.now, kept.acl);
        opened = o;
        answered =
            subst (λ n. IsAnswered c p o n w.challenges w'.sessions given) now_w
              (subst (λ d. IsAnswered c p o w3.now d w'.sessions given) challenges_w answered);
      }

  completed-body :
      (input : VerifyCompletionInput) (w w' : World C S A L) (given : SessionRecord)
      → verify_completion options input w ≡ (success given, w')
      → (body : AuthCompleteRequest) × (parse_auth_complete_request options.platform input.raw_body
          ≡ some body)
        × (complete_body options input body (count_total options auth_complete_total w)
            ≡ (ok given, w'))
  unfolding verify_completion
  completed-body input w w' given h = ground arith

  -- A completion that succeeds has read a well-formed body; the event in its header is genuine and is
  -- bound to the URL, the method and the body; the challenge it names is held, in time, neither
  -- expired nor failed, made for the event's key, with the text that the event signs, and the event is
  -- as old as the challenge allows; the resolver has allowed the principal; and the session is the one
  -- for which `redeem` has moved the challenge, or that of an earlier redemption by the same event.
  pub verify_completion_sound :
      (input : VerifyCompletionInput) (w w' : World C S A L) (given : SessionRecord)
      → verify_completion options input w ≡ (success given, w')
      → IsEarned input w w' given
  unfolding count_total
  verify_completion_sound input w w' given h =
      let (body, parsed, done) = completed-body input w w' given h in
      let e =
        complete_body-ok input body (count_total options auth_complete_total w) w' given parsed
          done in
      record {
        body = e.body;
        parsed = e.parsed;
        proof = e.proof;
        genuine = e.genuine;
        bound = e.bound;
        challenge = e.challenge;
        found = e.found;
        usable = e.usable;
        allowed = e.allowed;
        opened = e.opened;
        answered = e.answered;
      }
