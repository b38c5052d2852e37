-- ===== src/Server/Issue/Caps.antt =====
-- What `issueChallenge` of packages/nap-server/src/server.ts promises: the caps on outstanding
-- challenges, the lifetime of a challenge, and that a refusal stores nothing.
use nap.Core.Codec.{encode_base64_url_bytes}
use nap.Base.{
  ℕ, suc, or_default, none, ◌+◌, ◌≤◌, ◌<◌, ◌≡◌, ◌≢◌, inl, inr, refl, true, Option, some, arith,
  subst,
}
use nap.Text.{Text, text, truthy}
use nap.JsMap.{get, IsMap}
use nap.Core.Types.{ChallengeState, ChallengeRecord, AuthInitResponse}
use nap.Core.Errors.{NapErrorCode, VerifyCompleteFailure, Verdict, ok, fail}
use nap.Server.Stores.{OutstandingChallengeFilter}
use nap.Server.Challenges.{InMemoryChallengeStore, in_memory_challenge_store, count_outstanding}
use nap.Server.Challenges.Retention.{IsConsistent, count_outstanding-create}
use nap.Server.Audit.{auth_init_total}
use nap.Server.World.{
  NapServerOptions, World, Action, ◌>>=◌, bind-ok, bind-fail, draw, log, log_failure,
  log_rate_limited, count_total, check_rate_limit,
}
use nap.Server.Clamp.{resolve_challenge_ttl}
use nap.Server.Issue.{
  IssueChallengeInput, given_ip, find_exceeded_outstanding_cap, admit_caller, make_challenge,
  announce, keep_challenge, decode_npub, issue_challenge,
}

module _ {C S A L : Type 0} (options : NapServerOptions C S A L) where
  -- What follows the checks.
  abbrev finish : IssueChallengeInput → ℕ → Text → Action (World C S A L) AuthInitResponse
  finish input ttl pubkey v =
      let (c, v') = make_challenge options input ttl pubkey v in keep_challenge options input c v'

  admit_caller-ok :
      (input : IssueChallengeInput) (ttl : ℕ) (w w' : World C S A L) (pubkey : Text)
      → admit_caller options input ttl w ≡ (ok pubkey, w')
      → (decode_npub options.platform input.npub ≡ some pubkey)
        × (truthy (some pubkey) ≡ true)
        × (find_exceeded_outstanding_cap options input.npub input.client_ip w.now w.challenges
            ≡ none)
        × (w'.challenges ≡ w.challenges)
        × (w'.now ≡ w.now)
        × (w'.draws ≡ w.draws)
  unfolding admit_caller check_rate_limit log_rate_limited log_failure log
  admit_caller-ok input ttl w w' pubkey h = ground arith

  admit_caller-fail :
      (input : IssueChallengeInput) (ttl : ℕ) (w w' : World C S A L) (e : VerifyCompleteFailure)
      → admit_caller options input ttl w ≡ (fail e, w')
      → (w'.challenges ≡ w.challenges) × (e.code ≢ NapErrorCode.init_internal)
  unfolding admit_caller check_rate_limit log_rate_limited log_failure log
  admit_caller-fail input ttl w w' e h = (ground arith, ground arith)

  -- The text of so many random bytes, of the next draw after so many.
  abbrev pub drawn : ℕ → ℕ → Text
  drawn draws length = encode_base64_url_bytes (options.random_source draws length)

  -- The record of an issued challenge: under an identifier of 12 random bytes and with a text of the 32
  -- that are drawn next, for the key of the npub, neither redeemed nor failed, from now on and for a
  -- minute at most.
  pub record IsFresh (input : IssueChallengeInput) (draws now : ℕ) (c : ChallengeRecord)
      : Type 0 where
    pub challenge_id : c.challenge_id ≡ drawn draws 12
    pub challenge : c.challenge ≡ drawn (suc draws) 32
    pub auth_method : c.auth_method ≡ or_default input.auth_method (text "POST")
    pub not_redeemed : c.redeemed_event_id ≡ none
    pub not_failed : c.failure_count ≡ none
    pub not_empty : truthy (some c.pubkey) ≡ true
    pub npub : c.npub ≡ input.npub
    pub pubkey : decode_npub options.platform input.npub ≡ some c.pubkey
    pub auth_url : c.auth_url ≡ input.auth_url
    pub client_ip : c.client_ip ≡ given_ip input.client_ip
    pub state : c.state ≡ ChallengeState.issued
    pub issued : c.issued_at ≡ now
    pub later : now < c.expires_at
    pub bounded : c.expires_at ≤ now + 60

  -- The answer says of the challenge what is stored of it.
  pub record IsAnnounced (response : AuthInitResponse) (c : ChallengeRecord) : Type 0 where
    pub challenge_id : response.challenge_id ≡ c.challenge_id
    pub challenge : response.challenge ≡ c.challenge
    pub auth_url : response.auth_url ≡ c.auth_url
    pub auth_method : response.auth_method ≡ c.auth_method
    pub issued_at : response.issued_at ≡ c.issued_at
    pub expires_at : response.expires_at ≡ c.expires_at

  announce-IsAnnounced :
      (response : AuthInitResponse) (c : ChallengeRecord)
      → response ≡ announce options c
      → IsAnnounced response c
  announce-IsAnnounced response c h = record {
    challenge_id = ground (arith, h);
    challenge = ground (arith, h);
    auth_url = ground (arith, h);
    auth_method = ground (arith, h);
    issued_at = ground (arith, h);
    expires_at = ground (arith, h);
  }

  resolve_challenge_ttl-bounds :
      (given : Option ℕ) (ttl : ℕ) → resolve_challenge_ttl given ≡ some ttl → (0 < ttl) × (ttl ≤ 60)
  unfolding resolve_challenge_ttl
  resolve_challenge_ttl-bounds given ttl h = (ground arith, ground arith)

  issue_challenge-steps :
      (input : IssueChallengeInput) (w w' : World C S A L) (r : Verdict AuthInitResponse)
      → issue_challenge options input w ≡ some (r, w')
      → (ttl : ℕ) × (resolve_challenge_ttl options.challenge_ttl_seconds ≡ some ttl)
        × ((admit_caller options input ttl >>= finish input ttl)
              (count_total options auth_init_total w)
            ≡ (r, w'))
  unfolding issue_challenge
  issue_challenge-steps input w w' r h = ground arith

  finish-ok :
      (input : IssueChallengeInput) (ttl : ℕ) (pubkey : Text) (w w' : World C S A L)
      (response : AuthInitResponse)
      → decode_npub options.platform input.npub ≡ some pubkey
      → truthy (some pubkey) ≡ true
      → 0 < ttl
      → ttl ≤ 60
      → finish input ttl pubkey w ≡ (ok response, w')
      → (c : ChallengeRecord) × IsFresh input w.draws w.now c
        × IsAnnounced response c
        × (options.challenge_store.create c w.challenges ≡ (true, w'.challenges))
  unfolding make_challenge keep_challenge log_failure log draw
  finish-ok input ttl pubkey w w' response d q z b h =
      let c = (make_challenge options input ttl pubkey w).0 in
      (
        c,
        record {
          challenge_id = refl;
          challenge = refl;
          auth_method = refl;
          not_redeemed = refl;
          not_failed = refl;
          not_empty = q;
          npub = refl;
          pubkey = d;
          auth_url = refl;
          client_ip = refl;
          state = refl;
          issued = refl;
          later = ground arith;
          bounded = ground arith;
        },
        announce-IsAnnounced response c (ground arith),
        ground arith,
      )

  finish-fail :
      (input : IssueChallengeInput) (ttl : ℕ) (pubkey : Text) (w w' : World C S A L)
      (e : VerifyCompleteFailure)
      → finish input ttl pubkey w ≡ (fail e, w')
      → e.code ≡ NapErrorCode.init_internal
  unfolding make_challenge keep_challenge log_failure log draw
  finish-fail input ttl pubkey w w' e h = ground arith

  -- A challenge that is issued is stored once, where no cap was reached and the store has taken it: with
  -- an identifier and a text of two draws of random bytes, for the key of the npub, from now on and for a
  -- minute at most; and it is announced with the identifier, text, URL, method and times that are stored.
  pub issue_challenge-ok :
      (input : IssueChallengeInput) (w w' : World C S A L) (response : AuthInitResponse)
      → issue_challenge options input w ≡ some (ok response, w')
      → (c : ChallengeRecord) × IsFresh input w.draws w.now c
        × IsAnnounced response c
        × (options.challenge_store.create c w.challenges ≡ (true, w'.challenges))
        × (find_exceeded_outstanding_cap options input.npub input.client_ip w.now w.challenges
            ≡ none)
  unfolding count_total
  issue_challenge-ok input w w' response h =
      let (ttl, t, e) = issue_challenge-steps input w w' (ok response) h in
      let v = count_total options auth_init_total w in
      let (pubkey, w1, h1, k1) =
        bind-ok (admit_caller options input ttl) (finish input ttl) v w' response e in
      let (decoded, given, free, same, now, draws) = admit_caller-ok input ttl v w1 pubkey h1 in
      let (positive, bounded) = resolve_challenge_ttl-bounds options.challenge_ttl_seconds ttl t in
      let (c, fresh, told, stored) =
        finish-ok input ttl pubkey w1 w' response decoded given positive bounded k1 in
      (
        c,
        subst (λ n. IsFresh input n w.now c) draws
            (subst (λ n. IsFresh input w1.draws n c) now fresh),
        told,
        subst (λ d. options.challenge_store.create c d ≡ (true, w'.challenges)) same stored,
        free,
      )

  -- A refusal, but for an error of the store, leaves the challenges as they were.
  pub issue_challenge-refused :
      (input : IssueChallengeInput) (w w' : World C S A L) (e : VerifyCompleteFailure)
      → issue_challenge options input w ≡ some (fail e, w')
      → e.code ≢ NapErrorCode.init_internal
      → w'.challenges ≡ w.challenges
  unfolding count_total
  issue_challenge-refused input w w' e h n =
      let (ttl, t, s) = issue_challenge-steps input w w' (fail e) h in
      let v = count_total options auth_init_total w in
      elim (bind-fail (admit_caller options input ttl) (finish input ttl) v w' e s) [
        | inl now ↦ (admit_caller-fail input ttl v w' e now).0
        | inr (pubkey, w1, h1, k1) ↦ ground (arith, n, finish-fail input ttl pubkey w1 w' e k1)
      ]

abbrev pub same_caller : IssueChallengeInput → ℕ → OutstandingChallengeFilter
same_caller input now = record {
  npub = some input.npub;
  client_ip = given_ip input.client_ip;
  now = now;
}

module _ {S A L : Type 0} (options : NapServerOptions InMemoryChallengeStore S A L) where
  below_cap :
      (input : IssueChallengeInput) (now cap : ℕ) (c : InMemoryChallengeStore)
      → options.challenge_store ≡ in_memory_challenge_store
      → options.max_outstanding_challenges_per_npub ≡ some cap
      → 0 < cap
      → find_exceeded_outstanding_cap options input.npub input.client_ip now c ≡ none
      → count_outstanding (same_caller input now) c < cap
  unfolding find_exceeded_outstanding_cap
  below_cap input now cap c e m z h = ground arith

  -- On the in-memory store, after a challenge is issued under a fresh id, the challenges outstanding
  -- for its npub and address are at most the configured cap.
  pub issue_challenge-cap :
      (input : IssueChallengeInput) (w w' : World InMemoryChallengeStore S A L)
      (response : AuthInitResponse) (cap : ℕ)
      → options.challenge_store ≡ in_memory_challenge_store
      → options.max_outstanding_challenges_per_npub ≡ some cap
      → 0 < cap
      → IsMap w.challenges.records
      → IsConsistent w.challenges.records
      → get response.challenge_id w.challenges.records ≡ none
      → w.challenges.clock ≤ w.now
      → issue_challenge options input w ≡ some (ok response, w')
      → count_outstanding (same_caller input w.now) w'.challenges ≤ cap
  issue_challenge-cap input w w' response cap e m z u k g l h =
      let (c, fresh, told, stored, free) = issue_challenge-ok options input w w' response h in
      ground (
        arith,
        told.challenge_id,
        e,
        stored,
        below_cap input w.now cap w.challenges e m z free,
        count_outstanding-create (same_caller input w.now) c w.challenges u k,
      )
