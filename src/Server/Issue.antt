-- ===== src/Server/Issue.antt =====
-- `issueChallenge` of packages/nap-server/src/server.ts, without its padding (Server/Clamp.antt).
pub mod Caps
use nap.Base.{
  ℕ, ◌+◌, Bool, true, false, not, ◌&&◌, ◌||◌, Option, none, some, List, [], ◌∷◌, if◌then◌else◌, ltb,
  leb, or_default, length,
}
use nap.Text.{Text, text, truthy, ◌==◌}
use nap.Core.Types.{ChallengeState, ChallengeRecord, AuthInitResponse}
use nap.Core.Errors.{NapErrorCode, Verdict, ok, fail, failure}
use nap.Core.Platform.{Platform}
use nap.Server.RateLimit.{Scope}
use nap.Server.Stores.{OutstandingChallengeFilter}
use nap.Server.Audit.{words, auth_init_total}
use nap.Server.World.{
  NapServerOptions, World, Action, pure, ◌>>=◌, ◌>>◌, draw, log_failure, log_rate_limited,
  count_total, check_rate_limit,
}
use nap.Server.Clamp.{resolve_challenge_ttl}
use nap.Server.Complete.{one, fail_with}

pub record IssueChallengeInput : Type 0 where
  pub npub : Text
  pub auth_url : Text
  pub auth_method : Option Text
  pub client_ip : Option Text

-- `boundedNpub`
unfoldable pub bounded_npub : Text → Option Text
bounded_npub npub = if leb (length npub) 128 then some npub else none

pub data Dimension : Type 0 where
  npub_cap ip_cap : Dimension

abbrev dimension_name : Dimension → Text
dimension_name npub_cap = text "npub"
dimension_name ip_cap = text "ip"

-- `decodeNpub`
unfoldable pub decode_npub : Platform → Text → Option Text
decode_npub platform npub = elim (platform.nip19_decode npub) [
  | none ↦ none
  | some (kind, pubkey) ↦ if kind == text "npub" then pubkey else none
]

-- `if (!pubkey)`: an empty text is none.
abbrev pub not_empty : Option Text → Option Text
not_empty pubkey = if truthy pubkey then pubkey else none

-- `supportedExtensions?.length`: an empty list is not sent.
abbrev given_extensions : Option (List Text) → Option (List Text)
given_extensions (some (e ∷ es)) = some (e ∷ es)
given_extensions _ = none

abbrev pub given_ip : Option Text → Option Text
given_ip client_ip = if truthy client_ip then client_ip else none

module _ {C S A L : Type 0} (options : NapServerOptions C S A L) where
  -- The comparisons of `findExceededOutstandingCap` with the two counts.
  abbrev pub exceeded_dimension : ℕ → ℕ → Bool → ℕ → ℕ → Option Dimension
  exceeded_dimension per_npub per_ip counts_ip npub_count ip_count =
      if ltb 0 per_npub && leb per_npub npub_count
      then some npub_cap
      else (if counts_ip && leb per_ip ip_count then some ip_cap else none)

  -- `findExceededOutstandingCap`
  unfoldable pub find_exceeded_outstanding_cap : Text → Option Text → ℕ → C → Option Dimension
  find_exceeded_outstanding_cap caller client_ip now c =
      elim options.challenge_store.count_outstanding [
        | none ↦ none
        | some count_outstanding ↦
            let per_npub = or_default options.max_outstanding_challenges_per_npub 10 in
            let per_ip = or_default options.max_outstanding_challenges_per_ip 30 in
            let counts_ip = truthy client_ip && ltb 0 per_ip in
            let npub_count =
              if ltb 0 per_npub
              then count_outstanding
                  (record { npub = some caller; client_ip = given_ip client_ip; now = now }) c
              else 0 in
            let ip_count =
              if counts_ip
              then count_outstanding (record { npub = none; client_ip = client_ip; now = now }) c
              else 0 in
            exceeded_dimension per_npub per_ip counts_ip npub_count ip_count
      ]

  -- The checks before a challenge is made: the limiter, the npub and the caps.
  unfoldable pub admit_caller : IssueChallengeInput → ℕ → Action (World C S A L) Text
  admit_caller input ttl w =
      let (decision, w1) =
        check_rate_limit options
          (record {
            scope = Scope.init;
            npub = bounded_npub input.npub;
            pubkey = none;
            client_ip = input.client_ip;
          })
          w in
      if not decision.allowed
      then (
        fail (record (failure NapErrorCode.init_rate_limited) {
          retry_after_seconds = decision.retry_after_seconds;
        }),
        log_rate_limited options NapErrorCode.init_rate_limited none (one (text "npub") input.npub)
            w1,
      )
      else elim (not_empty (decode_npub options.platform input.npub)) [
        | none ↦ fail_with options NapErrorCode.init_invalid_npub (one (text "npub") input.npub) w1
        | some pubkey ↦
            elim (find_exceeded_outstanding_cap input.npub input.client_ip w1.now w1.challenges) [
              | none ↦ (ok pubkey, w1)
              | some exceeded ↦ (
                fail (record (failure NapErrorCode.init_rate_limited) {
                  retry_after_seconds = some ttl;
                }),
                log_rate_limited options NapErrorCode.init_rate_limited none
                    ((text "npub", words input.npub)
                      ∷ (text "cap", words (dimension_name exceeded))
                      ∷ [])
                    w1,
              )
            ]
      ]

  unfoldable pub make_challenge :
      IssueChallengeInput → ℕ → Text → World C S A L → ChallengeRecord × World C S A L
  make_challenge input ttl pubkey w =
      let (challenge_id, w1) = draw options 12 w in
      let (challenge, w2) = draw options 32 w1 in
      (
        record {
          challenge_id = challenge_id;
          challenge = challenge;
          npub = input.npub;
          pubkey = pubkey;
          auth_url = input.auth_url;
          auth_method = or_default input.auth_method (text "POST");
          issued_at = w.now;
          expires_at = w.now + ttl;
          state = ChallengeState.issued;
          redeemed_event_id = none;
          redeemed_session_id = none;
          result_cache_until = none;
          client_ip = given_ip input.client_ip;
          failure_count = none;
        },
        w2,
      )

  abbrev pub announce : ChallengeRecord → AuthInitResponse
  announce c = record {
    challenge_id = c.challenge_id;
    challenge = c.challenge;
    auth_url = c.auth_url;
    auth_method = c.auth_method;
    issued_at = c.issued_at;
    expires_at = c.expires_at;
    supported_extensions = given_extensions options.supported_extensions;
  }

  -- `challengeStore.create`, whose error is caught.
  unfoldable pub keep_challenge :
      IssueChallengeInput → ChallengeRecord → Action (World C S A L) AuthInitResponse
  keep_challenge input c w =
      let (created, store) = options.challenge_store.create c w.challenges in
      let w' = record w { challenges = store } in
      if created
      then (ok (announce c), w')
      else fail_with options NapErrorCode.init_internal (one (text "npub") input.npub) w'

  -- `issueChallengeUnpadded`; it throws before it does anything, which is `none`, where the
  -- configured lifetime of a challenge is out of range.
  unfoldable pub issue_challenge :
      IssueChallengeInput → World C S A L → Option (Verdict AuthInitResponse × World C S A L)
  issue_challenge input w = elim (resolve_challenge_ttl options.challenge_ttl_seconds) [
    | none ↦ none
    | some ttl ↦ some (
        (do
          pubkey ← admit_caller input ttl
          λ v. let (c, v') = make_challenge input ttl pubkey v in keep_challenge input c v')
          (count_total options auth_init_total w))
  ]
