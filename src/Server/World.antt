-- ===== src/Server/World.antt =====
-- `NapServerOptions` of packages/nap-server/src/types.ts, and the state that a request of server.ts
-- works on: the states of the stores, of the resolver and of the limiters, the sinks, the readings
-- of the clocks and the bytes drawn. A clock reads the same throughout a request.
use nap.Base.{ℕ, suc, ◌≡◌, ◌⊎◌, inl, inr, refl, arith, Bool, Option, none, some, List}
use nap.Text.{Text}
use nap.JsMap.{JsMap}
use nap.Core.Errors.{NapErrorCode, VerifyCompleteFailure, Verdict, ok, fail}
use nap.Core.Codec.{encode_base64_url_bytes}
use nap.Core.Platform.{Platform}
use nap.Server.RateLimit.{
  RateLimitKey, RateLimitDecision, InMemoryRateLimiter, create_in_memory_rate_limiter, check, allow,
}
use nap.Server.Stores.{ChallengeStore, SessionStore, AclResolver, RateLimiter}
use nap.Server.Audit.{NapCounter, AuditCode, Detail, words, Sinks}
use nap.Server.Audit

-- The `rateLimiter` option: not given, `null`, or a limiter.
pub data LimiterOption (L : Type 0) : Type 0 where
  unset disabled : LimiterOption L
  custom : RateLimiter L → LimiterOption L

pub record NapServerOptions (C S A L : Type 0) : Type 0 where
  pub platform : Platform
  pub challenge_store : ChallengeStore C
  pub session_store : SessionStore S
  pub acl_resolver : AclResolver A
  pub rate_limiter : LimiterOption L
  -- The bytes of a draw, by the number of draws before it and its length.
  pub random_source : ℕ → ℕ → List ℕ
  pub metrics : Bool
  pub challenge_ttl_seconds : Option ℕ
  pub session_ttl_seconds : Option ℕ
  pub result_cache_ttl_seconds : Option ℕ
  pub max_clock_skew_seconds : Option ℕ
  pub lower_bound_grace_seconds : Option ℕ
  pub upper_bound_grace_seconds : Option ℕ
  pub step_up_ttl_seconds : Option ℕ
  pub refresh_ttl_seconds : Option ℕ
  pub max_session_lifetime_seconds : Option ℕ
  pub supported_extensions : Option (List Text)
  pub max_outstanding_challenges_per_npub : Option ℕ
  pub max_outstanding_challenges_per_ip : Option ℕ
  pub max_failures_per_challenge : Option ℕ
  pub min_auth_response_millis : Option ℕ
  pub response_jitter_millis : Option ℕ

pub record World (C S A L : Type 0) : Type 0 where
  pub challenges : C
  pub sessions : S
  pub acl : A
  pub limiter : L
  -- The limiter that `defaultRateLimiters` holds for these options.
  pub default_limiter : Option InMemoryRateLimiter
  pub sinks : Sinks
  pub draws : ℕ
  pub now : ℕ
  pub wall_now : ℕ

-- An action on a state that returns a value or stops with a failure; what it did stays done.
abbrev pub Action : Type 0 → Type 0 → Type 0
Action W X = W → Verdict X × W

abbrev pub pure : {W X : Type 0} → X → Action W X
pure x w = (ok x, w)

infixl 5 ◌>>=◌ ◌>>◌
abbrev pub ◌>>=◌ : {W X Y : Type 0} → Action W X → (X → Action W Y) → Action W Y
◌>>=◌ m f w = let (r, w') = m w in elim r [ ok x ↦ f x w' | fail e ↦ (fail e, w') ]

abbrev pub ◌>>◌ : {W Y : Type 0} → Action W (Unit {0}) → Action W Y → Action W Y
m >> k = m >>= λ _. k

-- An action that goes on after another has got a value from it.
continued-ok :
    {W X Y : Type 0} (f : X → Action W Y) (r : Verdict X × W) (w' : W) (y : Y)
    → ((λ _. r) >>= f) w' ≡ (ok y, w')
    → (x : X) × (v : W) × (r ≡ (ok x, v)) × (f x v ≡ (ok y, w'))
continued-ok f (ok x, v) w' y h = (x, v, refl, h)
continued-ok f (fail e, v) w' y h = cc

pub bind-ok :
    {W X Y : Type 0} (m : Action W X) (f : X → Action W Y) (w w' : W) (y : Y)
    → (m >>= f) w ≡ (ok y, w')
    → (x : X) × (v : W) × (m w ≡ (ok x, v)) × (f x v ≡ (ok y, w'))
bind-ok m f w w' y h = continued-ok f (m w) w' y h

-- An action that fails has failed at once or in what follows.
continued-fail :
    {W X Y : Type 0} (f : X → Action W Y) (r : Verdict X × W) (w' : W) (e : VerifyCompleteFailure)
    → ((λ _. r) >>= f) w' ≡ (fail e, w')
    → (r ≡ (fail e, w')) ⊎ ((x : X) × (v : W) × (r ≡ (ok x, v)) × (f x v ≡ (fail e, w')))
continued-fail f (ok x, v) w' e h = inr (x, v, refl, h)
continued-fail f (fail d, v) w' e h = inl (ground arith)

pub bind-fail :
    {W X Y : Type 0} (m : Action W X) (f : X → Action W Y) (w w' : W) (e : VerifyCompleteFailure)
    → (m >>= f) w ≡ (fail e, w')
    → (m w ≡ (fail e, w')) ⊎ ((x : X) × (v : W) × (m w ≡ (ok x, v)) × (f x v ≡ (fail e, w')))
bind-fail m f w w' e h = continued-fail f (m w) w' e h

module _ {C S A L : Type 0} (options : NapServerOptions C S A L) where
  -- `base64Url(randomSource.randomBytes(length))`
  unfoldable pub draw : ℕ → World C S A L → Text × World C S A L
  draw length w = (
    encode_base64_url_bytes (options.random_source w.draws length),
    record w { draws = suc w.draws },
  )

  unfoldable pub log : Audit.AuditEvent → World C S A L → World C S A L
  log event w = record w { sinks = Audit.log options.metrics event w.sinks }

  unfoldable pub log_failure : NapErrorCode → JsMap Detail → World C S A L → World C S A L
  unfolding log
  log_failure code details w =
      log
        (record {
          code = AuditCode.error code;
          outcome = Audit.Outcome.failure;
          npub = none;
          pubkey = none;
          details = details;
        })
        w

  unfoldable pub log_rate_limited :
      NapErrorCode → Option Text → JsMap Detail → World C S A L → World C S A L
  unfolding log
  log_rate_limited code pubkey details w =
      log
        (record {
          code = AuditCode.error code;
          outcome = Audit.Outcome.rate_limited;
          npub = none;
          pubkey = pubkey;
          details = details;
        })
        w

  unfoldable pub count_total : NapCounter → World C S A L → World C S A L
  count_total counter w = record w { sinks = Audit.count_total options.metrics counter w.sinks }

  abbrev default_at : ℕ → Option InMemoryRateLimiter → InMemoryRateLimiter
  default_at wall_now none = create_in_memory_rate_limiter none none wall_now
  default_at wall_now (some r) = record r { clock = wall_now }

  -- `resolveRateLimiter` and the call of the limiter's `check`.
  unfoldable pub check_rate_limit : RateLimitKey → World C S A L → RateLimitDecision × World C S A L
  check_rate_limit key w = elim options.rate_limiter [
    | disabled ↦ (allow, w)
    | custom limiter ↦
        let (decision, l) = limiter.check key w.limiter in (decision, record w { limiter = l })
    | unset ↦
        let (decision, r) = check key (default_at w.wall_now w.default_limiter) in
        (decision, record w { default_limiter = some r })
  ]
