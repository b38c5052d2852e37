-- ===== src/Core/Errors.antt =====
-- packages/nap-core/src/errors.ts, and the error codes of types.ts.
use nap.Base.{ℕ, Bool, true, false, Option, none}

pub data NapErrorCode : Type 0 where
  init_invalid_json init_invalid_npub init_rate_limited init_internal : NapErrorCode
  complete_missing_auth_header complete_invalid_auth_scheme : NapErrorCode
  complete_invalid_event_json complete_invalid_kind complete_invalid_signature : NapErrorCode
  complete_created_at_out_of_range complete_url_mismatch complete_method_mismatch : NapErrorCode
  complete_missing_payload complete_payload_mismatch complete_missing_challenge_id : NapErrorCode
  complete_unknown_challenge complete_expired_challenge complete_redeemed_challenge : NapErrorCode
  complete_challenge_mismatch complete_principal_mismatch complete_acl_denied : NapErrorCode
  complete_rate_limited complete_failed_terminal complete_internal : NapErrorCode
  refresh_unknown_token refresh_reused refresh_expired refresh_revoked : NapErrorCode
  refresh_acl_denied refresh_rate_limited refresh_internal : NapErrorCode

pub record VerifyCompleteFailure : Type 0 where
  pub code : NapErrorCode
  pub retryable : Bool
  pub retry_after_seconds : Option ℕ

abbrev pub is_retryable_nap_error : NapErrorCode → Bool
is_retryable_nap_error init_rate_limited = true
is_retryable_nap_error init_internal = true
is_retryable_nap_error complete_created_at_out_of_range = true
is_retryable_nap_error complete_unknown_challenge = true
is_retryable_nap_error complete_rate_limited = true
is_retryable_nap_error complete_internal = true
is_retryable_nap_error refresh_rate_limited = true
is_retryable_nap_error refresh_internal = true
is_retryable_nap_error _ = false

abbrev pub failure : NapErrorCode → VerifyCompleteFailure
failure c = record { code = c; retryable = is_retryable_nap_error c; retry_after_seconds = none }

-- A check that returns a value or stops with a failure.
pub data Verdict {ℓ} (A : Type ℓ) : Type ℓ where
  ok : A → Verdict A
  fail : VerifyCompleteFailure → Verdict A

infixl 5 ◌>>=◌ ◌>>◌
abbrev pub ◌>>=◌ {ℓ κ} : {A : Type ℓ} {B : Type κ} → Verdict A → (A → Verdict B) → Verdict B
ok a >>= f = f a
fail e >>= f = fail e

abbrev pub ◌>>◌ {ℓ} : {B : Type ℓ} → Verdict (Unit {0}) → Verdict B → Verdict B
m >> k = m >>= λ _. k

-- `if (!test) return failure(code)`
abbrev pub require : Bool → NapErrorCode → Verdict (Unit {0})
require true code = ok tt
require false code = fail (failure code)
