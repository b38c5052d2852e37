-- ===== src/Server/Stores.antt =====
-- The store, resolver and limiter interfaces of packages/nap-server/src/types.ts, over the state
-- that an implementation keeps. A call of an optional method is an `Option`. A call may throw only
-- where the server catches it: `create` says by its Boolean whether it returned.
use nap.Base.{ℕ, Bool, Option, List}
use nap.Text.{Text}
use nap.Core.Types.{ChallengeState, ChallengeRecord, SessionRecord, AclDecision, VoucherCredential}
use nap.Server.RateLimit.{RateLimitKey, RateLimitDecision}

pub record OutstandingChallengeFilter : Type 0 where
  pub npub : Option Text
  pub client_ip : Option Text
  pub now : ℕ

pub record RecordChallengeFailureResult : Type 0 where
  pub failure_count : ℕ
  pub state : ChallengeState

pub record RedeemParams : Type 0 where
  pub event_id : Text
  pub session_id : Text
  pub now : ℕ
  pub result_cache_until : ℕ

pub data RedeemStatus : Type 0 where
  redeemed already_redeemed not_found expired : RedeemStatus

pub record ChallengeStore (C : Type 0) : Type 0 where
  pub create : ChallengeRecord → C → Bool × C
  pub get : Text → C → Option ChallengeRecord
  pub redeem : Text → RedeemParams → C → RedeemStatus × C
  pub mark_expired : ℕ → C → ℕ × C
  pub count_outstanding : Option (OutstandingChallengeFilter → C → ℕ)
  pub record_failure : Option (Text → ℕ → ℕ → C → Option RecordChallengeFailureResult × C)

pub record RotateRefreshTokenParams : Type 0 where
  pub expected_refresh_token : Text
  pub access_token : Text
  pub refresh_token : Text
  pub now : ℕ
  pub expires_at : ℕ
  pub refresh_expires_at : ℕ
  pub roles : List Text
  pub permissions : List Text

pub record SessionStore (S : Type 0) : Type 0 where
  pub create_for_challenge : SessionRecord → S → SessionRecord × S
  pub get_by_session_id : Text → S → Option SessionRecord
  pub get_by_access_token : Text → S → Option SessionRecord × S
  pub revoke_by_session_id : Text → ℕ → S → S
  pub revoke_by_principal : Text → ℕ → S → ℕ × S
  pub get_by_refresh_token : Option (Text → S → Option SessionRecord)
  pub rotate_refresh_token : Option (Text → RotateRefreshTokenParams → S → Option SessionRecord × S)

pub record SessionView : Type 0 where
  pub roles : List Text
  pub permissions : List Text

pub record AclResolutionContext : Type 0 where
  pub voucher : Option VoucherCredential
  pub now : ℕ
  pub session : Option SessionView

-- A resolver may write, as the registry resolver does when it provisions a principal.
pub record AclResolver (A : Type 0) : Type 0 where
  pub resolve : Text → Text → AclResolutionContext → A → AclDecision × A

pub record RateLimiter (L : Type 0) : Type 0 where
  pub check : RateLimitKey → L → RateLimitDecision × L
