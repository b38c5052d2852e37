-- ===== src/Core/Types.antt =====
-- packages/nap-core/src/types.ts. A time is a whole number of seconds from 1970 on.
use nap.Base.{ℕ, Bool, List, Option}
use nap.Text.{Text}

pub data ChallengeState : Type 0 where
  issued redeemed expired failed_terminal : ChallengeState

pub record ChallengeRecord : Type 0 where
  pub challenge_id : Text
  pub challenge : Text
  pub npub : Text
  pub pubkey : Text
  pub auth_url : Text
  pub auth_method : Text
  pub issued_at : ℕ
  pub expires_at : ℕ
  pub state : ChallengeState
  pub redeemed_event_id : Option Text
  pub redeemed_session_id : Option Text
  pub result_cache_until : Option ℕ
  pub client_ip : Option Text
  pub failure_count : Option ℕ

pub record SessionRecord : Type 0 where
  pub session_id : Text
  pub challenge_id : Text
  pub access_token : Text
  pub principal_npub : Text
  pub principal_pubkey : Text
  pub roles : List Text
  pub permissions : List Text
  pub issued_at : ℕ
  pub expires_at : ℕ
  pub step_up_token : Option Text
  pub step_up_expires_at : Option ℕ
  pub refresh_token : Option Text
  pub refresh_expires_at : Option ℕ
  pub previous_refresh_token : Option Text
  pub revoked_at : Option ℕ

pub record AclDecision : Type 0 where
  pub allowed : Bool
  pub roles : List Text
  pub permissions : List Text
  pub reason : Option Text
  pub revoke_sessions : Option Bool
  pub expires_at : Option ℕ

pub record Dleq : Type 0 where
  pub e : Text
  pub s : Text
  pub r : Text

pub record VoucherCredential : Type 0 where
  pub mint_url : Text
  pub keyset_id : Text
  pub secret : Text
  pub signature : Text
  pub amount : ℕ
  pub dleq : Dleq
  pub witness : Option Text

pub record AuthCompleteRequest : Type 0 where
  pub challenge_id : Text
  pub step_up : Option Bool
  pub voucher : Option VoucherCredential

pub record AuthInitResponse : Type 0 where
  pub challenge_id : Text
  pub challenge : Text
  pub auth_url : Text
  pub auth_method : Text
  pub issued_at : ℕ
  pub expires_at : ℕ
  pub supported_extensions : Option (List Text)

pub record Nip98Event : Type 0 where
  pub id : Text
  pub pubkey : Text
  pub created_at : ℕ
  pub kind : ℕ
  pub tags : List (List Text)
  pub content : Text
  pub sig : Text

pub record VerifiedNip98Completion : Type 0 where
  pub event : Nip98Event
  pub challenge : Text
  pub challenge_id : Text
  pub payload : Text

pub record VerifyNip98CompletionInput : Type 0 where
  pub authorization : Option Text
  pub method : Text
  pub url : Text
  pub body : AuthCompleteRequest
  pub raw_body : List ℕ
  pub now : ℕ
  pub max_clock_skew_seconds : ℕ
