-- ===== src/Voucher/Options.antt =====
-- The options, codes and events of packages/nap-voucher/src/resolver.ts, and the mint that it asks.
use nap.Base.{ℕ, Bool, Option, List}
use nap.Text.{Text, text}
use nap.Server.Stores.{AclResolver}
use nap.Voucher.Platform.{VoucherPlatform}
use nap.Voucher.Allowlist.{AllowedIssuer}
use nap.Voucher.Secret.{ParsedVoucherSecret}
use nap.Voucher.Availability.{MintFailureReason, Grant, AvailabilityDecision}

pub data VoucherCode : Type 0 where
  mint_denied malformed dleq_invalid binding_mismatch issuer_untrusted : VoucherCode
  expired spent mint_down absent grant_unknown accepted : VoucherCode

abbrev pub code_text : VoucherCode → Text
code_text mint_denied = text "NAP_VOUCHER_MINT_NOT_ALLOWED"
code_text malformed = text "NAP_VOUCHER_MALFORMED"
code_text dleq_invalid = text "NAP_VOUCHER_DLEQ_INVALID"
code_text binding_mismatch = text "NAP_VOUCHER_BINDING_MISMATCH"
code_text issuer_untrusted = text "NAP_VOUCHER_ISSUER_UNTRUSTED"
code_text expired = text "NAP_VOUCHER_EXPIRED"
code_text spent = text "NAP_VOUCHER_SPENT"
code_text mint_down = text "NAP_VOUCHER_MINT_UNAVAILABLE"
code_text absent = text "NAP_VOUCHER_ABSENT"
code_text grant_unknown = text "NAP_VOUCHER_GRANT_NOT_IN_REGISTRY"
code_text accepted = text "NAP_VOUCHER_ACCEPTED"

pub data ProofState : Type 0 where
  unspent_state spent_state pending_state : ProofState

-- A call of a mint: its answer, or the reason of a `MintUnavailableError`.
pub data MintAnswer (X : Type 0) : Type 0 where
  answered : X → MintAnswer X
  unanswered : MintFailureReason → MintAnswer X

pub record MintClient (M : Type 0) : Type 0 where
  pub get_key : Text → Text → ℕ → M → MintAnswer Text × M
  pub check_state : Text → Text → M → MintAnswer ProofState × M

pub record VerifiedVoucher : Type 0 where
  pub mint_url : Text
  pub issuer_pubkey : Text
  pub locked_to : Text
  pub secret : ParsedVoucherSecret

pub record RegistryKeys : Type 0 where
  pub permissions : List Text
  pub roles : List Text

pub data MissingCredential : Type 0 where
  denies trusts_session : MissingCredential

pub record VoucherOptions (P M F : Type 0) : Type 0 where
  pub platform : VoucherPlatform P
  pub mint_origins : List Text
  pub issuers : List AllowedIssuer
  pub mint_client : MintClient M
  pub availability : MintFailureReason → AvailabilityDecision
  pub grant : VerifiedVoucher → Grant
  pub permission_registry : Option RegistryKeys
  pub fallback : Option (AclResolver F)
  pub on_missing_credential : MissingCredential

-- The event of an audit logger, by its code and outcome.
pub record VoucherEvent : Type 0 where
  pub code : VoucherCode
  pub success : Bool

pub record VoucherWorld (M F : Type 0) : Type 0 where
  pub mint : M
  pub fallback : F
  pub audit : List VoucherEvent
