-- ===== src/Voucher/Platform.antt =====
-- What packages/nap-voucher calls and this repository does not implement: `URL`, `JSON.parse`,
-- `TextEncoder` and the conversions of numbers of the platform, SHA-256 of @noble/hashes, the points
-- and Schnorr signatures of @noble/curves. `none` stands for an error that the call throws. The
-- numbers of a secret are whole numbers from 0 on.
use nap.Base.{ℕ, Bool, Option, List}
use nap.Text.{Text}
use nap.Core.Json.{Json}

pub record Url : Type 0 where
  pub protocol : Text
  pub username : Text
  pub password : Text
  pub pathname : Text
  pub search : Text
  pub hash : Text
  pub host : Text
  pub origin : Text

-- The points of the curve. `multiply` is the multiple of a point by any number; the library has it for
-- the scalars from 1 on below the order, and the code asks for no other.
pub record Curve (P : Type 0) : Type 0 where
  pub base : P
  pub order : ℕ
  pub add : P → P → P
  pub negate : P → P
  pub multiply : ℕ → P → P
  pub from_hex : Text → Option P
  -- `toHex(true)` and `toHex(false)`, which throw for the point at infinity.
  pub to_hex : P → Option Text
  pub to_hex_uncompressed : P → Option Text

pub record VoucherPlatform (P : Type 0) : Type 0 where
  pub url_parse : Text → Option Url
  pub json_parse : Text → Option Json
  pub text_encode : Text → List ℕ
  pub sha256 : List ℕ → List ℕ
  -- `String(value)`, `Number(raw)` where that is finite, and `Number(raw)` printed again.
  pub number_to_string : ℕ → Text
  pub parse_number : Text → Option ℕ
  pub render_number : Text → Text
  pub hex_value : Text → ℕ
  pub hex_bytes : Text → List ℕ
  -- `schnorr.verify(signature, message, key)`, `false` where it throws.
  pub schnorr_verify : List ℕ → List ℕ → List ℕ → Bool
  pub curve : Curve P
