-- ===== src/Core/Platform.antt =====
-- What packages/nap-core calls and this repository does not implement: `JSON.parse`, `TextEncoder`,
-- `TextDecoder` and `URL` of the platform, `sha256` of @noble/hashes, `verifyEvent` and
-- `nip19.decode` of nostr-tools. `none` stands for an error that the call throws.
use nap.Base.{ℕ, Bool, List, Option}
use nap.Text.{Text}
use nap.Core.Types.{Nip98Event}
use nap.Core.Json.{Json}

pub record Platform : Type 0 where
  pub json_parse : Text → Option Json
  pub text_encode : Text → List ℕ
  pub text_decode : List ℕ → Text
  pub url_to_string : Text → Option Text
  pub sha256 : List ℕ → List ℕ
  pub verify_event : Nip98Event → Bool
  -- The `type` and the `data` of a decoded entity, where its data is a string.
  pub nip19_decode : Text → Option (Text × Option Text)
