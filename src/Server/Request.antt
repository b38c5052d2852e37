-- ===== src/Server/Request.antt =====
-- `parseAuthCompleteRequest` and `parseVoucherCredential` of packages/nap-server/src/server.ts.
use nap.Base.{ℕ, Bool, true, false, Option, none, some, List, if◌then◌else◌, ltb, ◌>>=◌}
use nap.Text.{Text, text, is_empty}
use nap.Core.Types.{AuthCompleteRequest, VoucherCredential, Dleq}
use nap.Core.Json.{Json, bool, str, property, text_property, number_property}
use nap.Core.Platform.{Platform}

-- A property that is a string and is not empty.
abbrev filled : Text → Json → Option Text
filled key j = do s ← text_property key j; if is_empty s then none else some s

abbrev positive : ℕ → Option ℕ
positive n = if ltb 0 n then some n else none

-- An optional string: absent, or present and of the right type.
abbrev witness_of : Option Json → Option (Option Text)
witness_of none = some none
witness_of (some (str s)) = some (some s)
witness_of (some _) = none

abbrev parse_dleq : Json → Option Dleq
parse_dleq j = do
  e ← filled (text "e") j
  s ← filled (text "s") j
  r ← filled (text "r") j
  some (record { e = e; s = s; r = r })

unfoldable pub parse_voucher_credential : Json → Option VoucherCredential
parse_voucher_credential j = do
  mint_url ← filled (text "mint_url") j
  keyset_id ← filled (text "keyset_id") j
  secret ← filled (text "secret") j
  signature ← filled (text "signature") j
  n ← number_property (text "amount") j
  amount ← positive n
  proof ← property (text "dleq") j
  dleq ← parse_dleq proof
  witness ← witness_of (property (text "witness") j)
  some (record {
    mint_url = mint_url;
    keyset_id = keyset_id;
    secret = secret;
    signature = signature;
    amount = amount;
    dleq = dleq;
    witness = witness;
  })

-- `step_up` is left out unless it is `true`; a value that is no Boolean rejects the body.
abbrev step_up_of : Option Json → Option (Option Bool)
step_up_of none = some none
step_up_of (some (bool true)) = some (some true)
step_up_of (some (bool false)) = some none
step_up_of (some _) = none

-- A voucher that is present and malformed rejects the body.
abbrev voucher_of : Option Json → Option (Option VoucherCredential)
voucher_of none = some none
voucher_of (some j) = do v ← parse_voucher_credential j; some (some v)

unfoldable pub request_of_json : Json → Option AuthCompleteRequest
request_of_json parsed = do
  challenge_id ← filled (text "challenge_id") parsed
  step_up ← step_up_of (property (text "step_up") parsed)
  voucher ← voucher_of (property (text "voucher") parsed)
  some (record { challenge_id = challenge_id; step_up = step_up; voucher = voucher })

unfoldable pub parse_auth_complete_request : Platform → List ℕ → Option AuthCompleteRequest
parse_auth_complete_request platform raw_body = do
  parsed ← platform.json_parse (platform.text_decode raw_body)
  request_of_json parsed
