-- ===== src/Tests/Mint.antt =====
-- The theorems on the mint client, with a network that remembers the URLs it was asked for.
use nap.Base.{◌≤◌, refl, Bool, some, List, [], ◌∷◌, arith, All, length}
use nap.Text.{Text, text}
use nap.Core.Json.{Json, str, arr, obj, nil, cons, end, field}
use nap.Core.Json
use nap.Voucher.Allowlist
use nap.Voucher.Mint
use nap.Voucher.Mint.{Keyset, MintOptions, MintState, status, get_key, check_state}
use nap.Voucher.Mint.Bounded.{Ask, ask_all, IsAlone, IsUsable, IsCount, ask_all-fetches}
use nap.Voucher.Mint.Allowed.{IsMintUrl, IsKept, get_key-IsKept}
use nap.Tests.Voucher.{platform}

abbrev keysets_json : Json
keysets_json = obj (
    field (text "keysets")
      (arr (
        cons
          (obj (
            field (text "id") (str (text "k1"))
              (field (text "keys") (obj (field (text "8") (str (text "02")) end)) end)))
          nil))
      end)

abbrev options : MintOptions Bool (List Text)
options = record {
  platform = platform;
  mint_origins = text "https://mint.example" ∷ [];
  keyset_cache_ttl_seconds = 3600;
  fetch = λ url body asked. (status 200 (some keysets_json), url ∷ asked);
  meanwhile = λ s. s;
}

-- While a call of this client waits, another clears the cache.
abbrev cleared_meanwhile : MintOptions Bool (List Text)
cleared_meanwhile = record options { meanwhile = λ s. record s { cache = [] } }

abbrev idle : MintState (List Text)
idle = record { network = []; cache = []; now = 100 }

abbrev asks : List Ask
asks =
    record { at = 100; keyset_id = text "k1"; amount = 8 }
    ∷ record { at = 200; keyset_id = text "k2"; amount = 8 }
    ∷ record { at = 300; keyset_id = text "k3"; amount = 8 }
    ∷ record { at = 400; keyset_id = text "k4"; amount = 8 }
    ∷ []

fetch-IsUsable : IsUsable options (text "https://mint.example")
unfolding IsUsable Mint.payload_of Mint.parse_keysets Mint.collect_keysets Mint.keys_of_fields
    Json.find_field nap.Text.text_discrete nap.Text.to_lower_case nap.JsMap.set
fetch-IsUsable = λ asked. (keysets_json, (text "k1", (text "8", text "02") ∷ []) ∷ [], refl, refl)

fetch-IsCount : IsCount options length
unfolding IsCount
fetch-IsCount = λ url body asked. ground arith

options-IsAlone : IsAlone options
unfolding IsAlone
options-IsAlone = λ s. refl

ask_all-fetches_example :
    length (ask_all options (text "https://mint.example") asks idle).network ≤ 2
unfolding Allowlist.resolve_mint Allowlist.canonicalize_mint_url nap.Text.trim nap.Text.is_space
    nap.Text.text_discrete nap.Text.to_lower_case nap.Text.includes nap.Text.lower_unit
    nap.Text.trim_start nap.Text.trim_end
ask_all-fetches_example =
    ask_all-fetches options length (text "https://mint.example") (text "https://mint.example") 100
      asks idle fetch-IsCount options-IsAlone refl fetch-IsUsable
      (
        (ground arith, ground arith),
        (
          (ground arith, ground arith),
          ((ground arith, ground arith), ((ground arith, ground arith), tt)),
        ),
      )

fetch-IsKept : IsKept cleared_meanwhile (All (IsMintUrl cleared_meanwhile))
unfolding IsKept
fetch-IsKept = (λ url body asked i h. (i, h), λ s h. h)

get_key-IsKept_example :
    All
      (IsMintUrl cleared_meanwhile)
      (get_key cleared_meanwhile (text "https://mint.example") (text "k1") 8 idle).1.network
    × All
        (IsMintUrl cleared_meanwhile)
        (check_state cleared_meanwhile (text "https://mint.example") (text "s") idle).1.network
get_key-IsKept_example =
    get_key-IsKept cleared_meanwhile (All (IsMintUrl cleared_meanwhile))
      (text "https://mint.example") (text "k1") (text "s") 8 idle fetch-IsKept tt
