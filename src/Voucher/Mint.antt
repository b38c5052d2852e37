-- ===== src/Voucher/Mint.antt =====
-- packages/nap-voucher/src/mintClient.ts: the keys that a mint publishes, kept for a while, and the
-- state of a proof. The network is what `fetch` answers over a state of its own; a timeout is an answer
-- that does not come. The fields of a JSON object have different names.
pub mod Bounded
pub mod Allowed
use nap.Base.{
  ℕ, suc, ◌+◌, Bool, true, false, not, ◌&&◌, ◌||◌, Option, none, some, List, [], ◌∷◌, ◌++◌,
  if◌then◌else◌, ltb, leb,
}
use nap.Text.{Text, text, ◌==◌, is_empty, to_lower_case}
use nap.JsMap.{JsMap, get, set, delete}
use nap.Core.Json.{
  Json, str, arr, obj, Items, nil, cons, Fields, end, field, property, text_property,
}
use nap.Voucher.Platform.{VoucherPlatform}
use nap.Voucher.Allowlist.{resolve_mint}
use nap.Voucher.Availability.{
  MintFailureReason, unavailable, malformed_response, unknown_keyset, mint_not_allowed,
}
use nap.Voucher.Dleq.{proof_y}
use nap.Voucher.Resolver.{
  MintAnswer, answered, unanswered, ProofState, unspent_state, spent_state, pending_state,
  MintClient,
}

-- The public keys by the amount, printed.
abbrev pub Keyset : Type 0
Keyset = JsMap Text

pub record CacheEntry : Type 0 where
  pub keysets : JsMap Keyset
  pub expires_at : ℕ
  pub refreshed : Bool

-- What `fetch` comes to: an error, or a status with the body, `none` where that is no JSON.
pub data Fetched : Type 0 where
  no_answer : Fetched
  status : ℕ → Option Json → Fetched

pub record MintState (N : Type 0) : Type 0 where
  pub network : N
  pub cache : JsMap CacheEntry
  pub now : ℕ

-- A call of `fetch`, by the URL and the body of a POST. While one call awaits, other calls run, of the
-- client or not: `meanwhile` is what they do to its state, and nothing is assumed of it.
pub record MintOptions (P N : Type 0) : Type 0 where
  pub platform : VoucherPlatform P
  pub mint_origins : List Text
  pub keyset_cache_ttl_seconds : ℕ
  pub fetch : Text → Option Text → N → Fetched × N
  pub meanwhile : MintState N → MintState N

-- The strings of an object, in lower case.
unfoldable pub keys_of_fields : Fields → Keyset → Keyset
keys_of_fields end keys = keys
keys_of_fields (field amount (str key) fs) keys =
    keys_of_fields fs (set amount (to_lower_case key) keys)
keys_of_fields (field amount _ fs) keys = keys_of_fields fs keys

abbrev pub checks_out : Keyset → Bool
checks_out [] = false
checks_out (k ∷ keys) = true

abbrev add_keyset : Text → Keyset → JsMap Keyset → JsMap Keyset
add_keyset id keys out = if checks_out keys then set id keys out else out

-- What the loop of `parseKeysets` draws from a keyset: its identifier and its keys.
module _ {P : Type 0} (platform : VoucherPlatform P) where
  -- The same of an array, whose names are the indices.
  unfoldable pub keys_of_items : ℕ → Items → Keyset → Keyset
  keys_of_items i nil keys = keys
  keys_of_items i (cons (str key) js) keys =
      keys_of_items (suc i) js (set (platform.number_to_string i) (to_lower_case key) keys)
  keys_of_items i (cons _ js) keys = keys_of_items (suc i) js keys

  abbrev keys_of_json : Option Json → Option Keyset
  keys_of_json (some (obj fs)) = some (keys_of_fields fs [])
  keys_of_json (some (arr js)) = some (keys_of_items 0 js [])
  keys_of_json _ = none

  unfoldable pub collect_keysets : Items → JsMap Keyset → JsMap Keyset
  collect_keysets nil out = out
  collect_keysets (cons entry js) out = elim (text_property (text "id") entry) [
    | none ↦ collect_keysets js out
    | some id ↦ elim (keys_of_json (property (text "keys") entry)) [
      | none ↦ collect_keysets js out
      | some keys ↦ collect_keysets js (add_keyset id keys out)
    ]
  ]

  abbrev usable : JsMap Keyset → MintAnswer (JsMap Keyset)
  usable [] = unanswered malformed_response
  usable (k ∷ out) = answered (k ∷ out)

  unfoldable pub parse_keysets : Json → MintAnswer (JsMap Keyset)
  parse_keysets payload = elim (property (text "keysets") payload) [
    | some (arr entries) ↦ usable (collect_keysets entries [])
    | _ ↦ unanswered malformed_response
  ]

abbrev read_state : Text → MintAnswer ProofState
read_state s =
    if s == text "UNSPENT"
    then answered unspent_state
    else (if s == text "SPENT"
        then answered spent_state
        else (if s == text "PENDING"
            then answered pending_state
            else unanswered malformed_response))

-- The first entry of that `Y`.
unfoldable pub find_state : Text → Items → Option Json
find_state y nil = none
find_state y (cons entry js) = elim (text_property (text "Y") entry) [
  | none ↦ find_state y js
  | some given ↦ let rest = find_state y js in if to_lower_case given == y then some entry else rest
]

-- The state that the payload of `/v1/checkstate` gives for `Y`.
unfoldable pub state_of : Text → Json → MintAnswer ProofState
state_of y payload = elim (property (text "states") payload) [
  | some (arr states) ↦ elim (find_state y states) [
    | none ↦ unanswered malformed_response
    | some entry ↦ elim (text_property (text "state") entry) [
      | none ↦ unanswered malformed_response
      | some s ↦ read_state s
    ]
  ]
  | _ ↦ unanswered malformed_response
]

module _ {P N : Type 0} (options : MintOptions P N) where
  -- The status and body of an answer.
  unfoldable pub payload_of : Fetched → MintAnswer Json
  payload_of no_answer = unanswered unavailable
  payload_of (status code body) =
      if leb 200 code && leb code 299
      then elim body [ none ↦ unanswered unavailable | some payload ↦ answered payload ]
      else (if leb 400 code && ltb code 500
          then unanswered malformed_response
          else unanswered unavailable)

  -- `request`; other calls run before its answer is there.
  unfoldable pub request : Text → Option Text → MintState N → MintAnswer Json × MintState N
  request url body s =
      let (fetched, n) = options.fetch url body s.network in
      (payload_of fetched, options.meanwhile (record s { network = n }))

  abbrev pub entry_of : JsMap Keyset → ℕ → Bool → CacheEntry
  entry_of keysets now refreshed = record {
    keysets = keysets;
    expires_at = now + options.keyset_cache_ttl_seconds;
    refreshed = refreshed;
  }

  -- `loadKeysets` past its cache.
  unfoldable pub fetch_keysets : Text → Bool → MintState N → MintAnswer (JsMap Keyset) × MintState N
  fetch_keysets origin refreshed s =
      let (answer, s1) = request (origin ++ text "/v1/keys") none s in
      elim answer [
        | unanswered reason ↦ (unanswered reason, s1)
        | answered payload ↦ elim (parse_keysets options.platform payload) [
          | unanswered reason ↦ (unanswered reason, s1)
          | answered keysets ↦ (
            answered keysets,
            record s1 { cache = set origin (entry_of keysets s1.now refreshed) s1.cache },
          )
        ]
      ]

  -- `loadKeysets`
  unfoldable pub load_keysets : Text → Bool → MintState N → MintAnswer (JsMap Keyset) × MintState N
  load_keysets origin refreshed s = elim (get origin s.cache) [
    | none ↦ fetch_keysets origin refreshed s
    | some cached ↦
        let fresh = fetch_keysets origin refreshed s in
        if ltb s.now cached.expires_at then (answered cached.keysets, s) else fresh
  ]

  abbrev pub may_refetch : Option CacheEntry → Bool
  may_refetch none = false
  may_refetch (some entry) = not entry.refreshed

  -- The key of the amount.
  unfoldable pub key_from : Text → ℕ → JsMap Keyset → MintAnswer Text
  key_from keyset_id amount keysets = elim (get keyset_id keysets) [
    | none ↦ unanswered unknown_keyset
    | some keyset ↦ elim (get (options.platform.number_to_string amount) keyset) [
      | none ↦ unanswered unknown_keyset
      | some key ↦ if is_empty key then unanswered unknown_keyset else answered key
    ]
  ]

  abbrev key_from_answer : Text → ℕ → MintAnswer (JsMap Keyset) → MintAnswer Text
  key_from_answer keyset_id amount (unanswered reason) = unanswered reason
  key_from_answer keyset_id amount (answered keysets) = key_from keyset_id amount keysets

  -- A miss may refetch once for each entry of the cache. Other calls run before `await loadKeysets`
  -- goes on, even where the cache has answered.
  unfoldable pub get_key_at : Text → Text → ℕ → MintState N → MintAnswer Text × MintState N
  get_key_at origin keyset_id amount s =
      let (loaded, s') = load_keysets origin false s in
      let s1 = options.meanwhile s' in
      elim loaded [
        | unanswered reason ↦ (unanswered reason, s1)
        | answered keysets ↦ elim (get keyset_id keysets) [
          | some keyset ↦ (key_from keyset_id amount keysets, s1)
          | none ↦
              let (again, s2) =
                load_keysets origin true (record s1 { cache = delete origin s1.cache }) in
              if may_refetch (get origin s1.cache)
              then (key_from_answer keyset_id amount again, s2)
              else (unanswered unknown_keyset, s1)
        ]
      ]

  unfoldable pub get_key : Text → Text → ℕ → MintState N → MintAnswer Text × MintState N
  get_key mint_url keyset_id amount s =
      elim (resolve_mint options.platform.url_parse options.mint_origins mint_url) [
        | none ↦ (unanswered mint_not_allowed, s)
        | some origin ↦ get_key_at origin keyset_id amount s
      ]

  abbrev pub check_body : Text → Text
  check_body y = text "{\"Ys\":[\"" ++ (y ++ text "\"]}")

  unfoldable pub check_state_at : Text → Text → MintState N → MintAnswer ProofState × MintState N
  check_state_at origin y s =
      let (answer, s1) = request (origin ++ text "/v1/checkstate") (some (check_body y)) s in
      (
        elim answer [
          | unanswered reason ↦ unanswered reason
          | answered payload ↦ state_of y payload
        ],
        s1,
      )

  -- `checkState`; `none` stands for the error of a secret without a point.
  unfoldable pub check_state :
      Text → Text → MintState N → Option (MintAnswer ProofState) × MintState N
  check_state mint_url secret s =
      elim (resolve_mint options.platform.url_parse options.mint_origins mint_url) [
        | none ↦ (some (unanswered mint_not_allowed), s)
        | some origin ↦ elim (proof_y options.platform secret) [
          | none ↦ (none, s)
          | some y ↦ let (answer, s1) = check_state_at origin y s in (some answer, s1)
        ]
      ]

  -- `clearCache`
  unfoldable pub clear_cache : MintState N → MintState N
  clear_cache s = record s { cache = [] }
