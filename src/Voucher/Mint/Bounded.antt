-- ===== src/Voucher/Mint/Bounded.antt =====
-- How often packages/nap-voucher/src/mintClient.ts asks a mint for its keys.
use nap.Base.{
  ℕ, ◌+◌, ◌≤◌, ◌<◌, ◌≡◌, inl, inr, refl, Bool, true, false, Option, none, some, List, [], ◌∷◌, ◌++◌,
  arith, ltb, leb, if◌then◌else◌, All, Option-cases, Bool-cases,
}
use nap.Text.{Text, text, ==_iff}
use nap.JsMap.{JsMap, get, delete, get-set_self, get-delete}
use nap.Core.Json.{Json}
use nap.Voucher.Allowlist.{resolve_mint}
use nap.Voucher.Resolver.{answered}
use nap.Voucher.Mint.{
  Keyset, CacheEntry, MintOptions, MintState, parse_keysets, payload_of, request, entry_of,
  fetch_keysets, load_keysets, get_key_at, get_key,
}

-- A call of `getKey`: its time, the keyset and the amount.
pub record Ask : Type 0 where
  pub at : ℕ
  pub keyset_id : Text
  pub amount : ℕ

module _ {P N : Type 0} (options : MintOptions P N) where
  -- The calls, one after another, each at its time and when the one before it is answered.
  unfoldable pub ask_all : Text → List Ask → MintState N → MintState N
  ask_all mint_url [] s = s
  ask_all mint_url (a ∷ asks) s =
      ask_all mint_url asks
        (get_key options mint_url a.keyset_id a.amount (record s { now = a.at })).1

  -- Whatever its state, the mint answers with keysets that can be used.
  unfoldable pub IsUsable : Text → Type 0
  IsUsable origin =
      (n : N)
      → (payload : Json) × (keysets : JsMap Keyset) × (payload_of options
            (options.fetch (origin ++ text "/v1/keys") none n).0
          ≡ answered payload)
        × (parse_keysets options.platform payload ≡ answered keysets)

  -- No other call of the client runs while one waits.
  unfoldable pub IsAlone : Type 0
  IsAlone = (s : MintState N) → options.meanwhile s ≡ s

  -- A number that each call of `fetch` raises by one at most.
  unfoldable pub IsCount : (N → ℕ) → Type 0
  IsCount count =
      (url : Text) (body : Option Text) (n : N) → count (options.fetch url body n).1 ≤ count n + 1

  -- How many fetches are left up to a time.
  credit_of : ℕ → Option CacheEntry → ℕ
  credit_of until none = 2
  credit_of until (some e) = if leb until e.expires_at then (if e.refreshed then 0 else 1) else 2

  credit_le : (until : ℕ) (e : Option CacheEntry) → credit_of until e ≤ 2
  unfolding credit_of
  credit_le until none = ground arith
  credit_le until (some e) = ground (arith, Bool-cases e.refreshed)

  module _ (origin : Text) (usable : IsUsable origin) (count : N → ℕ) (counts : IsCount count)
      (alone : IsAlone) where
    -- What a fetch leaves behind.
    fetch_keysets_lem :
        (refreshed : Bool) (s : MintState N)
        → (keysets : JsMap Keyset) × ((fetch_keysets options origin refreshed s).0
            ≡ answered keysets)
          × (get origin (fetch_keysets options origin refreshed s).1.cache
              ≡ some (entry_of options keysets s.now refreshed))
          × (count (fetch_keysets options origin refreshed s).1.network ≤ count s.network + 1)
          × ((fetch_keysets options origin refreshed s).1.now ≡ s.now)
    unfolding fetch_keysets request IsUsable IsCount IsAlone
    fetch_keysets_lem refreshed s =
        let (payload, keysets, paid, parsed) = usable s.network in
        let stored = get-set_self origin (entry_of options keysets s.now refreshed) s.cache in
        let once = counts (origin ++ text "/v1/keys") none s.network in
        let still =
          alone
            (record s { network = (options.fetch (origin ++ text "/v1/keys") none s.network).1 }) in
        (
          keysets,
          ground (arith, still, paid, parsed),
          ground (arith, still, paid, parsed, stored),
          ground (arith, still, paid, parsed, once),
          ground (arith, still, paid, parsed),
        )

    load_keysets-missing :
        (refreshed : Bool) (s : MintState N)
        → get origin s.cache ≡ none
        → load_keysets options origin refreshed s ≡ fetch_keysets options origin refreshed s
    unfolding load_keysets
    load_keysets-missing refreshed s h = ground (arith, h)

    load_keysets-expired :
        (refreshed : Bool) (s : MintState N) (e : CacheEntry)
        → get origin s.cache ≡ some e
        → ltb s.now e.expires_at ≡ false
        → load_keysets options origin refreshed s ≡ fetch_keysets options origin refreshed s
    unfolding load_keysets
    load_keysets-expired refreshed s e h x = ground (arith, h, x)

    load_keysets-fresh :
        (refreshed : Bool) (s : MintState N) (e : CacheEntry)
        → get origin s.cache ≡ some e
        → ltb s.now e.expires_at ≡ true
        → load_keysets options origin refreshed s ≡ (answered e.keysets, s)
    unfolding load_keysets
    load_keysets-fresh refreshed s e h x = ground (arith, h, x)

    get-delete_self : (cache : JsMap CacheEntry) → get origin (delete origin cache) ≡ none
    get-delete_self cache =
        ground (arith, get-delete origin origin cache, (==_iff origin origin).1 refl)

    -- The state after a keyset was looked for in what is loaded.
    looked_up :
        (until : ℕ) (s s1 : MintState N) (keysets : JsMap Keyset) (e : CacheEntry) (id : Text)
        (amount : ℕ)
        → load_keysets options origin false s ≡ (answered keysets, s1)
        → get origin s1.cache ≡ some e
        → until ≤ s1.now + options.keyset_cache_ttl_seconds
        → count (get_key_at options origin id amount s).1.network
            + credit_of until (get origin (get_key_at options origin id amount s).1.cache)
          ≤ count s1.network + credit_of until (some e)
    unfolding get_key_at credit_of IsAlone
    looked_up until s s1 keysets e id amount h c u =
        let (again, fetched, stored, once, now) =
          fetch_keysets_lem true (record s1 { cache = delete origin s1.cache }) in
        let missed =
          load_keysets-missing true (record s1 { cache = delete origin s1.cache })
            (get-delete_self s1.cache) in
        elim (Option-cases (get id keysets)) [
          | inr (found, f) ↦ ground (arith, alone s1, h, c, f, Bool-cases e.refreshed)
          | inl f ↦ elim (Bool-cases e.refreshed) [
            | inl b ↦ ground (arith, alone s1, h, c, f, b)
            | inr b ↦ ground (arith, alone s1, h, c, f, b, missed, stored, once, u)
          ]
        ]

    step_le :
        (until : ℕ) (s : MintState N) (id : Text) (amount : ℕ)
        → s.now < until
        → until ≤ s.now + options.keyset_cache_ttl_seconds
        → count (get_key_at options origin id amount s).1.network
            + credit_of until (get origin (get_key_at options origin id amount s).1.cache)
          ≤ count s.network + credit_of until (get origin s.cache)
    unfolding credit_of
    step_le until s id amount l u =
        let (keysets, fetched, stored, once, now) = fetch_keysets_lem false s in
        let s1 = (fetch_keysets options origin false s).1 in
        let entry = entry_of options keysets s.now false in
        elim (Option-cases (get origin s.cache)) [
          | inl e ↦
              let first =
                looked_up until s s1 keysets entry id amount
                  (ground (arith, load_keysets-missing false s e, fetched)) stored
                  (ground (arith, now, u)) in
              ground (arith, first, e, once, l, u)
          | inr (c, e) ↦ elim (Bool-cases (ltb s.now c.expires_at)) [
            | inl x ↦
                let first =
                  looked_up until s s c.keysets c id amount (load_keysets-fresh false s c e x) e
                    u in
                ground (arith, first, e)
            | inr x ↦
                let first =
                  looked_up until s s1 keysets entry id amount
                    (ground (arith, load_keysets-expired false s c e x, fetched)) stored
                    (ground (arith, now, u)) in
                ground (arith, first, e, once, l, u, x)
          ]
        ]

    -- The call falls in the time that a keyset is kept for.
    abbrev pub IsWithin : ℕ → Ask → Type 0
    IsWithin start a = (start ≤ a.at) × (a.at < start + options.keyset_cache_ttl_seconds)

    ask_all_le :
        (mint_url : Text) (start : ℕ) (asks : List Ask) (s : MintState N)
        → resolve_mint options.platform.url_parse options.mint_origins mint_url ≡ some origin
        → All (IsWithin start) asks
        → count (ask_all mint_url asks s).network
          ≤ count s.network
            + credit_of (start + options.keyset_cache_ttl_seconds) (get origin s.cache)
    unfolding ask_all get_key
    ask_all_le mint_url start [] s r w = ground arith
    ask_all_le mint_url start (a ∷ asks) s r ((from, to), w) =
        let until = start + options.keyset_cache_ttl_seconds in
        let s' = (get_key_at options origin a.keyset_id a.amount (record s { now = a.at })).1 in
        let rest = ask_all_le mint_url start asks s' r w in
        let first =
          step_le until (record s { now = a.at }) a.keyset_id a.amount to (ground arith) in
        ground (arith, rest, first, r)

  -- Calls that follow one another cost little: where an allowed mint answers with keysets that can be
  -- used, calls of `getKey` of which each starts when the one before is answered, with no other call
  -- meanwhile, all within the time that a keyset is kept for, cost two fetches at most, whatever
  -- keysets and amounts they ask for and whatever the cache holds. (`count` is a number that a fetch
  -- raises by one at most. Calls that overlap on a cache without the keyset fetch each for itself.)
  pub ask_all-fetches :
      (count : N → ℕ) (mint_url origin : Text) (start : ℕ) (asks : List Ask) (s : MintState N)
      → IsCount count
      → IsAlone
      → resolve_mint options.platform.url_parse options.mint_origins mint_url ≡ some origin
      → IsUsable origin
      → All (λ a. (start ≤ a.at) × (a.at < start + options.keyset_cache_ttl_seconds)) asks
      → count (ask_all mint_url asks s).network ≤ count s.network + 2
  ask_all-fetches count mint_url origin start asks s counts alone r usable w = ground (
    arith,
    ask_all_le origin usable count counts alone mint_url start asks s r w,
    credit_le (start + options.keyset_cache_ttl_seconds) (get origin s.cache),
  )
