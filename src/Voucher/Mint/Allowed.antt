-- ===== src/Voucher/Mint/Allowed.antt =====
-- Which URLs packages/nap-voucher/src/mintClient.ts asks.
use nap.Base.{
  ltb, ℕ, ◌≡◌, ◌⊎◌, inl, inr, refl, Bool, true, false, Option, none, some, ◌++◌, arith,
  Option-cases, Bool-cases, subst, sym,
}
use nap.Text.{Text, text, includes}
use nap.JsMap.{get, delete}
use nap.Voucher.Allowlist.{resolve_mint}
use nap.Voucher.Dleq.{proof_y}
use nap.Voucher.Resolver.Offline.{MintAnswer-cases}
use nap.Voucher.Resolver.Contact.{resolve_mint-listed}
use nap.Voucher.Mint.{
  MintOptions, MintState, parse_keysets, payload_of, request, fetch_keysets, load_keysets,
  may_refetch, check_body, get_key_at, get_key, check_state_at, check_state,
}

module _ {P N : Type 0} (options : MintOptions P N) where
  -- The keysets or the state check of a mint that the operator lists.
  unfoldable pub IsMintUrl : Text → Type 0
  IsMintUrl url =
      (origin : Text) × (includes origin options.mint_origins ≡ true)
      × ((url ≡ origin ++ text "/v1/keys") ⊎ (url ≡ origin ++ text "/v1/checkstate"))

  -- What every request of such a URL keeps true of the network, and the calls that run meanwhile.
  unfoldable pub IsKept : (N → Type 0) → Type 0
  IsKept holds =
      ((url : Text) (body : Option Text) (n : N)
        → IsMintUrl url
        → holds n
        → holds (options.fetch url body n).1)
      × ((s : MintState N) → holds s.network → holds (options.meanwhile s).network)

  module _ (holds : N → Type 0) (kept : IsKept holds) (origin : Text)
      (listed : includes origin options.mint_origins ≡ true) where
    -- When the keysets have come.
    abbrev answered_state : MintState N → MintState N
    answered_state s =
        options.meanwhile
          (record s { network = (options.fetch (origin ++ text "/v1/keys") none s.network).1 })

    others_keep : (s : MintState N) → holds s.network → holds (options.meanwhile s).network
    unfolding IsKept
    others_keep = kept.1

    fetch_keysets-network :
        (refreshed : Bool) (s : MintState N)
        → (fetch_keysets options origin refreshed s).1.network ≡ (answered_state s).network
    unfolding fetch_keysets request
    fetch_keysets-network refreshed s =
        let fetched = (options.fetch (origin ++ text "/v1/keys") none s.network).0 in
        elim (MintAnswer-cases (payload_of options fetched)) [
          | inr (reason, e) ↦ ground (arith, e)
          | inl (payload, e) ↦
              ground (arith, e, MintAnswer-cases (parse_keysets options.platform payload))
        ]

    keys_kept : (s : MintState N) → holds s.network → holds (answered_state s).network
    unfolding IsKept IsMintUrl
    keys_kept s h =
        kept.1 (record s { network = (options.fetch (origin ++ text "/v1/keys") none s.network).1 })
          (kept.0 (origin ++ text "/v1/keys") none s.network (origin, listed, inl refl) h)

    load_keysets-network :
        (refreshed : Bool) (s : MintState N)
        → ((load_keysets options origin refreshed s).1.network ≡ s.network)
          ⊎ ((load_keysets options origin refreshed s).1.network ≡ (answered_state s).network)
    unfolding load_keysets
    load_keysets-network refreshed s =
        let fetched = fetch_keysets-network refreshed s in
        elim (Option-cases (get origin s.cache)) [
          | inl e ↦ inr (ground (arith, e, fetched))
          | inr (c, e) ↦ elim (Bool-cases (ltb s.now c.expires_at)) [
            | inl x ↦ inl (ground (arith, e, x))
            | inr x ↦ inr (ground (arith, e, x, fetched))
          ]
        ]

    load_keysets-keeps :
        (refreshed : Bool) (s : MintState N)
        → holds s.network
        → holds (load_keysets options origin refreshed s).1.network
    load_keysets-keeps refreshed s h = elim (load_keysets-network refreshed s) [
      | inl e ↦ subst holds (sym e) h
      | inr e ↦ subst holds (sym e) (keys_kept s h)
    ]

    get_key_at-network :
        (id : Text) (amount : ℕ) (s : MintState N)
        → let s1 = options.meanwhile (load_keysets options origin false s).1 in
          ((get_key_at options origin id amount s).1 ≡ s1)
          ⊎ ((get_key_at options origin id amount s).1
              ≡ (load_keysets options origin true (record s1 { cache = delete origin s1.cache })).1)
    unfolding get_key_at
    get_key_at-network id amount s =
        let s1 = options.meanwhile (load_keysets options origin false s).1 in
        elim (MintAnswer-cases (load_keysets options origin false s).0) [
          | inr (reason, e) ↦ inl (ground (arith, e))
          | inl (keysets, e) ↦ elim (Option-cases (get id keysets)) [
            | inr (found, f) ↦ inl (ground (arith, e, f))
            | inl f ↦ elim (Bool-cases (may_refetch options (get origin s1.cache))) [
              | inl m ↦ inr (ground (arith, e, f, m))
              | inr m ↦ inl (ground (arith, e, f, m))
            ]
          ]
        ]

    get_key_at-keeps :
        (id : Text) (amount : ℕ) (s : MintState N)
        → holds s.network
        → holds (get_key_at options origin id amount s).1.network
    get_key_at-keeps id amount s h =
        let s0 = (load_keysets options origin false s).1 in
        let s1 = options.meanwhile s0 in
        let first = others_keep s0 (load_keysets-keeps false s h) in
        elim (get_key_at-network id amount s) [
          | inl e ↦ subst (λ x. holds x.network) (sym e) first
          | inr e ↦
              subst (λ x. holds x.network) (sym e)
                (load_keysets-keeps true (record s1 { cache = delete origin s1.cache }) first)
        ]

    check_state_at-keeps :
        (y : Text) (s : MintState N)
        → holds s.network
        → holds (check_state_at options origin y s).1.network
    unfolding check_state_at request IsKept IsMintUrl
    check_state_at-keeps y s h =
        let url = origin ++ text "/v1/checkstate" in
        let body = some (check_body options y) in
        kept.1 (record s { network = (options.fetch url body s.network).1 })
          (kept.0 url body s.network (origin, listed, inr refl) h)

  -- The client asks nothing but the keysets and the state checks of mints that the operator lists:
  -- what holds of the network, and such requests keep true, holds after `getKey` and `checkState`,
  -- whatever URL a credential names and whatever other calls that keep it run while these wait.
  pub get_key-IsKept :
      (holds : N → Type 0) (mint_url id secret : Text) (amount : ℕ) (s : MintState N)
      → IsKept holds
      → holds s.network
      → holds (get_key options mint_url id amount s).1.network
        × holds (check_state options mint_url secret s).1.network
  unfolding get_key check_state
  get_key-IsKept holds mint_url id secret amount s kept h =
      let origins = options.mint_origins in
      elim (Option-cases (resolve_mint options.platform.url_parse origins mint_url)) [
        | inl e ↦ rw (e, get_key, check_state) (h, h)
        | inr (origin, e) ↦
            let listed = resolve_mint-listed options.platform.url_parse origins mint_url origin e in
            (
              rw (e, get_key) (get_key_at-keeps holds kept origin listed id amount s h),
              elim (Option-cases (proof_y options.platform secret)) [
                | inl f ↦ rw (e, f, check_state) h
                | inr (y, f) ↦
                    rw (e, f, check_state) (check_state_at-keeps holds kept origin listed y s h)
              ],
            )
      ]
