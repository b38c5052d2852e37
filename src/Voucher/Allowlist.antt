-- ===== src/Voucher/Allowlist.antt =====
-- packages/nap-voucher/src/allowlist.ts. `none` stands for an error that is thrown.
use nap.Base.{
  ℕ, Bool, true, not, ◌&&◌, ◌||◌, Option, none, some, List, [], ◌∷◌, ◌++◌, if◌then◌else◌, leb, eqb,
  length, map, ◌>>=◌,
}
use nap.Text.{Text, text, ◌==◌, is_empty, includes, trim, to_lower_case, has_unit}
use nap.Voucher.Platform.{Url}

abbrev pub is_hex_unit : ℕ → Bool
is_hex_unit c = (leb b'0' c && leb c b'9') || (leb b'a' c && leb c b'f')

-- `/^[0-9a-f]{n}$/`
unfoldable pub is_hex : ℕ → Text → Bool
is_hex n s = eqb (length s) n && not (has_unit (λ c. not (is_hex_unit c)) s)

pub record AllowedIssuer : Type 0 where
  pub mint : Text
  pub issuer_pubkey : Text

-- No member occurs twice: `new Set(list).size === list.length`.
unfoldable pub is_distinct : List Text → Bool
is_distinct [] = true
is_distinct (t ∷ ts) = not (includes t ts) && is_distinct ts

abbrev pub issuer_key : Text → Text → Text
issuer_key mint issuer_pubkey = mint ++ (text "|" ++ issuer_pubkey)

unfoldable pub keys_of : List AllowedIssuer → List Text
keys_of entries = map (λ e. issuer_key e.mint e.issuer_pubkey) entries

-- `IssuerAllowlist.allows`
unfoldable pub allows : List AllowedIssuer → Text → Text → Bool
allows entries mint_origin issuer_pubkey =
    includes (issuer_key (to_lower_case mint_origin) (to_lower_case (trim issuer_pubkey)))
      (keys_of entries)

module _ (url_parse : Text → Option Url) where
  abbrev is_bare_origin : Url → Bool
  is_bare_origin url =
      url.protocol == text "https:"
      && is_empty url.username
      && is_empty url.password
      && url.pathname == text "/"
      && is_empty url.search
      && is_empty url.hash

  -- `parseMintEntry`, of which the list uses the origin.
  unfoldable pub parse_mint_entry : Text → Option Text
  parse_mint_entry entry =
      let raw = trim entry in
      if is_empty raw || has_unit (λ c. eqb c b'*') raw then none else (do
        url ← url_parse raw
        if is_bare_origin url then some (to_lower_case url.origin) else none)

  -- `canonicalizeMintUrl`
  unfoldable pub canonicalize_mint_url : Text → Option Text
  canonicalize_mint_url mint_url = if is_empty (trim mint_url) then none else (do
    url ← url_parse (trim mint_url)
    if url.protocol == text "https:" && is_empty url.username && is_empty url.password
        then some (to_lower_case url.origin)
        else none)

  unfoldable pub parse_mint_entries : List Text → Option (List Text)
  parse_mint_entries [] = some []
  parse_mint_entries (e ∷ es) = do o ← parse_mint_entry e; os ← parse_mint_entries es; some (o ∷ os)

  -- `createMintAllowlist`: the origins.
  unfoldable pub create_mint_allowlist : List Text → Option (List Text)
  create_mint_allowlist [] = none
  create_mint_allowlist (e ∷ es) = do
    origins ← parse_mint_entries (e ∷ es)
    if is_distinct origins then some origins else none

  -- `MintAllowlist.resolve`
  unfoldable pub resolve_mint : List Text → Text → Option Text
  resolve_mint origins mint_url = do
    candidate ← canonicalize_mint_url mint_url
    if is_empty candidate
        then none
        else (if includes candidate origins then some candidate else none)

  unfoldable pub parse_issuer_entry : List Text → AllowedIssuer → Option AllowedIssuer
  parse_issuer_entry origins entry = do
    mint ← resolve_mint origins entry.mint
    let issuer_pubkey = to_lower_case (trim entry.issuer_pubkey) in
        if is_hex 64 issuer_pubkey
        then some (record { mint = mint; issuer_pubkey = issuer_pubkey })
        else none

  unfoldable pub parse_issuer_entries : List Text → List AllowedIssuer → Option (List AllowedIssuer)
  parse_issuer_entries origins [] = some []
  parse_issuer_entries origins (e ∷ es) = do
    a ← parse_issuer_entry origins e
    others ← parse_issuer_entries origins es
    some (a ∷ others)

  -- `createIssuerAllowlist`: the entries.
  unfoldable pub create_issuer_allowlist :
      List Text → List AllowedIssuer → Option (List AllowedIssuer)
  create_issuer_allowlist origins [] = none
  create_issuer_allowlist origins (e ∷ es) = do
    entries ← parse_issuer_entries origins (e ∷ es)
    if is_distinct (keys_of entries) then some entries else none
