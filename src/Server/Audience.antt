-- ===== src/Server/Audience.antt =====
-- `createAudienceHostAllowlist` of packages/nap-server/src/audience.ts. `none` stands for an error
-- that is thrown.
pub mod Allowed
use nap.Base.{
  ℕ, suc, ◌+◌, Bool, true, false, not, ◌&&◌, ◌||◌, Option, none, some, List, [], ◌∷◌, ◌++◌,
  if◌then◌else◌, ltb, leb, eqb, or_default, is_some, length, ◌>>=◌,
}
use nap.Text.{
  Text, text, ◌==◌, is_empty, is_space, trim, to_lower_case, strip_prefix, starts_with, ends_with,
  has_unit, truthy,
}

pub record AllowedHost : Type 0 where
  pub host : Text
  pub scheme : Option Text
  pub wildcard : Bool

abbrev is_letter : ℕ → Bool
is_letter c = leb b'a' c && leb c b'z'

-- `[a-z0-9+.-]`
abbrev is_scheme_unit : ℕ → Bool
is_scheme_unit c =
    is_letter c || (leb b'0' c && leb c b'9') || eqb c b'+' || eqb c b'.' || eqb c b'-'

-- The longest prefix of such units, and the rest.
unfoldable pub span_scheme : Text → Text × Text
span_scheme [] = ([], [])
span_scheme (c ∷ cs) =
    let (taken, rest) = span_scheme cs in
    if is_scheme_unit c then (c ∷ taken, rest) else ([], c ∷ cs)

-- `/^([a-z][a-z0-9+.-]*):\/\//`: the scheme, and what follows the match.
unfoldable pub match_scheme : Text → Option (Text × Text)
match_scheme [] = none
match_scheme (c ∷ cs) =
    let (taken, rest) = span_scheme cs in
    if is_letter c then (do host ← strip_prefix (text "://") rest; some (c ∷ taken, host)) else none

-- `/[/?#@\s]/`
abbrev is_url_unit : ℕ → Bool
is_url_unit c = eqb c b'/' || eqb c b'?' || eqb c b'#' || eqb c b'@' || is_space c

abbrev split_scheme : Text → Option Text × Text
split_scheme raw = elim (match_scheme raw) [
  | none ↦ (none, raw)
  | some (scheme, host) ↦ (some scheme, host)
]

abbrev pub is_allowed_scheme : Option Text → Bool
is_allowed_scheme none = true
is_allowed_scheme (some scheme) = scheme == text "http" || scheme == text "https"

abbrev split_wildcard : Text → Bool × Text
split_wildcard host = elim (strip_prefix (text "*.") host) [
  | none ↦ (false, host)
  | some bare ↦ (true, bare)
]

abbrev pub has_dot : Text → Bool
has_dot = has_unit (λ c. eqb c b'.')

-- The checks on the host of an entry.
unfoldable pub parse_host : Option Text → Text → Option AllowedHost
parse_host scheme host =
    let (wildcard, bare) = split_wildcard host in
    if is_allowed_scheme scheme
      && not (has_unit is_url_unit host)
      && not (is_empty bare)
      && not (has_unit (λ c. eqb c b'*') bare)
      && (not wildcard || has_dot bare)
    then some (record { host = bare; scheme = scheme; wildcard = wildcard })
    else none

unfoldable pub parse_entry : Text → Option AllowedHost
parse_entry entry =
    let raw = to_lower_case (trim entry) in
    let (scheme, host) = split_scheme raw in if is_empty raw then none else parse_host scheme host

unfoldable pub matches : AllowedHost → Text → Bool
matches allowed host =
    if allowed.wildcard
    then ends_with (text "." ++ allowed.host) host && ltb (length allowed.host + 1) (length host)
    else host == allowed.host

unfoldable pub find_match : List AllowedHost → Text → Option AllowedHost
find_match [] host = none
find_match (a ∷ others) host =
    let rest = find_match others host in if matches a host then some a else rest

-- `allowedHosts.map(parseEntry)`
unfoldable pub parse_entries : List Text → Option (List AllowedHost)
parse_entries [] = some []
parse_entries (e ∷ es) = do a ← parse_entry e; others ← parse_entries es; some (a ∷ others)

-- The function that an allowlist becomes.
unfoldable pub base_url_of : List AllowedHost → Option Text → Text → Option Text
base_url_of allowed none protocol = none
base_url_of allowed (some host) protocol =
    let normalized = to_lower_case (trim host) in
    if is_empty host then none else (do
      entry ← find_match allowed normalized
      some (or_default entry.scheme protocol ++ (text "://" ++ normalized)))

unfoldable pub create_audience_host_allowlist :
    List Text → Option (Option Text → Text → Option Text)
create_audience_host_allowlist [] = none
create_audience_host_allowlist (e ∷ es) = do
  allowed ← parse_entries (e ∷ es)
  some (base_url_of allowed)
