-- ===== src/Server/Audience/Allowed.antt =====
-- Which audiences the host allowlist of packages/nap-server/src/audience.ts lets through.
use nap.Base.{
  ◌≡◌, ◌≢◌, ◌⊎◌, inl, inr, true, false, not, ◌||◌, ap, some, List, [], ◌∷◌, ◌++◌, arith, length,
  eqb, or_default, Bool-cases,
}
use nap.Text.{Text, text, ◌==◌, is_empty, trim, to_lower_case, ends_with, has_unit}
use nap.Server.Audience.{
  AllowedHost, has_dot, is_allowed_scheme, parse_host, parse_entry, parse_entries, matches,
  find_match, base_url_of,
}

-- The entry is of the list.
pub data IsListed (e : Text) : List Text → Type 0 where
  here : {es : List Text} → IsListed e (e ∷ es)
  later : {d : Text} {es : List Text} → IsListed e es → IsListed e (d ∷ es)

ends_with-prefix :
    (suffix s : Text) → ends_with suffix s ≡ true → (start : Text) × (s ≡ start ++ suffix)
unfolding ends_with
ends_with-prefix suffix [] h = ([], ground arith)
ends_with-prefix suffix (c ∷ cs) h = elim (Bool-cases ((c ∷ cs) == suffix)) [
  | inl same ↦ ([], ground arith)
  | inr other ↦
      let (start, e) = ends_with-prefix suffix cs (ground arith) in (c ∷ start, ground (arith, e))
]

-- A host that an entry lets through: the entry's own, or one below it where the entry is a wildcard,
-- whose suffix has a dot.
abbrev pub IsUnder : AllowedHost → Text → Type 0
IsUnder a host =
    (host ≡ a.host)
    ⊎ ((a.wildcard ≡ true)
        × (has_dot a.host ≡ true)
        × (sub : Text) × (sub ≢ [])
        × (host ≡ sub ++ (text "." ++ a.host)))

-- The host and the scheme of a parsed entry.
pub record IsHost (a : AllowedHost) : Type 0 where
  pub given : is_empty a.host ≡ false
  pub plain : has_unit (λ c. eqb c b'*') a.host ≡ false
  pub scheme : is_allowed_scheme a.scheme ≡ true
  pub broad : (not a.wildcard || has_dot a.host) ≡ true

parse_entry-IsHost : (e : Text) (a : AllowedHost) → parse_entry e ≡ some a → IsHost a
unfolding parse_entry parse_host
parse_entry-IsHost e a h = record {
  given = ground arith;
  plain = ground arith;
  scheme = ground arith;
  broad = ground arith;
}

matches-IsUnder :
    (a : AllowedHost) (host : Text) → IsHost a → matches a host ≡ true → IsUnder a host
unfolding matches
matches-IsUnder a host i h = elim (Bool-cases a.wildcard) [
  | inr exact ↦ inl (ground arith)
  | inl wild ↦
      let (sub, e) = ends_with-prefix (text "." ++ a.host) host (ground arith) in
      inr (wild, ground (arith, i.broad), sub, λ z. ground (arith, ap length e, z), e)
]

find_match-matches :
    (allowed : List AllowedHost) (host : Text) (a : AllowedHost)
    → find_match allowed host ≡ some a
    → matches a host ≡ true
unfolding find_match
find_match-matches [] host a h = cc
find_match-matches (b ∷ others) host a h = ground (arith, find_match-matches others host a)

-- What a listed entry parses to.
abbrev pub IsParsed : List Text → AllowedHost → Type 0
IsParsed entries a = (e : Text) × IsListed e entries × (parse_entry e ≡ some a)

parse_entries-first :
    (e : Text) (es : List Text) (allowed : List AllowedHost)
    → parse_entries (e ∷ es) ≡ some allowed
    → (b : AllowedHost) × (others : List AllowedHost) × (allowed ≡ b ∷ others)
      × (parse_entry e ≡ some b)
      × (parse_entries es ≡ some others)
unfolding parse_entries
parse_entries-first e es allowed h = ground arith

find_match-IsParsed :
    (entries : List Text) (allowed : List AllowedHost) (host : Text) (a : AllowedHost)
    → parse_entries entries ≡ some allowed
    → find_match allowed host ≡ some a
    → IsParsed entries a
unfolding find_match parse_entries
find_match-IsParsed [] [] host a p h = cc
find_match-IsParsed [] (b ∷ others) host a p h = cc
find_match-IsParsed (e ∷ es) allowed host a p h =
    let (b, others, split, parsed, rest) = parse_entries-first e es allowed p in
    elim (Bool-cases (matches b host)) [
      | inl yes' ↦ (e, here, ground (arith, parsed, split))
      | inr no' ↦
          let (d, listed, q) = find_match-IsParsed es others host a rest (ground (arith, split)) in
          (d, later listed, q)
    ]

base_url_of-match :
    (allowed : List AllowedHost) (host protocol url : Text)
    → base_url_of allowed (some host) protocol ≡ some url
    → (a : AllowedHost) × (find_match allowed (to_lower_case (trim host)) ≡ some a)
      × (url ≡ or_default a.scheme protocol ++ (text "://" ++ to_lower_case (trim host)))
unfolding base_url_of
base_url_of-match allowed host protocol url h = ground arith

-- An audience that the allowlist gives has the request's host, which an entry of the list lets
-- through: it is the entry's own host, or ends in a dot and the host of a wildcard entry, which has a
-- dot; and it has the entry's scheme, http or https, where the entry names one.
pub base_url_of-IsUnder :
    (entries : List Text) (allowed : List AllowedHost) (host protocol url : Text)
    → parse_entries entries ≡ some allowed
    → base_url_of allowed (some host) protocol ≡ some url
    → (a : AllowedHost) × IsParsed entries a
      × IsUnder a (to_lower_case (trim host))
      × (is_allowed_scheme a.scheme ≡ true)
      × (url ≡ or_default a.scheme protocol ++ (text "://" ++ to_lower_case (trim host)))
base_url_of-IsUnder entries allowed host protocol url p h =
    let normalized = to_lower_case (trim host) in
    let (a, found, told) = base_url_of-match allowed host protocol url h in
    let (e, listed, parsed) = find_match-IsParsed entries allowed normalized a p found in
    let i = parse_entry-IsHost e a parsed in
    (
      a,
      (e, listed, parsed),
      matches-IsUnder a normalized i (find_match-matches allowed normalized a found),
      i.scheme,
      told,
    )
