-- ===== src/Voucher/Resolver/Checks.antt =====
-- What the checks of packages/nap-voucher/src/resolver.ts and allowlist.ts mean, in terms of the texts,
-- times and lists that they look at.
use nap.Base.{
  eqb, ℕ, ◌≤◌, ◌<◌, ◌≡◌, ◌⊎◌, inl, inr, refl, true, false, not, ◌++◌, Option, none, some, List, [],
  ◌∷◌, arith, length, All, Option-cases, Bool-cases,
}
use nap.Text.{Text, text, ==_iff, includes, trim, to_lower_case, strip_prefix, has_unit}
use nap.Voucher.Platform.{Url}
use nap.Voucher.Allowlist.{is_hex, is_hex_unit, resolve_mint, canonicalize_mint_url}
use nap.Voucher.Availability.{Grant}
use nap.Voucher.Resolver.{
  RegistryKeys, is_compressed, x_only, lock_key_matches_pubkey, declares, is_declared,
  is_expired_at,
}

-- A digit from 0 to 9 or a letter from a to f.
abbrev pub IsHexDigit : ℕ → Type 0
IsHexDigit c = ((b'0' ≤ c) × (c ≤ b'9')) ⊎ ((b'a' ≤ c) × (c ≤ b'f'))

-- So many lower-case hexadecimal digits.
abbrev pub IsHex : ℕ → Text → Type 0
IsHex n s = (length s ≡ n) × All IsHexDigit s

has_unit-All : (s : Text) → has_unit (λ c. not (is_hex_unit c)) s ≡ false → All IsHexDigit s
unfolding has_unit
has_unit-All [] h = tt
has_unit-All (c ∷ cs) h =
    (ground (arith, h, Bool-cases (is_hex_unit c)), has_unit-All cs (ground (arith, h)))

is_hex-IsHex : (n : ℕ) (s : Text) → is_hex n s ≡ true → IsHex n s
unfolding is_hex
is_hex-IsHex n s h = (ground (arith, h), has_unit-All s (ground (arith, h)))

-- The lock names the key as 32 bytes or in its compressed form, which a `02` or a `03` precedes.
pub record IsLockedTo (lock pubkey : Text) : Type 0 where
  pub key : IsHex 64 (to_lower_case (trim pubkey))
  pub same :
      (to_lower_case (trim lock) ≡ to_lower_case (trim pubkey))
      ⊎ ((to_lower_case (trim lock) ≡ text "02" ++ to_lower_case (trim pubkey))
          ⊎ (to_lower_case (trim lock) ≡ text "03" ++ to_lower_case (trim pubkey)))

compressed :
    (key : Text)
    → is_compressed key ≡ true
    → (key ≡ text "02" ++ x_only key) ⊎ (key ≡ text "03" ++ x_only key)
unfolding strip_prefix
compressed [] h = ground (arith, h)
compressed (a ∷ []) h = ground (arith, h)
compressed (a ∷ b ∷ rest) h = elim (Bool-cases (eqb 50 b)) [
  | inl two ↦ inl (ground (arith, h, two))
  | inr other ↦ inr (ground (arith, h, other))
]

pub lock_key_matches_pubkey-IsLockedTo :
    (lock pubkey : Text) → lock_key_matches_pubkey lock pubkey ≡ true → IsLockedTo lock pubkey
unfolding lock_key_matches_pubkey
lock_key_matches_pubkey-IsLockedTo lock pubkey h =
    let l = to_lower_case (trim lock) in
    let p = to_lower_case (trim pubkey) in
    record {
      key = is_hex-IsHex 64 p (ground (arith, h));
      same = elim (Bool-cases (is_compressed l)) [
        | inl c ↦
            let e : x_only l ≡ p = (==_iff (x_only l) p).0 (ground (arith, h, c)) in
            elim (compressed l c) [
              | inl two ↦ inr (inl (ground (arith, two, e)))
              | inr three ↦ inr (inr (ground (arith, three, e)))
            ]
        | inr c ↦ inl ((==_iff l p).0 (ground (arith, h, c)))
      ];
    }

-- The mint is the origin of an https URL, and the operator lists it.
pub record IsAllowedMint (url_parse : Text → Option Url) (origins : List Text) (given mint : Text)
    : Type 0 where
  pub url : Url
  pub parsed : url_parse (trim given) ≡ some url
  pub secure : url.protocol ≡ text "https:"
  pub origin : mint ≡ to_lower_case url.origin
  pub listed : includes mint origins ≡ true

pub resolve_mint-IsAllowedMint :
    (url_parse : Text → Option Url) (origins : List Text) (given mint : Text)
    → resolve_mint url_parse origins given ≡ some mint
    → IsAllowedMint url_parse origins given mint
unfolding resolve_mint canonicalize_mint_url
resolve_mint-IsAllowedMint url_parse origins given mint h =
    elim (Option-cases (url_parse (trim given))) [
      | inl e ↦ ground (arith, e, h)
      | inr (url, e) ↦
          let same : mint ≡ to_lower_case url.origin = ground (arith, e, h) in
          record {
            url = url;
            parsed = e;
            secure = (==_iff url.protocol (text "https:")).0 (ground (arith, e, h));
            origin = same;
            listed = ground (arith, e, h, same);
          }
    ]

-- The voucher does not expire, or later than now.
abbrev pub IsValidAt : ℕ → Option ℕ → Type 0
IsValidAt now expires_at = (expires_at ≡ none) ⊎ ((at : ℕ) × (expires_at ≡ some at) × (now < at))

pub is_expired_at-IsValidAt :
    (now : ℕ) (expires_at : Option ℕ)
    → is_expired_at now expires_at ≡ false
    → IsValidAt now expires_at
is_expired_at-IsValidAt now none h = inl refl
is_expired_at-IsValidAt now (some at) h = inr (at, refl, ground (arith, h))

-- There is no registry, or it declares every permission and role that is granted.
abbrev pub IsDeclared : Option RegistryKeys → Grant → Type 0
IsDeclared registry g =
    (registry ≡ none)
    ⊎ ((keys : RegistryKeys) × (registry ≡ some keys)
        × All (λ p. includes p keys.permissions ≡ true) g.permissions
        × All (λ r. includes r keys.roles ≡ true) g.roles)

declares-All :
    (declared keys : List Text)
    → declares declared keys ≡ true
    → All (λ k. includes k declared ≡ true) keys
unfolding declares
declares-All declared [] h = tt
declares-All declared (k ∷ keys) h =
    (ground (arith, h), declares-All declared keys (ground (arith, h)))

pub is_declared-IsDeclared :
    (registry : Option RegistryKeys) (g : Grant)
    → is_declared registry g ≡ true
    → IsDeclared registry g
is_declared-IsDeclared none g h = inl refl
is_declared-IsDeclared (some keys) g h = inr (
  keys,
  refl,
  declares-All keys.permissions g.permissions (ground (arith, h)),
  declares-All keys.roles g.roles (ground (arith, h)),
)
