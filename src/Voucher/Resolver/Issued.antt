-- ===== src/Voucher/Resolver/Issued.antt =====
-- What a voucher says, and that an issuer has signed it: packages/nap-voucher/src/secret.ts and the
-- issuer checks of resolver.ts and allowlist.ts.
use nap.Base.{
  eqb, subst, ◌>>=◌, ◌≡◌, ◌⊎◌, inl, inr, refl, true, ◌++◌, Option, none, some, List, [], ◌∷◌, arith,
  IsMember, here, later, Option-cases, Bool-cases,
}
use nap.Text.{Text, text, ◌==◌, ==_iff, includes, trim, to_lower_case, lower_unit, strip_prefix}
use nap.Core.Json.{property, text_property}
use nap.Voucher.Platform.{VoucherPlatform}
use nap.Voucher.Allowlist.{AllowedIssuer, issuer_key, keys_of, allows}
use nap.Voucher.Secret.{
  kind_of, nonce_of, kind_and_body, tags_of, VoucherKind, voucher, p2pk_voucher, tag_value,
  secret_of, parse_voucher_secret, ParsedVoucherSecret, voucher_canonical_bytes,
}
use nap.Voucher.Resolver.{is_compressed, x_only, verify_issuer_signature}

-- An issuer's signature under its key, which its `issuer_pubkey` writes as 32 bytes or compressed.
pub record IsSigned {P : Type 0} (platform : VoucherPlatform P) (secret : ParsedVoucherSecret)
    (issuer : Text) : Type 0 where
  pub signature : Text
  pub given : secret.issuer_sig ≡ some signature
  pub prefix : Text
  pub known : (prefix ≡ []) ⊎ ((prefix ≡ text "02") ⊎ (prefix ≡ text "03"))
  pub key : Text
  pub written : issuer ≡ prefix ++ key
  pub verified :
      platform.schnorr_verify
        (platform.hex_bytes signature)
        (platform.sha256 (voucher_canonical_bytes platform secret))
        (platform.hex_bytes key)
      ≡ true

-- A key that is compressed in lower case begins so in either case.
compressed_given :
    (key : Text)
    → is_compressed (to_lower_case key) ≡ true
    → (key ≡ text "02" ++ x_only key) ⊎ (key ≡ text "03" ++ x_only key)
unfolding to_lower_case strip_prefix lower_unit
compressed_given [] h = ground (arith, h)
compressed_given (a ∷ []) h = ground (arith, h)
compressed_given (a ∷ b ∷ rest) h = elim (Bool-cases (eqb 50 b)) [
  | inl two ↦ inl (ground (arith, h, two))
  | inr other ↦ inr (ground (arith, h, other))
]

pub verify_issuer_signature-IsSigned :
    {P : Type 0} (platform : VoucherPlatform P) (secret : ParsedVoucherSecret) (issuer : Text)
    → secret.issuer_pubkey ≡ some issuer
    → verify_issuer_signature platform secret ≡ true
    → IsSigned platform secret issuer
unfolding verify_issuer_signature
verify_issuer_signature-IsSigned platform secret issuer e h =
    elim (Option-cases secret.issuer_sig) [
      | inl none_given ↦ ground (arith, none_given, h)
      | inr (signature, given) ↦ elim (Bool-cases (is_compressed (to_lower_case issuer))) [
        | inr plain ↦ record {
          signature = signature;
          given = given;
          prefix = [];
          known = inl refl;
          key = issuer;
          written = refl;
          verified = ground (arith, e, h, given, plain);
        }
        | inl c ↦ elim (compressed_given issuer c) [
          | inl two ↦ record {
            signature = signature;
            given = given;
            prefix = text "02";
            known = inr (inl refl);
            key = x_only issuer;
            written = two;
            verified = ground (arith, e, h, given, c);
          }
          | inr three ↦ record {
            signature = signature;
            given = given;
            prefix = text "03";
            known = inr (inr refl);
            key = x_only issuer;
            written = three;
            verified = ground (arith, e, h, given, c);
          }
        ]
      ]
    ]

-- The operator lists the issuer for the mint.
abbrev pub IsListedIssuer : List AllowedIssuer → Text → Text → Type 0
IsListedIssuer issuers mint issuer =
    (entry : AllowedIssuer) × IsMember entry issuers
    × (entry.mint ++ (text "|" ++ entry.issuer_pubkey)
        ≡ to_lower_case mint ++ (text "|" ++ to_lower_case (trim issuer)))

key_of-member :
    (issuers : List AllowedIssuer) (key : Text)
    → includes key (keys_of issuers) ≡ true
    → (entry : AllowedIssuer) × IsMember entry issuers
      × (issuer_key entry.mint entry.issuer_pubkey ≡ key)
unfolding keys_of includes
key_of-member [] key h = ground (arith, h)
key_of-member (e ∷ es) key h = elim (Bool-cases (issuer_key e.mint e.issuer_pubkey == key)) [
  | inl same ↦ (e, here, (==_iff (issuer_key e.mint e.issuer_pubkey) key).0 same)
  | inr other ↦
      let (entry, member, named) = key_of-member es key (ground (arith, h, other)) in
      (entry, later member, named)
]

pub allows-IsListedIssuer :
    (issuers : List AllowedIssuer) (mint issuer : Text)
    → allows issuers mint issuer ≡ true
    → IsListedIssuer issuers mint issuer
unfolding allows
allows-IsListedIssuer issuers mint issuer h =
    key_of-member issuers (issuer_key (to_lower_case mint) (to_lower_case (trim issuer))) h

-- The lock of a voucher is its data where it is of the locked kind, and its expiry is what its tag says.
pub record IsRead {P : Type 0} (platform : VoucherPlatform P) (secret : ParsedVoucherSecret)
    : Type 0 where
  pub lock :
      ((secret.kind ≡ p2pk_voucher) × (secret.lock_key ≡ some secret.data_text))
      ⊎ ((secret.kind ≡ voucher) × (secret.lock_key ≡ none))
  pub expiry :
      secret.expires_at ≡ (tag_value (text "expires_at") secret.tags >>= platform.parse_number)
  pub issuer : secret.issuer_pubkey ≡ tag_value (text "issuer_pubkey") secret.tags
  pub signature : secret.issuer_sig ≡ tag_value (text "issuer_sig") secret.tags

secret_of-IsRead :
    {P : Type 0} (platform : VoucherPlatform P) (kind : VoucherKind) (nonce : Option Text)
    (data_text : Text) (tags : List (List Text))
    → IsRead platform (secret_of platform kind nonce data_text tags)
unfolding secret_of
secret_of-IsRead platform voucher salt data_text tags = record {
  lock = inr (refl, refl);
  expiry = refl;
  issuer = refl;
  signature = refl;
}
secret_of-IsRead platform p2pk_voucher salt data_text tags = record {
  lock = inl (refl, refl);
  expiry = refl;
  issuer = refl;
  signature = refl;
}

parse_voucher_secret-made :
    {P : Type 0} (platform : VoucherPlatform P) (given : Text) (secret : ParsedVoucherSecret)
    → parse_voucher_secret platform given ≡ some secret
    → (kind : VoucherKind) × (nonce : Option Text) × (data_text : Text) × (tags : List (List Text))
      × (secret_of platform kind nonce data_text tags ≡ secret)
unfolding parse_voucher_secret
parse_voucher_secret-made platform given secret h =
    elim (Option-cases (platform.json_parse given)) [
      | inl e ↦ ground (arith, e, h)
      | inr (decoded, e) ↦ elim (Option-cases (kind_and_body decoded)) [
        | inl f ↦ ground (arith, e, f, h)
        | inr ((kind_json, body), f) ↦ elim (Option-cases (kind_of kind_json)) [
          | inl k ↦ ground (arith, e, f, k, h)
          | inr (kind, k) ↦ elim (Option-cases (nonce_of (property (text "nonce") body))) [
            | inl n ↦ ground (arith, e, f, k, n, h)
            | inr (nonce, n) ↦ elim (Option-cases (text_property (text "data") body)) [
              | inl d ↦ ground (arith, e, f, k, n, d, h)
              | inr (data_text, d) ↦
                  elim (Option-cases (tags_of platform (property (text "tags") body))) [
                    | inl t ↦ ground (arith, e, f, k, n, d, t, h)
                    | inr (tags, t) ↦
                        (kind, nonce, data_text, tags, ground (arith, e, f, k, n, d, t, h))
                  ]
            ]
          ]
        ]
      ]
    ]

pub parse_voucher_secret-IsRead :
    {P : Type 0} (platform : VoucherPlatform P) (given : Text) (secret : ParsedVoucherSecret)
    → parse_voucher_secret platform given ≡ some secret
    → IsRead platform secret
parse_voucher_secret-IsRead platform given secret h =
    let (kind, nonce, data_text, tags, e) = parse_voucher_secret-made platform given secret h in
    subst (IsRead platform) e (secret_of-IsRead platform kind nonce data_text tags)
