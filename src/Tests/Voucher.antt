-- ===== src/Tests/Voucher.antt =====
-- The theorems on vouchers, with the toy curve, a mint that counts its requests, and a JSON parser that
-- knows one secret.
use nap.Base.{
  ℕ, All, subst, or_default, ap, ◌+◌, ◌≡◌, ◌⊎◌, refl, Bool, true, false, none, some, List, [], ◌∷◌,
  if◌then◌else◌,
}
use nap.Text.{Text, text, ◌==◌, includes}
use nap.Core.Types.{AclDecision, VoucherCredential}
use nap.Core.Json.{Json, str, arr, obj, nil, cons, end, field}
use nap.Core.Json
use nap.Voucher.Platform.{Url, VoucherPlatform}
use nap.Voucher.Allowlist.{AllowedIssuer}
use nap.Voucher.Allowlist
use nap.Voucher.Secret
use nap.Voucher.Dleq
use nap.Voucher.Dleq.{DleqProof, verify_proof_dleq}
use nap.Voucher.Dleq.Honest.{ReadsPoints, IsHonest, verify_proof_dleq_honest}
use nap.Voucher.Availability.{Grant, deny, MintAvailabilityPolicyOptions}
use nap.Voucher.Availability
use nap.Voucher.Resolver
use nap.Voucher.Resolver.{
  VoucherOptions, VoucherWorld, MintClient, answered, unspent_state, MissingCredential, Vetted,
  resolve_credential, granted, VoucherCode,
}
use nap.Voucher.Resolver.Offline.{IsVetted}
use nap.Voucher.Resolver.Sound.{IsConfirmed}
use nap.Voucher.Resolver.Degraded.{resolve_credential-IsConfirmed}
use nap.Voucher.Resolver.Contact.{IsKept, resolve_credential-asks}
use nap.Tests.Curve.{two_points, two_points-IsGroup}
use nap.Tests.Curve

abbrev key : Text
key = text "aaaaaaaaaaaaaaaaaaaaaaaaaaaaaaaaaaaaaaaaaaaaaaaaaaaaaaaaaaaaaaaa"

abbrev issuer_sig : Text
issuer_sig =
    text
      "aaaaaaaaaaaaaaaaaaaaaaaaaaaaaaaaaaaaaaaaaaaaaaaaaaaaaaaaaaaaaaaaaaaaaaaaaaaaaaaaaaaaaaaaaaaaaaaaaaaaaaaaaaaaaaaaaaaaaaaaaaaaaaaa"

abbrev ones : Text
ones = text "1111111111111111111111111111111111111111111111111111111111111111"

abbrev twos : Text
twos = text "2222222222222222222222222222222222222222222222222222222222222222"

abbrev tag : Text → Text → Json
tag name value = arr (cons (str name) (cons (str value) nil))

abbrev secret_json : Json
secret_json = arr (
    cons (str (text "P2PK_VOUCHER")) (
      cons
        (obj (
          field (text "data") (str key) (
            field (text "tags")
              (arr (
                cons (tag (text "issuer_pubkey") key)
                  (cons (tag (text "issuer_sig") issuer_sig) nil)))
              end)))
        nil))

abbrev mint_address : Url
mint_address = record {
  protocol = text "https:";
  username = [];
  password = [];
  pathname = text "/";
  search = [];
  hash = [];
  host = text "mint.example";
  origin = text "https://mint.example";
}

abbrev digest : List ℕ
digest =
    17 ∷ 17 ∷ 17 ∷ 17 ∷ 17 ∷ 17 ∷ 17 ∷ 17 ∷ 17 ∷ 17 ∷ 17 ∷ 17 ∷ 17 ∷ 17 ∷ 17 ∷ 17 ∷ 17 ∷ 17 ∷ 17
    ∷ 17 ∷ 17 ∷ 17 ∷ 17 ∷ 17 ∷ 17 ∷ 17 ∷ 17 ∷ 17 ∷ 17 ∷ 17 ∷ 17 ∷ 17 ∷ []

abbrev pub platform : VoucherPlatform Bool
platform = record {
  url_parse = λ t. some mint_address;
  json_parse = λ t. if t == text "s" then some secret_json else none;
  text_encode = λ t. t;
  sha256 = λ bytes. digest;
  number_to_string = λ n. [];
  parse_number = λ t. none;
  render_number = λ t. t;
  hex_value = λ t. if t == twos then 2 else 1;
  hex_bytes = λ t. t;
  schnorr_verify = λ signature message by_key. true;
  curve = two_points;
}

abbrev proof : DleqProof
proof = record { e = ones; s = twos; r = ones }

reads_back :
    (p : Bool) (t : Text) → two_points.to_hex p ≡ some t → Dleq.parse_point platform t ≡ some p
unfolding Dleq.parse_point nap.Text.text_discrete nap.Text.to_lower_case nap.Text.trim
    nap.Text.trim_start nap.Text.trim_end nap.Text.is_space
reads_back true t h =
    subst (λ x. Dleq.parse_point platform x ≡ some true) (ap (λ x. or_default x []) h) refl
reads_back false t h =
    subst (λ x. Dleq.parse_point platform x ≡ some false) (ap (λ x. or_default x []) h) refl

platform-ReadsPoints : ReadsPoints platform
platform-ReadsPoints = record { reads = reads_back }

proof-IsHonest : IsHonest platform two_points-IsGroup false 1 1 1 1 proof
unfolding Dleq.parse_point nap.Text.text_discrete Curve.odd nap.Text.to_lower_case nap.Text.trim
    nap.Text.is_space Dleq.parse_scalar Allowlist.is_hex nap.Text.has_unit Dleq.hash_e
    Dleq.hash_to_curve Dleq.first_point nap.Core.Codec.bytes_to_hex nap.Core.Codec.hex_digit
proof-IsHonest = record {
  challenge = refl;
  response = refl;
  key_text = text "02";
  key_written = refl;
  blinded_text = text "02";
  blinded_written = refl;
  signed_text = text "02";
  signed_written = refl;
  hashed = refl;
}

verify_proof_dleq_honest_example :
    verify_proof_dleq platform (text "02") (text "s") (text "00") proof ≡ true
unfolding Dleq.parse_point nap.Text.text_discrete Curve.odd nap.Text.to_lower_case nap.Text.trim
    nap.Text.is_space Dleq.parse_scalar Allowlist.is_hex nap.Text.has_unit Dleq.hash_e
    Dleq.hash_to_curve Dleq.first_point nap.Core.Codec.bytes_to_hex nap.Core.Codec.hex_digit
verify_proof_dleq_honest_example =
    verify_proof_dleq_honest platform two_points-IsGroup platform-ReadsPoints 1 1 1 1 false
      (text "02") (text "s") (text "00") proof refl refl refl refl refl proof-IsHonest

abbrev client : MintClient ℕ
client = record {
  get_key = λ mint keyset amount asked. (answered (text "02"), asked + 1);
  check_state = λ mint secret asked. (answered unspent_state, asked + 1);
}

abbrev policy : MintAvailabilityPolicyOptions
policy = record {
  on_mint_unavailable = none;
  degraded_grant = none;
  destructive_permissions = text "erase" ∷ [];
  destructive_roles = [];
}

abbrev options : VoucherOptions Bool ℕ (Unit {0})
options = record {
  platform = platform;
  mint_origins = text "https://mint.example" ∷ [];
  issuers = record { mint = text "https://mint.example"; issuer_pubkey = key } ∷ [];
  mint_client = client;
  availability = deny;
  grant = λ verified. record { roles = []; permissions = text "erase" ∷ [] };
  permission_registry = none;
  fallback = none;
  on_missing_credential = MissingCredential.denies;
}

abbrev credential : VoucherCredential
credential = record {
  mint_url = text "https://mint.example";
  keyset_id = text "k1";
  secret = text "s";
  signature = text "00";
  amount = 8;
  dleq = record { e = ones; s = twos; r = ones };
  witness = none;
}

abbrev world : VoucherWorld ℕ (Unit {0})
world = record { mint = 0; fallback = tt; audit = [] }

abbrev outcome : AclDecision × VoucherWorld ℕ (Unit {0})
outcome = (
  granted (record { roles = []; permissions = text "erase" ∷ [] }) none none,
  record {
    mint = 2;
    fallback = tt;
    audit = record { code = VoucherCode.accepted; success = true } ∷ [];
  },
)

resolves : resolve_credential options key 100 credential world ≡ outcome
unfolding resolve_credential Resolver.vet Allowlist.resolve_mint Allowlist.canonicalize_mint_url
    nap.Text.text_discrete nap.Text.trim nap.Text.is_space nap.Text.to_lower_case includes
    Secret.parse_voucher_secret Json.find_field Secret.tags_from Secret.values_of Secret.secret_of
    Resolver.lock_key_matches_pubkey Allowlist.is_hex nap.Text.has_unit nap.Text.strip_prefix
    Secret.tag_value Resolver.verify_issuer_signature Allowlist.allows Allowlist.keys_of
    nap.Text.lower_unit nap.Text.trim_end nap.Text.trim_start Dleq.dleq_holds Dleq.hash_e
    Dleq.parse_point Dleq.parse_scalar Dleq.unblinded_holds Dleq.verify_dleq verify_proof_dleq
    Resolver.ask_mint Resolver.grant_voucher Resolver.resolve_vetted Secret.escape_json
    Secret.render_tags Secret.render_values Secret.voucher_canonical_bytes
    Secret.voucher_canonical_text Curve.odd Dleq.hash_to_curve Dleq.first_point
    nap.Core.Codec.bytes_to_hex nap.Core.Codec.hex_digit
resolves = refl

resolve_credential-IsConfirmed_example :
    (v : Vetted) × IsVetted options key 100 credential v × IsConfirmed options credential v world
unfolding nap.Text.text_discrete includes Availability.create_mint_availability_policy
resolve_credential-IsConfirmed_example =
    resolve_credential-IsConfirmed options policy key 100 credential world (text "erase") refl refl
      (ap (λ x. x.0.allowed) resolves) (ap (λ x. includes (text "erase") x.0.permissions) resolves)

-- A client that notes the mints that it is asked.
abbrev noting : VoucherOptions Bool (List Text) (Unit {0})
noting = record {
  platform = platform;
  mint_origins = options.mint_origins;
  issuers = options.issuers;
  mint_client = record {
    get_key = λ mint keyset amount asked. (answered (text "02"), mint ∷ asked);
    check_state = λ mint secret asked. (answered unspent_state, mint ∷ asked);
  };
  availability = deny;
  grant = options.grant;
  permission_registry = none;
  fallback = none;
  on_missing_credential = MissingCredential.denies;
}

abbrev unasked : VoucherWorld (List Text) (Unit {0})
unasked = record { mint = []; fallback = tt; audit = [] }

-- Every mint that was asked is listed.
abbrev AreListed : List Text → Type 0
AreListed asked = All (λ mint. includes mint noting.mint_origins ≡ true) asked

noting-IsKept : IsKept noting key 100 credential AreListed
unfolding IsKept
noting-IsKept v asked i h = ((i.mint_allowed.listed, h), (i.mint_allowed.listed, h))

resolve_credential-asks_example :
    AreListed (resolve_credential noting key 100 credential unasked).1.mint
    × (((resolve_credential noting key 100 credential unasked).1.mint ≡ [])
        ⊎ (v : Vetted) × IsVetted noting key 100 credential v)
resolve_credential-asks_example =
    resolve_credential-asks noting AreListed key 100 credential unasked noting-IsKept tt
