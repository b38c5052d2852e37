-- ===== src/Voucher/Secret.antt =====
-- packages/nap-voucher/src/secret.ts: the parsed secret of a voucher, and the bytes that its issuer
-- signs.
use nap.Base.{
  ℕ, Bool, true, false, Option, none, some, List, [], ◌∷◌, ◌++◌, if◌then◌else◌, ltb, eqb,
  or_default, ◌>>=◌, ◌/◌, ◌%◌, ◌+◌,
}
use nap.Text.{Text, text, ◌==◌, is_empty, includes}
use nap.Core.Json.{Json, null, num, str, arr, obj, Items, nil, cons, property, text_property}
use nap.Voucher.Platform.{VoucherPlatform}

pub data VoucherKind : Type 0 where
  voucher p2pk_voucher : VoucherKind

abbrev pub kind_text : VoucherKind → Text
kind_text voucher = text "VOUCHER"
kind_text p2pk_voucher = text "P2PK_VOUCHER"

pub record ParsedVoucherSecret : Type 0 where
  pub kind : VoucherKind
  pub nonce : Option Text
  pub data_text : Text
  pub tags : List (List Text)
  pub lock_key : Option Text
  pub voucher_id : Option Text
  pub issuer : Option Text
  pub issuer_pubkey : Option Text
  pub issuer_sig : Option Text
  pub expires_at : Option ℕ
  pub unit : Option Text
  pub face_value : Option ℕ

-- `tagValue`: the second member of the first tag of that name that has one.
unfoldable pub tag_value : Text → List (List Text) → Option Text
tag_value key [] = none
tag_value key ([] ∷ tags) = tag_value key tags
tag_value key ((name ∷ []) ∷ tags) = tag_value key tags
tag_value key ((name ∷ value ∷ values) ∷ tags) =
    let rest = tag_value key tags in if name == key then some value else rest

abbrev pub kind_of : Json → Option VoucherKind
kind_of (str s) =
    if s == text "VOUCHER"
    then some voucher
    else (if s == text "P2PK_VOUCHER" then some p2pk_voucher else none)
kind_of _ = none

-- `null` and `undefined` are no nonce; anything else must be a string.
abbrev pub nonce_of : Option Json → Option (Option Text)
nonce_of none = some none
nonce_of (some null) = some none
nonce_of (some (str s)) = some (some s)
nonce_of (some _) = none

-- The two members of a decoded secret, the second an object.
abbrev pub kind_and_body : Json → Option (Json × Json)
kind_and_body (arr (cons kind (cons (obj fs) nil))) = some (kind, obj fs)
kind_and_body _ = none

module _ {P : Type 0} (platform : VoucherPlatform P) where
  abbrev value_text : Json → Option Text
  value_text (str s) = some s
  value_text (num n) = some (platform.number_to_string n)
  value_text _ = none

  unfoldable pub values_of : Items → Option (List Text)
  values_of nil = some []
  values_of (cons j js) = do v ← value_text j; vs ← values_of js; some (v ∷ vs)

  -- The loop over the tags: each is a list that is not empty, of strings and numbers, and no two have
  -- the same name.
  unfoldable pub tags_from : List Text → Items → Option (List (List Text))
  tags_from seen nil = some []
  tags_from seen (cons (arr (cons name values)) js) = do
    key ← value_text name
    rest ← tags_from (key ∷ seen) js
    vs ← values_of values
    if includes key seen then none else some ((key ∷ vs) ∷ rest)
  tags_from seen (cons _ js) = none

  abbrev pub tags_of : Option Json → Option (List (List Text))
  tags_of none = some []
  tags_of (some null) = some []
  tags_of (some (arr js)) = tags_from [] js
  tags_of (some _) = none

  -- `numericTagValue`
  abbrev numeric_tag_value : Text → List (List Text) → Option ℕ
  numeric_tag_value key tags = do raw ← tag_value key tags; platform.parse_number raw

  unfoldable pub secret_of :
      VoucherKind → Option Text → Text → List (List Text) → ParsedVoucherSecret
  secret_of kind nonce data_text tags = record {
    kind = kind;
    nonce = nonce;
    data_text = data_text;
    tags = tags;
    lock_key = elim kind [ voucher ↦ none | p2pk_voucher ↦ some data_text ];
    voucher_id = elim kind [
      | voucher ↦ some data_text
      | p2pk_voucher ↦ tag_value (text "voucher_id") tags
    ];
    issuer = tag_value (text "issuer") tags;
    issuer_pubkey = tag_value (text "issuer_pubkey") tags;
    issuer_sig = tag_value (text "issuer_sig") tags;
    expires_at = numeric_tag_value (text "expires_at") tags;
    unit = tag_value (text "unit") tags;
    face_value = numeric_tag_value (text "face_value") tags;
  }

  unfoldable pub parse_voucher_secret : Text → Option ParsedVoucherSecret
  parse_voucher_secret secret = if is_empty secret then none else (do
    decoded ← platform.json_parse secret
    (kind_json, body) ← kind_and_body decoded
    kind ← kind_of kind_json
    nonce ← nonce_of (property (text "nonce") body)
    data_text ← text_property (text "data") body
    tags ← tags_of (property (text "tags") body)
    some (secret_of kind nonce data_text tags))

  abbrev hex_digit_of : ℕ → ℕ
  hex_digit_of n = if ltb n 10 then 48 + n else 87 + n

  -- `escapeJson`, unit by unit.
  abbrev escape_unit : ℕ → Text
  escape_unit c =
      if eqb c 34
      then text "\\\""
      else (if eqb c 92
          then text "\\\\"
          else (if eqb c 8
              then text "\\b"
              else (if eqb c 12
                  then text "\\f"
                  else (if eqb c 10
                      then text "\\n"
                      else (if eqb c 13
                          then text "\\r"
                          else (if eqb c 9
                              then text "\\t"
                              else (if ltb c 32
                                  then text "\\u00"
                                    ++ (hex_digit_of (c / 16) ∷ hex_digit_of (c % 16) ∷ [])
                                  else c ∷ [])))))))

  unfoldable pub escape_json : Text → Text
  escape_json [] = []
  escape_json (c ∷ cs) = escape_unit c ++ escape_json cs

  abbrev is_numeric_tag : Text → Bool
  is_numeric_tag key =
      includes key
        (text "face_value" ∷ text "expires_at" ∷ text "face_decimals" ∷ text "issuance_ratio" ∷ [])

  abbrev is_added_after_signing : Text → Bool
  is_added_after_signing key = includes key (text "issuer_sig" ∷ text "issuer_pubkey" ∷ [])

  abbrev render_value : Text → Text → Text
  render_value key value =
      if is_numeric_tag key
      then platform.render_number value
      else text "\"" ++ (escape_json value ++ text "\"")

  unfoldable pub render_values : Text → List Text → Text
  render_values key [] = []
  render_values key (v ∷ vs) = text "," ++ (render_value key v ++ render_values key vs)

  abbrev render_tag : Text → List Text → Text
  render_tag key values =
      text "[\"" ++ (escape_json key ++ (text "\"" ++ (render_values key values ++ text "]")))

  abbrev key_of : List Text → Text
  key_of [] = []
  key_of (key ∷ values) = key

  abbrev tail_of : List Text → List Text
  tail_of [] = []
  tail_of (key ∷ values) = values

  unfoldable pub render_tags : Bool → List (List Text) → Text
  render_tags first [] = []
  render_tags first (tag ∷ tags) =
      if is_added_after_signing (key_of tag)
      then render_tags first tags
      else (if first then [] else text ",")
        ++ (render_tag (key_of tag) (tail_of tag) ++ render_tags false tags)

  unfoldable pub voucher_canonical_text : ParsedVoucherSecret → Text
  voucher_canonical_text secret =
      text "[\""
      ++ (kind_text secret.kind
          ++ (text "\",\""
              ++ (secret.data_text
                  ++ (text "\",\""
                      ++ (or_default secret.nonce []
                          ++ (text "\",[" ++ (render_tags true secret.tags ++ text "]]")))))))

  unfoldable pub voucher_canonical_bytes : ParsedVoucherSecret → List ℕ
  voucher_canonical_bytes secret = platform.text_encode (voucher_canonical_text secret)
