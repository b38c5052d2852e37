-- ===== src/Voucher/Dleq.antt =====
-- The proofs of packages/nap-voucher/src/dleq.ts: that a mint has signed with the key it publishes.
-- The arithmetic of the curve is a parameter.
pub mod Honest
use nap.Base.{
  ℕ, zero, suc, ◌/◌, ◌%◌, ◌>>=◌, Bool, true, false, not, ◌&&◌, Option, none, some, List, [], ◌∷◌,
  ◌++◌, if◌then◌else◌, ltb,
}
use nap.Text.{Text, text, ◌==◌, is_empty, trim, to_lower_case}
use nap.Core.Codec.{bytes_to_hex}
use nap.Voucher.Platform.{Curve, VoucherPlatform}
use nap.Voucher.Allowlist.{is_hex}

pub record DleqProof : Type 0 where
  pub e : Text
  pub s : Text
  pub r : Text

module _ {P : Type 0} (platform : VoucherPlatform P) where
  abbrev curve : Curve P
  curve = platform.curve

  abbrev clean : Text → Text
  clean value = to_lower_case (trim value)

  -- `parseScalar`
  unfoldable pub parse_scalar : Text → Option ℕ
  parse_scalar value =
      let scalar = platform.hex_value (clean value) in
      if is_hex 64 (clean value) && ltb 0 scalar && ltb scalar curve.order
      then some scalar
      else none

  -- `parsePoint`
  unfoldable pub parse_point : Text → Option P
  parse_point value = curve.from_hex (clean value)

  -- `setUint32(0, counter, true)`: four bytes, the lowest first.
  abbrev counter_bytes : ℕ → List ℕ
  counter_bytes n = n % 256 ∷ n / 256 % 256 ∷ n / 65536 % 256 ∷ n / 16777216 % 256 ∷ []

  abbrev candidate : List ℕ → ℕ → Text
  candidate message_hash counter =
      bytes_to_hex (2 ∷ platform.sha256 (message_hash ++ counter_bytes counter))

  -- The loop of `hashToCurve`, with so many counters left.
  unfoldable pub first_point : List ℕ → ℕ → ℕ → Option P
  first_point message_hash zero counter = none
  first_point message_hash (suc left) counter =
      elim (curve.from_hex (candidate message_hash counter)) [
        | some point ↦ some point
        | none ↦ first_point message_hash left (suc counter)
      ]

  unfoldable pub hash_to_curve : List ℕ → Option P
  hash_to_curve secret =
      let domain = platform.text_encode (text "Secp256k1_HashToCurve_Cashu_") in
      first_point (platform.sha256 (domain ++ secret)) 16777216 0

  -- `proofY`
  unfoldable pub proof_y : Text → Option Text
  proof_y secret = do y ← hash_to_curve (platform.text_encode secret); curve.to_hex y

  -- `bytesToHex` of `hashE` of four points.
  unfoldable pub hash_e : P → P → P → P → Option Text
  hash_e p q r t = do
    ps ← curve.to_hex_uncompressed p
    qs ← curve.to_hex_uncompressed q
    rs ← curve.to_hex_uncompressed r
    ts ← curve.to_hex_uncompressed t
    some (bytes_to_hex (platform.sha256 (platform.text_encode (ps ++ (qs ++ (rs ++ ts))))))

  -- `verifyDleq` once its points and scalars are parsed.
  unfoldable pub dleq_holds : P → P → P → ℕ → ℕ → Text → Bool
  dleq_holds a b' c' e s given =
      let r1 = curve.add (curve.multiply s curve.base) (curve.negate (curve.multiply e a)) in
      let r2 = curve.add (curve.multiply s b') (curve.negate (curve.multiply e c')) in
      elim (hash_e r1 r2 a c') [ none ↦ false | some expected ↦ expected == clean given ]

  unfoldable pub verify_dleq : Text → Text → Text → DleqProof → Bool
  verify_dleq a b' c' dleq = elim (parse_point a) [
    | none ↦ false
    | some pa ↦ elim (parse_point b') [
      | none ↦ false
      | some pb ↦ elim (parse_point c') [
        | none ↦ false
        | some pc ↦ elim (parse_scalar dleq.e) [
          | none ↦ false
          | some e ↦ elim (parse_scalar dleq.s) [
            | none ↦ false
            | some s ↦ dleq_holds pa pb pc e s dleq.e
          ]
        ]
      ]
    ]
  ]

  -- `verifyProofDleq` once the key, the signature and the blinding factor are parsed.
  unfoldable pub unblinded_holds : P → P → ℕ → Text → DleqProof → Bool
  unblinded_holds a c r secret dleq = elim (hash_to_curve (platform.text_encode secret)) [
    | none ↦ false
    | some y ↦
        let c' = curve.add c (curve.multiply r a) in
        let b' = curve.add y (curve.multiply r curve.base) in
        elim (curve.to_hex a) [
          | none ↦ false
          | some at ↦ elim (curve.to_hex b') [
            | none ↦ false
            | some bt ↦ elim (curve.to_hex c') [
              | none ↦ false
              | some ct ↦ verify_dleq at bt ct dleq
            ]
          ]
        ]
  ]

  unfoldable pub verify_proof_dleq : Text → Text → Text → DleqProof → Bool
  verify_proof_dleq a secret c dleq = elim (parse_point a) [
    | none ↦ false
    | some pa ↦ elim (parse_point c) [
      | none ↦ false
      | some pc ↦ elim (parse_scalar dleq.r) [
        | none ↦ false
        | some r ↦ if is_empty secret then false else unblinded_holds pa pc r secret dleq
      ]
    ]
  ]
