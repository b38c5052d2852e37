-- ===== src/Voucher/Dleq/Honest.antt =====
-- The proof of an honest mint is accepted by packages/nap-voucher/src/dleq.ts.
use nap.Base.{ℕ, ◌+◌, ◌*◌, ◌%◌, ◌≡◌, refl, sym, ap, ◌∙◌, true, false, some}
use nap.Text.{Text, ==_iff, is_empty}
use nap.Voucher.Platform.{Curve, VoucherPlatform}
use nap.Voucher.Dleq.{
  DleqProof, parse_scalar, parse_point, hash_e, hash_to_curve, dleq_holds, verify_dleq,
  unblinded_holds, verify_proof_dleq, clean,
}

-- The points are a commutative group on which the scalars act.
pub record IsGroup {P : Type 0} (c : Curve P) : Type 0 where
  pub assoc : (p q r : P) → c.add (c.add p q) r ≡ c.add p (c.add q r)
  pub comm : (p q : P) → c.add p q ≡ c.add q p
  pub cancel : (p q : P) → c.add (c.add p q) (c.negate q) ≡ p
  pub multiply_add :
      (m n : ℕ) (p : P) → c.multiply (m + n) p ≡ c.add (c.multiply m p) (c.multiply n p)
  pub multiply_mul : (m n : ℕ) (p : P) → c.multiply (m * n) p ≡ c.multiply m (c.multiply n p)
  pub multiply_point :
      (m : ℕ) (p q : P) → c.multiply m (c.add p q) ≡ c.add (c.multiply m p) (c.multiply m q)
  -- Scalars count modulo the order of the curve.
  pub wraps : (m : ℕ) (p : P) → c.multiply (m % c.order) p ≡ c.multiply m p

-- A point is read back from how it is written.
pub record ReadsPoints {P : Type 0} (platform : VoucherPlatform P) : Type 0 where
  pub reads :
      (p : P) (t : Text) → platform.curve.to_hex p ≡ some t → parse_point platform t ≡ some p

module _ {P : Type 0} (platform : VoucherPlatform P) (g : IsGroup platform.curve) where
  abbrev c : Curve P
  c = platform.curve

  -- `s·p - e·(a·p)` is `k·p` where `s = k + e·a`.
  commitment :
      (k e a : ℕ) (p : P)
      → c.add (c.multiply (k + e * a) p) (c.negate (c.multiply e (c.multiply a p))) ≡ c.multiply k p
  commitment k e a p =
      rw (g.multiply_add k (e * a) p, g.multiply_mul e a p)
        (g.cancel (c.multiply k p) (c.multiply e (c.multiply a p)))

  -- A proof of the mint with the private key `a`, by the nonce `k`, holds for its public key and any
  -- point that it has signed.
  dleq_holds_honest :
      (k e a : ℕ) (b' : P) (given : Text)
      → hash_e platform
          (c.multiply k c.base)
          (c.multiply k b')
          (c.multiply a c.base)
          (c.multiply a b')
        ≡ some (clean platform given)
      → dleq_holds platform
          (c.multiply a c.base)
          b'
          (c.multiply a b')
          e
          ((k + e * a) % c.order)
          given
        ≡ true
  unfolding dleq_holds
  dleq_holds_honest k e a b' given h =
      rw
        (
          dleq_holds,
          g.wraps (k + e * a) c.base,
          g.wraps (k + e * a) b',
          commitment k e a c.base,
          commitment k e a b',
          h,
        )
        ((==_iff (clean platform given) (clean platform given)).1 refl)

  unblind : (p q : P) → c.add (c.add p (c.negate q)) q ≡ p
  unblind p q =
      g.assoc p (c.negate q) q
      ∙ ap (c.add p) (g.comm (c.negate q) q)
      ∙ sym (g.assoc p q (c.negate q))
      ∙ g.cancel p q

  -- The point that a wallet has its mint sign, for a secret and a blinding factor, and the signature
  -- that it keeps.
  abbrev pub blinded : P → ℕ → P
  blinded y r = c.add y (c.multiply r c.base)

  abbrev pub unblinded : P → ℕ → ℕ → P
  unblinded y r a =
      c.add (c.multiply a (blinded y r)) (c.negate (c.multiply r (c.multiply a c.base)))

  verify_dleq_honest :
      (reads : ReadsPoints platform) (k e a : ℕ) (b' : P) (at bt ct : Text) (dleq : DleqProof)
      → c.to_hex (c.multiply a c.base) ≡ some at
      → c.to_hex b' ≡ some bt
      → c.to_hex (c.multiply a b') ≡ some ct
      → parse_scalar platform dleq.e ≡ some e
      → parse_scalar platform dleq.s ≡ some ((k + e * a) % c.order)
      → hash_e platform
          (c.multiply k c.base)
          (c.multiply k b')
          (c.multiply a c.base)
          (c.multiply a b')
        ≡ some (clean platform dleq.e)
      → verify_dleq platform at bt ct dleq ≡ true
  unfolding verify_dleq
  verify_dleq_honest reads k e a b' at bt ct dleq ha hb hc he hd h =
      rw
        (
          verify_dleq,
          reads.reads (c.multiply a c.base) at ha,
          reads.reads b' bt hb,
          reads.reads (c.multiply a b') ct hc,
          he,
          hd,
        )
        (dleq_holds_honest k e a b' dleq.e h)

  -- What an honest mint and wallet have made: for the point `y` of the secret, the mint's private key
  -- `a`, its nonce `k`, the challenge `e` and the blinding factor `r`. No point of theirs is at
  -- infinity, which could not be written.
  pub record IsHonest (y : P) (a k e r : ℕ) (dleq : DleqProof) : Type 0 where
    pub challenge : parse_scalar platform dleq.e ≡ some e
    pub response : parse_scalar platform dleq.s ≡ some ((k + e * a) % c.order)
    pub key_text : Text
    pub key_written : c.to_hex (c.multiply a c.base) ≡ some key_text
    pub blinded_text : Text
    pub blinded_written : c.to_hex (blinded y r) ≡ some blinded_text
    pub signed_text : Text
    pub signed_written : c.to_hex (c.multiply a (blinded y r)) ≡ some signed_text
    pub hashed :
        hash_e platform
          (c.multiply k c.base)
          (c.multiply k (blinded y r))
          (c.multiply a c.base)
          (c.multiply a (blinded y r))
        ≡ some (clean platform dleq.e)

  unblinded_holds_honest :
      (reads : ReadsPoints platform) (a k e r : ℕ) (y : P) (secret : Text) (dleq : DleqProof)
      → hash_to_curve platform (platform.text_encode secret) ≡ some y
      → IsHonest y a k e r dleq
      → unblinded_holds platform (c.multiply a c.base) (unblinded y r a) r secret dleq ≡ true
  unfolding unblinded_holds
  unblinded_holds_honest reads a k e r y secret dleq hy i =
      rw
        (
          unblinded_holds,
          hy,
          i.key_written,
          i.blinded_written,
          unblind (c.multiply a (blinded y r)) (c.multiply r (c.multiply a c.base)),
          i.signed_written,
        )
        (verify_dleq_honest reads k e a (blinded y r) i.key_text i.blinded_text i.signed_text dleq
          i.key_written i.blinded_written i.signed_written i.challenge i.response i.hashed)

  -- The group's laws given, and points being read as they are written, the proof that an honest mint
  -- makes for a blinded secret is accepted for the unblinded signature: with its private key `a`, its
  -- nonce `k`, the challenge `e` that hashes the commitments, and the response `k + e·a`. (No point of
  -- theirs is at infinity.)
  pub verify_proof_dleq_honest :
      (reads : ReadsPoints platform) (a k e r : ℕ) (y : P) (key secret signature : Text)
      (dleq : DleqProof)
      → is_empty secret ≡ false
      → hash_to_curve platform (platform.text_encode secret) ≡ some y
      → parse_point platform key ≡ some (c.multiply a c.base)
      → parse_point platform signature ≡ some (unblinded y r a)
      → parse_scalar platform dleq.r ≡ some r
      → IsHonest y a k e r dleq
      → verify_proof_dleq platform key secret signature dleq ≡ true
  unfolding verify_proof_dleq
  verify_proof_dleq_honest reads a k e r y key secret signature dleq z hy hk hs hr i =
      rw (verify_proof_dleq, hk, hs, hr, z)
        (unblinded_holds_honest reads a k e r y secret dleq hy i)
