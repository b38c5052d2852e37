-- ===== src/Voucher/Resolver.antt =====
-- `createVoucherAclResolver` of packages/nap-voucher/src/resolver.ts, of which the options are complete:
-- the adapters of a mint and of the grants are parameters, and a fallback resolver has a state.
pub mod Checks
pub mod Contact
pub mod Degraded
pub mod Issued
pub mod Offline
pub mod Sound
use nap.Base.{
  ℕ, Bool, true, false, not, ◌&&◌, ◌||◌, Option, none, some, List, [], ◌∷◌, ◌++◌, if◌then◌else◌,
  leb, eqb, or_default, is_some, ltb, length,
}
use nap.Text.{Text, text, ◌==◌, is_empty, includes, trim, to_lower_case, strip_prefix}
use nap.Core.Types.{AclDecision, VoucherCredential}
use nap.Server.Stores.{AclResolver, AclResolutionContext, SessionView}
use nap.Voucher.Platform.{VoucherPlatform}
use nap.Voucher.Allowlist.{AllowedIssuer, is_hex, resolve_mint, allows}
use nap.Voucher.Secret.{
  VoucherKind, ParsedVoucherSecret, parse_voucher_secret, voucher_canonical_bytes,
}
use nap.Voucher.Availability.{MintFailureReason, Grant, AvailabilityDecision, deny, degrade}
use nap.Voucher.Dleq.{DleqProof, verify_proof_dleq}
pub use nap.Voucher.Options.{
  VoucherCode, ProofState, MintAnswer, MintClient, VerifiedVoucher, RegistryKeys, MissingCredential,
  VoucherOptions, VoucherEvent, VoucherWorld, code_text, mint_denied, malformed, dleq_invalid,
  binding_mismatch, issuer_untrusted, expired, spent, mint_down, absent, grant_unknown, accepted,
  unspent_state, spent_state, pending_state, answered, unanswered, denies, trusts_session,
}

abbrev pub is_compressed : Text → Bool
is_compressed key =
    (is_some (strip_prefix (text "02") key) || is_some (strip_prefix (text "03") key))
    && is_hex 66 key

abbrev pub x_only : Text → Text
x_only (a ∷ b ∷ rest) = rest
x_only key = key

-- `lockKeyMatchesPubkey`
unfoldable pub lock_key_matches_pubkey : Text → Text → Bool
lock_key_matches_pubkey lock_key pubkey =
    let lock = to_lower_case (trim lock_key) in
    let signer = to_lower_case (trim pubkey) in
    if not (is_hex 64 signer)
    then false
    else (if is_compressed lock then x_only lock == signer else is_hex 64 lock && lock == signer)

-- `verifyIssuerSignature`; case does not matter to its patterns.
unfoldable pub verify_issuer_signature :
    {P : Type 0} → VoucherPlatform P → ParsedVoucherSecret → Bool
verify_issuer_signature platform secret =
    let sig = or_default secret.issuer_sig [] in
    let given = or_default secret.issuer_pubkey [] in
    let key = if is_compressed (to_lower_case given) then x_only given else given in
    if is_empty sig || is_empty given
    then false
    else (is_hex 64 (to_lower_case key)
        && is_hex 128 (to_lower_case sig)
        && platform.schnorr_verify (platform.hex_bytes sig)
            (platform.sha256 (voucher_canonical_bytes platform secret)) (platform.hex_bytes key))

abbrev pub denied : VoucherCode → AclDecision
denied code = record {
  allowed = false;
  roles = [];
  permissions = [];
  reason = some (code_text code);
  revoke_sessions = none;
  expires_at = none;
}

abbrev pub granted : Grant → Option Text → Option ℕ → AclDecision
granted g reason expires_at = record {
  allowed = true;
  roles = g.roles;
  permissions = g.permissions;
  reason = reason;
  revoke_sessions = none;
  expires_at = expires_at;
}

-- Every member of the first list is in the second.
unfoldable pub declares : List Text → List Text → Bool
declares declared [] = true
declares declared (k ∷ ks) = includes k declared && declares declared ks

-- Nothing that the grant names is undeclared.
abbrev pub is_declared : Option RegistryKeys → Grant → Bool
is_declared none g = true
is_declared (some registry) g =
    declares registry.permissions g.permissions && declares registry.roles g.roles

abbrev pub is_expired_at : ℕ → Option ℕ → Bool
is_expired_at now none = false
is_expired_at now (some at) = leb at now

-- What a voucher that has passed the checks without a network is judged by.
pub record Vetted : Type 0 where
  pub mint_url : Text
  pub issuer_pubkey : Text
  pub secret : ParsedVoucherSecret

pub data Vetting : Type 0 where
  vetted : Vetted → Vetting
  rejected : VoucherCode → Vetting

abbrev pub dleq_of : VoucherCredential → DleqProof
dleq_of credential = record { e = credential.dleq.e; s = credential.dleq.s; r = credential.dleq.r }

abbrev pub verified_by : Text → Vetted → VerifiedVoucher
verified_by pubkey v = record {
  mint_url = v.mint_url;
  issuer_pubkey = v.issuer_pubkey;
  locked_to = pubkey;
  secret = v.secret;
}

module _ {P M F : Type 0} (options : VoucherOptions P M F) where
  abbrev origin_of : Text → Option Text
  origin_of = resolve_mint options.platform.url_parse options.mint_origins

  abbrev vet_issuer : Text → ParsedVoucherSecret → Vetting
  vet_issuer mint_url secret = elim (secret.issuer_pubkey) [
    | none ↦ rejected issuer_untrusted
    | some issuer ↦
        if not (verify_issuer_signature options.platform secret)
          || is_empty issuer
          || not (allows options.issuers mint_url issuer)
        then rejected issuer_untrusted
        else vetted (record { mint_url = mint_url; issuer_pubkey = issuer; secret = secret })
  ]

  abbrev vet_binding : Text → ℕ → Text → ParsedVoucherSecret → Vetting
  vet_binding pubkey now mint_url secret = elim (secret.lock_key) [
    | none ↦ rejected binding_mismatch
    | some lock ↦
        if is_empty lock || not (lock_key_matches_pubkey lock pubkey)
        then rejected binding_mismatch
        else (if is_expired_at now secret.expires_at
            then rejected expired
            else vet_issuer mint_url secret)
  ]

  -- The checks before the mint is asked, in their order.
  unfoldable pub vet : Text → ℕ → VoucherCredential → Vetting
  vet pubkey now credential = elim (origin_of credential.mint_url) [
    | none ↦ rejected mint_denied
    | some mint_url ↦ elim (parse_voucher_secret options.platform credential.secret) [
      | none ↦ rejected malformed
      | some secret ↦ vet_binding pubkey now mint_url secret
    ]
  ]

  abbrev record_event : VoucherCode → Bool → VoucherWorld M F → VoucherWorld M F
  record_event code success w = record w {
    audit = w.audit ++ (record { code = code; success = success } ∷ []);
  }

  -- `deny`
  unfoldable pub deny_with : VoucherCode → VoucherWorld M F → AclDecision × VoucherWorld M F
  deny_with code w = (denied code, record_event code false w)

  -- The `catch` of a mint that does not answer.
  unfoldable pub decide_unanswered :
      MintFailureReason → Vetted → VoucherWorld M F → AclDecision × VoucherWorld M F
  decide_unanswered reason v w = elim (options.availability reason) [
    | deny why ↦ deny_with mint_down w
    | degrade g ↦
        if is_declared options.permission_registry g
        then (
          granted g (some (text "NAP_VOUCHER_DEGRADED")) v.secret.expires_at,
          record_event mint_down true w,
        )
        else deny_with grant_unknown w
  ]

  -- The mint's word: its key, the proof that it has signed with it, and that the voucher is unspent.
  unfoldable pub ask_mint :
      VoucherCredential
      → Vetted
      → VoucherWorld M F
      → MintAnswer (Option VoucherCode) × VoucherWorld M F
  ask_mint credential v w =
      let (key, m1) =
        options.mint_client.get_key v.mint_url credential.keyset_id credential.amount w.mint in
      elim key [
        | unanswered reason ↦ (unanswered reason, record w { mint = m1 })
        | answered a ↦
            if not (
              verify_proof_dleq options.platform a credential.secret credential.signature
                (dleq_of credential))
            then (answered (some dleq_invalid), record w { mint = m1 })
            else (let (state, m2) =
                  options.mint_client.check_state v.mint_url credential.secret m1 in
                elim state [
                  | unanswered reason ↦ (unanswered reason, record w { mint = m2 })
                  | answered unspent_state ↦ (answered none, record w { mint = m2 })
                  | answered _ ↦ (answered (some spent), record w { mint = m2 })
                ])
      ]

  unfoldable pub grant_voucher : Text → Vetted → VoucherWorld M F → AclDecision × VoucherWorld M F
  grant_voucher pubkey v w =
      let g = options.grant (verified_by pubkey v) in
      if is_declared options.permission_registry g
      then (granted g none v.secret.expires_at, record_event accepted true w)
      else deny_with grant_unknown w

  -- What the mint says, and what that is worth.
  unfoldable pub resolve_vetted :
      Text → VoucherCredential → Vetted → VoucherWorld M F → AclDecision × VoucherWorld M F
  resolve_vetted pubkey credential v w =
      let (answer, w') = ask_mint credential v w in
      elim answer [
        | unanswered reason ↦ decide_unanswered reason v w'
        | answered (some code) ↦ deny_with code w'
        | answered none ↦ grant_voucher pubkey v w'
      ]

  unfoldable pub resolve_credential :
      Text → ℕ → VoucherCredential → VoucherWorld M F → AclDecision × VoucherWorld M F
  resolve_credential pubkey now credential w = elim (vet pubkey now credential) [
    | rejected code ↦ deny_with code w
    | vetted v ↦ resolve_vetted pubkey credential v w
  ]

  -- A request without a credential.
  unfoldable pub resolve_absent :
      Text → Text → AclResolutionContext → VoucherWorld M F → AclDecision × VoucherWorld M F
  resolve_absent npub pubkey context w = elim options.fallback [
    | some fallback ↦
        let (decision, f) = fallback.resolve npub pubkey context w.fallback in
        (decision, record w { fallback = f })
    | none ↦ elim options.on_missing_credential [
      | denies ↦ deny_with absent w
      | trusts_session ↦ elim context.session [
        | none ↦ deny_with absent w
        | some view ↦
            (granted (record { roles = view.roles; permissions = view.permissions }) none none, w)
      ]
    ]
  ]

  unfoldable pub resolve :
      Text → Text → AclResolutionContext → VoucherWorld M F → AclDecision × VoucherWorld M F
  resolve npub pubkey context w = elim context.voucher [
    | none ↦ resolve_absent npub pubkey context w
    | some credential ↦ resolve_credential pubkey context.now credential w
  ]

  abbrev pub voucher_acl_resolver : AclResolver (VoucherWorld M F)
  voucher_acl_resolver = record { resolve = resolve }
