-- ===== src/Server/Acl/Revoking.antt =====
-- `createRevokingAclStore` of acl.ts over the stores of memory.ts: losing access ends the sessions.
use nap.Base.{
  ℕ, ◌≢◌, Bool-cases, ◌<◌, ◌≡◌, ◌⊎◌, inl, inr, true, false, Option, none, some, arith,
  truthy_number, Option-cases,
}
use nap.Text.{Text, ◌==◌, ==_iff}
use nap.JsMap.{get, get-set}
use nap.Core.Types.{SessionRecord}
use nap.Server.Sessions.{InMemorySessionStore, get_by_session_id, in_memory_session_store}
use nap.Server.Sessions.Revocation.{revoke_if, on_some, get-revoke_by_principal}
use nap.Server.Acl.{
  AclRecord, InMemoryAclStore, acl_key, in_memory_acl_store, revoking_upsert, revoking_suspend,
}

-- The session belongs to another principal or is revoked.
abbrev pub IsEnded : Text → Option SessionRecord → Type 0
IsEnded pubkey none = Unit {0}
IsEnded pubkey (some r) =
    ((r.principal_pubkey == pubkey) ≡ false) ⊎ (truthy_number r.revoked_at ≡ true)

module _ (iso_now : Text) (now : ℕ) (m : InMemoryAclStore) (s : InMemorySessionStore) where
  abbrev suspended_for : Option Text → AclRecord → AclRecord
  suspended_for reason r = record r {
    suspended = true;
    suspended_reason = reason;
    suspended_at = some iso_now;
  }

  -- Suspending a principal ends every session that it holds, and marks its record if there is one.
  pub revoking_suspend-IsEnded :
      (pubkey app_id id : Text) (reason : Option Text)
      → 0 < now
      → let (m', s') =
          revoking_suspend
            (in_memory_acl_store iso_now)
            in_memory_session_store
            now
            pubkey
            app_id
            reason
            (m, s) in
        IsEnded pubkey (get_by_session_id id s')
        × (get (acl_key app_id pubkey) m'
            ≡ on_some (suspended_for reason) (get (acl_key app_id pubkey) m))
  unfolding revoking_suspend
  revoking_suspend-IsEnded pubkey app_id id reason pos = (
    ground (arith, get-revoke_by_principal id pubkey now s),
    elim (Option-cases (get (acl_key app_id pubkey) m)) [
      | inl e ↦ ground (arith, e)
      | inr (r, e) ↦ ground (
        arith,
        e,
        get-set (acl_key app_id pubkey) (acl_key app_id pubkey) (suspended_for reason r) m,
      )
    ],
  )

  -- Before the record is written, the principal has a record of another role.
  pub HasOtherRole : AclRecord → Type 0
  HasOtherRole r =
      (previous : AclRecord) × (get (acl_key r.app_id r.principal_pubkey) m ≡ some previous)
      × (previous.role ≢ r.role)

  -- Writing a record ends the principal's sessions exactly where it is suspended or takes another
  -- role than the stored record has; other writes leave every session as it is.
  pub revoking_upsert-sessions :
      (r : AclRecord) (id : Text)
      → let (m', s') =
          revoking_upsert (in_memory_acl_store iso_now) in_memory_session_store now r (m, s) in
        (get (acl_key r.app_id r.principal_pubkey) m' ≡ some r)
        × ((((r.suspended ≡ true) ⊎ HasOtherRole r)
              × (get_by_session_id id s'
                  ≡ on_some (revoke_if r.principal_pubkey now) (get_by_session_id id s)))
            ⊎ ((r.suspended ≡ false)
                × (¬ HasOtherRole r)
                × (get_by_session_id id s' ≡ get_by_session_id id s)))
  unfolding revoking_upsert HasOtherRole
  revoking_upsert-sessions r id =
      let revoked = get-revoke_by_principal id r.principal_pubkey now s in
      let key = acl_key r.app_id r.principal_pubkey in
      (
        ground (arith, get-set key key r m),
        elim (Bool-cases r.suspended) [
          | inl out ↦ inl (inl out, ground (arith, out, revoked))
          | inr live ↦ elim (Option-cases (get key m)) [
            | inl e ↦ inr (live, λ (p, f, n). ground (arith, e, f), ground (arith, e, live))
            | inr (p, e) ↦ elim (Bool-cases (p.role == r.role)) [
              | inl same ↦ inr (
                live,
                λ (q, f, n). ground (arith, e, f, n, (==_iff p.role r.role).0 same),
                ground (arith, e, live, same),
              )
              | inr other ↦ inl (
                inr (p, e, λ same. ground (arith, other, (==_iff p.role r.role).1 same)),
                ground (arith, e, live, other, revoked),
              )
            ]
          ]
        ],
      )
