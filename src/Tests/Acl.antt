-- ===== src/Tests/Acl.antt =====
-- The theorems on access control at a registry of two roles.
use nap.Base.{◌≡◌, refl, true, false, not, ◌&&◌, ◌||◌, ◌⊎◌, ◌↔◌, none, some, List, [], ◌∷◌, arith}
use nap.Text.{Text, text, includes}
use nap.JsMap.{get}
use nap.Server.Stores.{AclResolutionContext}
use nap.Server.Sessions.{get_by_session_id, in_memory_session_store}
use nap.Server.Acl.{
  PermissionRegistry, RoleDefinition, PermissionDefinition, PermissionOverride, AclRecord,
  InMemoryAclStore, grant, deny, acl_key, apply_overrides, decide_record, registry_resolve,
  in_memory_acl_store, build_auto_provision_record, revoking_suspend, revoking_upsert,
  validate_permission_registry,
}
use nap.Server.Acl
use nap.Server.Acl.Effective.{is_granted, is_denied, includes-apply_overrides}
use nap.Server.Acl.Registry.{IsRoleOf, decide_record_iff, registry_resolve_provisions}
use nap.Server.Acl.Revoking.{
  HasOtherRole, IsEnded, revoking_suspend-IsEnded, revoking_upsert-sessions,
}
use nap.Tests.Data.{alice_session, one_session}

abbrev overrides : List PermissionOverride
overrides =
    record { action = deny; permission = text "write" }
    ∷ record { action = grant; permission = text "admin" }
    ∷ []

abbrev base : List Text
base = text "write" ∷ text "read" ∷ []

includes-apply_overrides_example : includes (text "write") (apply_overrides base overrides) ≡ (
    (includes (text "write") base || is_granted (text "write") overrides)
    && not (is_denied (text "write") overrides))
includes-apply_overrides_example = includes-apply_overrides (text "write") base overrides

abbrev registry : PermissionRegistry
registry = record {
  app_id = text "app";
  permissions = record { key = text "read"; description = text "Read"; step_up = false } ∷ [];
  roles =
      record { key = text "member"; description = text "Member"; permissions = text "read" ∷ [] }
      ∷ [];
  default_role = text "member";
}

abbrev member : AclRecord
member = record {
  principal_pubkey = text "a1";
  app_id = text "app";
  role = text "member";
  permission_overrides = [];
  suspended = false;
  suspended_at = none;
  suspended_reason = none;
  created_at = none;
  updated_at = none;
}

decide_record_iff_example :
    let d = decide_record registry (some member) in
    ((d.allowed ≡ true)
      ↔ ((false ≡ false) × (role : RoleDefinition) × IsRoleOf registry member role))
    × ((d.revoke_sessions ≡ some true) ↔ (false ≡ true))
    × ((d.allowed ≡ false)
        ⊎ (role : RoleDefinition) × IsRoleOf registry member role
          × (d.roles ≡ text "member" ∷ [])
          × (d.permissions ≡ apply_overrides role.permissions []))
decide_record_iff_example =
    decide_record_iff registry member (decide_record registry (some member)) refl

abbrev at_login : AclResolutionContext
at_login = record { voucher = none; now = 100; session = none }

registry_resolve_provisions_example :
    let (d, m') =
      registry_resolve registry
        (in_memory_acl_store (text "2026"))
        true
        (text "npub1alice")
        (text "a1")
        at_login
        [] in
    (d.allowed ≡ true)
    × (d.roles ≡ text "member" ∷ [])
    × (get (acl_key (text "app") (text "a1")) m' ≡ some member)
unfolding get nap.Text.text_discrete validate_permission_registry includes Acl.unique_from
    Acl.roles_known Acl.all_known
registry_resolve_provisions_example =
    registry_resolve_provisions registry (text "2026") (text "npub1alice") (text "a1") at_login []
      refl refl

abbrev members : InMemoryAclStore
members = (text "app:a1", member) ∷ []

abbrev suspended : AclRecord
suspended = record member {
  suspended = true;
  suspended_reason = some (text "abuse");
  suspended_at = some (text "2026");
}

revoking_suspend-IsEnded_example :
    let (m', s') =
      revoking_suspend
        (in_memory_acl_store (text "2026"))
        in_memory_session_store
        300
        (text "a1")
        (text "app")
        (some (text "abuse"))
        (members, one_session) in
    IsEnded (text "a1") (get_by_session_id (text "s1") s')
    × (get (acl_key (text "app") (text "a1")) m' ≡ some suspended)
unfolding get nap.Text.text_discrete
revoking_suspend-IsEnded_example =
    revoking_suspend-IsEnded (text "2026") 300 members one_session (text "a1") (text "app")
      (text "s1") (some (text "abuse")) (ground arith)

revoking_upsert-sessions_example :
    let (m', s') =
      revoking_upsert
        (in_memory_acl_store (text "2026"))
        in_memory_session_store
        300
        suspended
        (members, one_session) in
    (get (acl_key (text "app") (text "a1")) m' ≡ some suspended)
    × ((((true ≡ true) ⊎ HasOtherRole (text "2026") 300 members one_session suspended)
          × (get_by_session_id (text "s1") s'
              ≡ some (record alice_session { revoked_at = some 300 })))
        ⊎ ((true ≡ false)
            × (¬ HasOtherRole (text "2026") 300 members one_session suspended)
            × (get_by_session_id (text "s1") s' ≡ some alice_session)))
unfolding get get_by_session_id nap.Text.text_discrete
revoking_upsert-sessions_example =
    revoking_upsert-sessions (text "2026") 300 members one_session suspended (text "s1")
