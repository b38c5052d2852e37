-- ===== src/Server/Acl/Registry.antt =====
-- Decisions of `createRegistryAclResolver`, and the keys of `InMemoryAclStore`.
use nap.Base.{
  ◌≡◌, refl, subst, Option-cases, IsMember, here, later, ◌≢◌, ◌↔◌, ◌⊎◌, true, false, none, some,
  List, [], ◌∷◌, arith, map, Bool-cases, inl, inr,
}
use nap.Text.{Text, ==_iff, ◌==◌, includes}
use nap.Text.Split.{has, split_at_last}
use nap.JsMap.{get, get-set}
use nap.Core.Types.{AclDecision}
use nap.Server.Stores.{AclResolutionContext}
use nap.Server.Acl.{
  RoleDefinition, PermissionRegistry, AclRecord, InMemoryAclStore, acl_key, in_memory_acl_store,
  find_role, apply_overrides, decide_record, resolve_acl_record, registry_resolve,
  build_auto_provision_record, role_keys, validate_permission_registry,
}

-- Two records of `InMemoryAclStore` share a key only if they are of one application and one
-- principal. (No public key has a colon.)
pub acl_key-injective :
    (app_id app_id' pubkey pubkey' : Text)
    → has b':' pubkey ≡ false
    → has b':' pubkey' ≡ false
    → acl_key app_id pubkey ≡ acl_key app_id' pubkey'
    → (app_id ≡ app_id') × (pubkey ≡ pubkey')
acl_key-injective app_id app_id' pubkey pubkey' h h' e =
    split_at_last b':' app_id app_id' pubkey pubkey' h h' e

find_role-member :
    (key : Text) (roles : List RoleDefinition) (role : RoleDefinition)
    → find_role key roles ≡ some role
    → IsMember role roles × (role.key ≡ key)
unfolding find_role
find_role-member key [] role h = cc
find_role-member key (r ∷ rs) role h = elim (Bool-cases (r.key == key)) [
  | inl same ↦
      let first : r ≡ role = ground (arith, same, h) in
      (
        subst (λ x. IsMember x (r ∷ rs)) first here,
        ground (arith, first, (==_iff r.key key).0 same),
      )
  | inr other ↦
      let (member, named) = find_role-member key rs role (ground (arith, other, h)) in
      (later member, named)
]

find_role-finds :
    (role : RoleDefinition) (roles : List RoleDefinition)
    → IsMember role roles
    → find_role role.key roles ≢ none
unfolding find_role
find_role-finds role [] h = elim h [ ]
find_role-finds role (r ∷ rs) here = ground (arith, (==_iff role.key role.key).1 refl)
find_role-finds role (r ∷ rs) (later h) = ground (arith, find_role-finds role rs h)

-- A role of the registry that the record names.
pub record IsRoleOf (registry : PermissionRegistry) (r : AclRecord) (role : RoleDefinition)
    : Type 0 where
  pub member : IsMember role registry.roles
  pub named : role.key ≡ r.role

-- The resolver allows a principal exactly when its record is not suspended and names a role of the
-- registry, with that role and the effective permissions; it ends the principal's sessions exactly
-- when the record is suspended.
pub decide_record_iff :
    (registry : PermissionRegistry) (r : AclRecord) (d : AclDecision)
    → decide_record registry (some r) ≡ d
    → ((d.allowed ≡ true)
        ↔ ((r.suspended ≡ false) × (role : RoleDefinition) × IsRoleOf registry r role))
      × ((d.revoke_sessions ≡ some true) ↔ (r.suspended ≡ true))
      × ((d.allowed ≡ false)
          ⊎ (role : RoleDefinition) × IsRoleOf registry r role
            × (d.roles ≡ r.role ∷ [])
            × (d.permissions ≡ apply_overrides role.permissions r.permission_overrides))
unfolding decide_record
decide_record_iff registry r d e = elim (Option-cases (find_role r.role registry.roles)) [
  | inl f ↦ (
    (
      λ h. ground (arith, e, f, h),
      λ (live, role, i).
          let found = find_role-finds role registry.roles i.member in
          ground (arith, f, found, i.named),
    ),
    ground (arith, e, f),
    inl (ground (arith, e, f)),
  )
  | inr (role, f) ↦
      let (member, named) = find_role-member r.role registry.roles role f in
      let i : IsRoleOf registry r role = record { member = member; named = named } in
      (
        (λ h. (ground (arith, e, f, h), role, i), λ h. ground (arith, e, f, h.0)),
        ground (arith, e, f),
        elim (Bool-cases r.suspended) [
          | inl out ↦ inl (ground (arith, e, out))
          | inr live ↦ inr (role, i, ground (arith, e, f, live, named), ground (arith, e, f, live))
        ],
      )
]

find_role_of_key :
    (key : Text) (roles : List RoleDefinition)
    → includes key (map (λ r. r.key) roles) ≡ true
    → (role : RoleDefinition) × (find_role key roles ≡ some role) × (role.key ≡ key)
unfolding find_role includes
find_role_of_key key [] h = cc
find_role_of_key key (r ∷ rs) h = elim (Bool-cases (r.key == key)) [
  | inl same ↦ (r, ground arith, ground arith)
  | inr other ↦
      let (role, found, named) = find_role_of_key key rs (ground arith) in
      (role, ground arith, named)
]

valid_default :
    (registry : PermissionRegistry)
    → validate_permission_registry registry ≡ true
    → includes registry.default_role (role_keys registry) ≡ true
unfolding validate_permission_registry
valid_default registry h = ground arith

-- Over a valid registry that provisions principals, one without a record is let in with the default
-- role and no override, and that record is stored.
pub registry_resolve_provisions :
    (registry : PermissionRegistry) (iso_now npub pubkey : Text) (context : AclResolutionContext)
    (m : InMemoryAclStore)
    → validate_permission_registry registry ≡ true
    → get (acl_key registry.app_id pubkey) m ≡ none
    → let (d, m') =
        registry_resolve registry (in_memory_acl_store iso_now) true npub pubkey context m in
      (d.allowed ≡ true)
      × (d.roles ≡ registry.default_role ∷ [])
      × (get (acl_key registry.app_id pubkey) m'
          ≡ some (record {
            principal_pubkey = pubkey;
            app_id = registry.app_id;
            role = registry.default_role;
            permission_overrides = [];
            suspended = false;
            suspended_at = none;
            suspended_reason = none;
            created_at = none;
            updated_at = none;
          }))
unfolding registry_resolve resolve_acl_record decide_record
registry_resolve_provisions registry iso_now npub pubkey context m valid absent =
    let (role, found, named) =
      find_role_of_key registry.default_role registry.roles (valid_default registry valid) in
    ground (
      arith,
      get-set (acl_key registry.app_id pubkey) (acl_key registry.app_id pubkey)
          (build_auto_provision_record registry pubkey) m,
    )
