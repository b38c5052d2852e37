-- ===== src/Server/Acl.antt =====
-- packages/nap-server/src/acl.ts, `InMemoryAclStore` of memory.ts, and their types of types.ts. A
-- `Set` is the list of its members in the order of insertion.
pub mod Effective
pub mod Registry
pub mod Revoking
use nap.Base.{
  ℕ, Bool, true, false, not, ◌&&◌, ◌||◌, Option, none, some, List, [], ◌∷◌, ◌++◌, map, ltb,
  if◌then◌else◌, ◌>>=◌, or_default,
}
use nap.Text.{Text, text, ◌==◌, includes}
use nap.JsMap.{JsMap, get, set}
use nap.Core.Types.{AclDecision}
use nap.Server.Stores.{AclResolver, AclResolutionContext, SessionStore}

pub record PermissionDefinition : Type 0 where
  pub key : Text
  pub description : Text
  pub step_up : Bool

pub record RoleDefinition : Type 0 where
  pub key : Text
  pub description : Text
  pub permissions : List Text

pub record PermissionRegistry : Type 0 where
  pub app_id : Text
  pub permissions : List PermissionDefinition
  pub roles : List RoleDefinition
  pub default_role : Text

pub data Action : Type 0 where
  grant deny : Action

pub record PermissionOverride : Type 0 where
  pub action : Action
  pub permission : Text

pub record AclRecord : Type 0 where
  pub principal_pubkey : Text
  pub app_id : Text
  pub role : Text
  pub permission_overrides : List PermissionOverride
  pub suspended : Bool
  pub suspended_at : Option Text
  pub suspended_reason : Option Text
  pub created_at : Option Text
  pub updated_at : Option Text

pub record AclStore (A : Type 0) : Type 0 where
  pub get : Text → Text → A → Option AclRecord
  pub upsert : AclRecord → A → A
  pub suspend : Text → Text → Option Text → A → A
  pub unsuspend : Text → Text → A → A

-- The `seen` loop of `validateUniqueKeys`; `false` stands for the error that it throws.
unfoldable pub unique_from : List Text → List Text → Bool
unique_from seen [] = true
unique_from seen (v ∷ values) =
    let rest = unique_from (v ∷ seen) values in if includes v seen then false else rest

abbrev validate_unique_keys : List Text → Bool
validate_unique_keys values = unique_from [] values

unfoldable pub all_known : List Text → List Text → Bool
all_known [] known = true
all_known (p ∷ ps) known = if includes p known then all_known ps known else false

unfoldable pub roles_known : List RoleDefinition → List Text → Bool
roles_known [] known = true
roles_known (r ∷ rs) known = if all_known r.permissions known then roles_known rs known else false

abbrev pub permission_keys : PermissionRegistry → List Text
permission_keys registry = map (λ p. p.key) registry.permissions

abbrev pub role_keys : PermissionRegistry → List Text
role_keys registry = map (λ r. r.key) registry.roles

-- `true` where `validatePermissionRegistry` returns.
unfoldable pub validate_permission_registry : PermissionRegistry → Bool
validate_permission_registry registry =
    validate_unique_keys (permission_keys registry)
    && validate_unique_keys (role_keys registry)
    && includes registry.default_role (role_keys registry)
    && roles_known registry.roles (permission_keys registry)

-- `set.add(value)`
unfoldable pub add_to_set : Text → List Text → List Text
add_to_set v xs = if includes v xs then xs else xs ++ (v ∷ [])

-- `new Set(values)`, from the members that are in already.
unfoldable pub set_of : List Text → List Text → List Text
set_of members [] = members
set_of members (v ∷ values) = set_of (add_to_set v members) values

-- The loop over the overrides: what is granted and what is denied.
unfoldable pub sort_overrides :
    List PermissionOverride → List Text → List Text → List Text × List Text
sort_overrides [] granted denied = (granted, denied)
sort_overrides (o ∷ os) granted denied = elim o.action [
  | grant ↦ sort_overrides os (add_to_set o.permission granted) denied
  | deny ↦ sort_overrides os granted (add_to_set o.permission denied)
]

unfoldable pub without : List Text → List Text → List Text
without denied [] = []
without denied (p ∷ ps) =
    let rest = without denied ps in if includes p denied then rest else p ∷ rest

-- The order of `sort()`: by code units.
unfoldable pub precedes : Text → Text → Bool
precedes [] t = true
precedes (c ∷ s) [] = false
precedes (c ∷ s) (d ∷ t) = if ltb c d then true else if ltb d c then false else precedes s t

unfoldable pub insert_sorted : Text → List Text → List Text
insert_sorted t [] = t ∷ []
insert_sorted t (u ∷ us) = if precedes t u then t ∷ u ∷ us else u ∷ insert_sorted t us

unfoldable pub sort : List Text → List Text
sort [] = []
sort (t ∷ ts) = insert_sorted t (sort ts)

unfoldable pub apply_overrides : List Text → List PermissionOverride → List Text
apply_overrides base overrides =
    let (granted, denied) = sort_overrides overrides (set_of [] base) [] in
    sort (without denied granted)

abbrev pub denied : Text → Bool → AclDecision
denied reason revoke_sessions = record {
  allowed = false;
  roles = [];
  permissions = [];
  reason = some reason;
  revoke_sessions = if revoke_sessions then some true else none;
  expires_at = none;
}

abbrev pub allowed : Text → List Text → AclDecision
allowed role permissions = record {
  allowed = true;
  roles = role ∷ [];
  permissions = permissions;
  reason = none;
  revoke_sessions = none;
  expires_at = none;
}

abbrev pub build_auto_provision_record : PermissionRegistry → Text → AclRecord
build_auto_provision_record registry pubkey = record {
  principal_pubkey = pubkey;
  app_id = registry.app_id;
  role = registry.default_role;
  permission_overrides = [];
  suspended = false;
  suspended_at = none;
  suspended_reason = none;
  created_at = none;
  updated_at = none;
}

-- `registry.roles.find((candidate) => candidate.key === key)`
unfoldable pub find_role : Text → List RoleDefinition → Option RoleDefinition
find_role key [] = none
find_role key (r ∷ rs) = if r.key == key then some r else find_role key rs

-- What `resolve` decides on a record.
unfoldable pub decide_record : PermissionRegistry → Option AclRecord → AclDecision
decide_record registry none = denied (text "no_acl_record") false
decide_record registry (some r) =
    if r.suspended then denied (text "suspended") true else elim (find_role r.role registry.roles) [
      | none ↦ denied (text "unknown_role") false
      | some role ↦ allowed role.key (apply_overrides role.permissions r.permission_overrides)
    ]

module _ {A : Type 0} (registry : PermissionRegistry) (store : AclStore A)
    (auto_provision : Bool) where
  unfoldable pub resolve_acl_record : Text → A → Option AclRecord × A
  resolve_acl_record pubkey a = elim (store.get pubkey registry.app_id a) [
    | some existing ↦ (some existing, a)
    | none ↦
        if auto_provision
        then (let a' = store.upsert (build_auto_provision_record registry pubkey) a in
            (store.get pubkey registry.app_id a', a'))
        else (none, a)
  ]

  -- The `resolve` of `createRegistryAclResolver`, which is built only over a valid registry.
  unfoldable pub registry_resolve : Text → Text → AclResolutionContext → A → AclDecision × A
  registry_resolve npub pubkey context a =
      let (r, a') = resolve_acl_record pubkey a in (decide_record registry r, a')

  unfoldable pub create_registry_acl_resolver : Option (AclResolver A)
  create_registry_acl_resolver =
      if validate_permission_registry registry
      then some (record { resolve = registry_resolve })
      else none

abbrev pub InMemoryAclStore : Type 0
InMemoryAclStore = JsMap AclRecord

-- The key under which a record is kept.
abbrev pub acl_key : Text → Text → Text
acl_key app_id pubkey = app_id ++ (text ":" ++ pubkey)

-- `iso_now` is what `new Date().toISOString()` returns.
abbrev pub in_memory_acl_store : Text → AclStore InMemoryAclStore
in_memory_acl_store iso_now = record {
  get = λ pubkey app_id m. get (acl_key app_id pubkey) m;
  upsert = λ r m. set (acl_key r.app_id r.principal_pubkey) r m;
  suspend = λ pubkey app_id reason m. elim (get (acl_key app_id pubkey) m) [
    | none ↦ m
    | some r ↦
        set (acl_key app_id pubkey)
          (record r { suspended = true; suspended_reason = reason; suspended_at = some iso_now }) m
  ];
  unsuspend = λ pubkey app_id m. elim (get (acl_key app_id pubkey) m) [
    | none ↦ m
    | some r ↦
        set (acl_key app_id pubkey)
          (record r { suspended = false; suspended_reason = none; suspended_at = none }) m
  ];
}

abbrev pub changes_role : Option AclRecord → AclRecord → Bool
changes_role none r = false
changes_role (some previous) r = not (previous.role == r.role)

-- `createRevokingAclStore`, over the states of both stores; `now` is the clock's reading.
module _ {A S : Type 0} (store : AclStore A) (sessions : SessionStore S) (now : ℕ) where
  unfoldable pub revoking_upsert : AclRecord → A × S → A × S
  revoking_upsert r (a, s) =
      let previous = store.get r.principal_pubkey r.app_id a in
      let a' = store.upsert r a in
      if changes_role previous r || r.suspended
      then (a', (sessions.revoke_by_principal r.principal_pubkey now s).1)
      else (a', s)

  unfoldable pub revoking_suspend : Text → Text → Option Text → A × S → A × S
  revoking_suspend pubkey app_id reason (a, s) =
      (store.suspend pubkey app_id reason a, (sessions.revoke_by_principal pubkey now s).1)

  abbrev pub create_revoking_acl_store : AclStore (A × S)
  create_revoking_acl_store = record {
    get = λ pubkey app_id st. store.get pubkey app_id st.0;
    upsert = revoking_upsert;
    suspend = revoking_suspend;
    unsuspend = λ pubkey app_id st. (store.unsuspend pubkey app_id st.0, st.1);
  }
