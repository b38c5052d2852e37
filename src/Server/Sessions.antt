-- ===== src/Server/Sessions.antt =====
-- `InMemorySessionStore` of packages/nap-server/src/memory.ts. The four maps hold references to
-- shared objects: `objects` is the heap, `next` the next free reference. The reading of the store's
-- clock is the field `clock`. What a method returns is the object's value at that moment.
pub mod Coherent
pub mod Revocation
pub mod Rotation
pub mod Sweep
pub mod Runs
pub mod Lookup
use nap.Base.{
  ℕ, suc, ◌+◌, ◌-◌, max, Bool, true, false, not, ◌&&◌, ◌||◌, Option, none, some, List, [], ◌∷◌, leb,
  ltb, eqb, if◌then◌else◌, or_default, truthy_number,
}
use nap.Text.{Text, ◌==◌, is_text, truthy}
use nap.JsMap.{JsMap, get, set, delete}
use nap.Core.Types.{SessionRecord}
use nap.Server.Stores.{RotateRefreshTokenParams, SessionStore}

pub record InMemorySessionStore : Type 0 where
  pub clock : ℕ
  pub objects : ℕ → SessionRecord
  pub next : ℕ
  pub sessions_by_challenge_id : JsMap ℕ
  pub sessions_by_id : JsMap ℕ
  pub sessions_by_access_token : JsMap ℕ
  pub sessions_by_refresh_token : JsMap ℕ
  pub last_swept_at : Option ℕ

abbrev pub write : (ℕ → SessionRecord) → ℕ → SessionRecord → ℕ → SessionRecord
write objects ref r q = if eqb q ref then r else objects q

abbrev pub given : Option Text → Text
given none = []
given (some t) = t

-- `if (token) map.set(token, ref)`
abbrev pub set_if : Option Text → ℕ → JsMap ℕ → JsMap ℕ
set_if token ref m = if truthy token then set (given token) ref m else m

-- `if (token) map.delete(token)`
abbrev pub delete_if : Option Text → JsMap ℕ → JsMap ℕ
delete_if token m = if truthy token then delete (given token) m else m

abbrev pub retain_until : SessionRecord → ℕ
retain_until r = max r.expires_at (or_default r.refresh_expires_at 0)

unfoldable pub drop_session : Text → SessionRecord → InMemorySessionStore → InMemorySessionStore
drop_session id r s = record s {
  sessions_by_id = delete id s.sessions_by_id;
  sessions_by_challenge_id = delete r.challenge_id s.sessions_by_challenge_id;
  sessions_by_access_token = delete r.access_token s.sessions_by_access_token;
  sessions_by_refresh_token =
      delete_if r.previous_refresh_token (delete_if r.refresh_token s.sessions_by_refresh_token);
}

-- The loop of `sweep` over the entries of `sessionsById`.
unfoldable pub drop_dead : ℕ → JsMap ℕ → InMemorySessionStore → InMemorySessionStore
drop_dead now [] s = s
drop_dead now ((id, ref) ∷ entries) s =
    drop_dead now entries
      (if leb now (retain_until (s.objects ref)) then s else drop_session id (s.objects ref) s)

abbrev pub is_swept : ℕ → Option ℕ → Bool
is_swept now none = false
is_swept now (some at) = leb now at

unfoldable pub sweep : ℕ → InMemorySessionStore → InMemorySessionStore
sweep now s =
    if is_swept now s.last_swept_at
    then s
    else drop_dead now s.sessions_by_id (record s { last_swept_at = some now })

-- A copy of the record, entered into the maps.
unfoldable pub store_new :
    SessionRecord → InMemorySessionStore → SessionRecord × InMemorySessionStore
store_new r s = (
  r,
  record s {
    objects = write s.objects s.next r;
    next = suc s.next;
    sessions_by_challenge_id = set r.challenge_id s.next s.sessions_by_challenge_id;
    sessions_by_id = set r.session_id s.next s.sessions_by_id;
    sessions_by_access_token = set r.access_token s.next s.sessions_by_access_token;
    sessions_by_refresh_token = set_if r.refresh_token s.next s.sessions_by_refresh_token;
  },
)

unfoldable pub create_swept :
    SessionRecord → InMemorySessionStore → SessionRecord × InMemorySessionStore
create_swept r s = elim (get r.challenge_id s.sessions_by_challenge_id) [
  | some ref ↦ (s.objects ref, s)
  | none ↦ store_new r s
]

unfoldable pub create_for_challenge :
    SessionRecord → InMemorySessionStore → SessionRecord × InMemorySessionStore
create_for_challenge r s = create_swept r (sweep s.clock s)

abbrev pub object_at : InMemorySessionStore → Option ℕ → Option SessionRecord
object_at s none = none
object_at s (some ref) = some (s.objects ref)

unfoldable pub get_by_session_id : Text → InMemorySessionStore → Option SessionRecord
get_by_session_id id s = object_at s (get id s.sessions_by_id)

unfoldable pub get_by_access_token :
    Text → InMemorySessionStore → Option SessionRecord × InMemorySessionStore
get_by_access_token token s =
    let s' = sweep s.clock s in (object_at s' (get token s'.sessions_by_access_token), s')

unfoldable pub revoke_by_session_id : Text → ℕ → InMemorySessionStore → InMemorySessionStore
revoke_by_session_id id now s = elim (get id s.sessions_by_id) [
  | none ↦ s
  | some ref ↦ record s {
    objects = write s.objects ref (record (s.objects ref) { revoked_at = some now });
  }
]

abbrev pub is_revocable : Text → SessionRecord → Bool
is_revocable pubkey r = (r.principal_pubkey == pubkey) && not (truthy_number r.revoked_at)

-- The loop of `revokeByPrincipal` over the sessions: how many it revokes, and the objects.
unfoldable pub revoke_all : Text → ℕ → JsMap ℕ → (ℕ → SessionRecord) → ℕ × (ℕ → SessionRecord)
revoke_all pubkey now [] objects = (0, objects)
revoke_all pubkey now ((id, ref) ∷ entries) objects =
    let here = is_revocable pubkey (objects ref) in
    let objects' =
      if here
      then write objects ref (record (objects ref) { revoked_at = some now })
      else objects in
    let (count, rest) = revoke_all pubkey now entries objects' in
    ((if here then suc count else count), rest)

unfoldable pub revoke_by_principal : Text → ℕ → InMemorySessionStore → ℕ × InMemorySessionStore
revoke_by_principal pubkey now s =
    let (count, objects) = revoke_all pubkey now s.sessions_by_id s.objects in
    (count, record s { objects = objects })

unfoldable pub get_by_refresh_token : Text → InMemorySessionStore → Option SessionRecord
get_by_refresh_token token s = object_at s (get token s.sessions_by_refresh_token)

-- The session after its rotation.
abbrev pub rotated : RotateRefreshTokenParams → SessionRecord → SessionRecord
rotated p r = record r {
  previous_refresh_token = r.refresh_token;
  refresh_token = some p.refresh_token;
  access_token = p.access_token;
  expires_at = p.expires_at;
  refresh_expires_at = some p.refresh_expires_at;
  roles = p.roles;
  permissions = p.permissions;
}

unfoldable pub rotate_object :
    ℕ → RotateRefreshTokenParams → InMemorySessionStore → InMemorySessionStore
rotate_object ref p s = record s {
  objects = write s.objects ref (rotated p (s.objects ref));
  sessions_by_access_token =
      set p.access_token ref (delete (s.objects ref).access_token s.sessions_by_access_token);
  sessions_by_refresh_token =
      set p.refresh_token ref
        (delete_if (s.objects ref).previous_refresh_token s.sessions_by_refresh_token);
}

unfoldable pub rotate_refresh_token :
    Text
    → RotateRefreshTokenParams
    → InMemorySessionStore
    → Option SessionRecord × InMemorySessionStore
rotate_refresh_token id p s = elim (get id s.sessions_by_id) [
  | none ↦ (none, s)
  | some ref ↦
      if is_text (s.objects ref).refresh_token p.expected_refresh_token
      then (some (rotated p (s.objects ref)), rotate_object ref p s)
      else (none, s)
]

abbrev pub in_memory_session_store : SessionStore InMemorySessionStore
in_memory_session_store = record {
  create_for_challenge = create_for_challenge;
  get_by_session_id = get_by_session_id;
  get_by_access_token = get_by_access_token;
  revoke_by_session_id = revoke_by_session_id;
  revoke_by_principal = revoke_by_principal;
  get_by_refresh_token = some get_by_refresh_token;
  rotate_refresh_token = some rotate_refresh_token;
}
