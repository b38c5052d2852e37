-- ===== src/Server/Sessions/Revocation.antt =====
-- Revocation in `InMemorySessionStore`: by session and by principal.
use nap.Base.{
  ℕ, ◌≡◌, inl, inr, refl, Bool, true, false, ◌||◌, Option, none, some, [], ◌∷◌, arith,
  if◌then◌else◌, Option-cases, eqb, truthy_number,
}
use nap.Text.{Text, ◌==◌}
use nap.JsMap.{JsMap, get}
use nap.Core.Types.{SessionRecord}
use nap.Server.Sessions.{
  InMemorySessionStore, write, is_revocable, revoke_by_session_id, revoke_all, revoke_by_principal,
  get_by_session_id,
}
use nap.Server.Sessions.Coherent.{IsCoherent, SameKeys, SameKeys-IsCoherent}

abbrev pub refers : ℕ → JsMap ℕ → Bool
refers q [] = false
refers q ((id, ref) ∷ m) = eqb q ref || refers q m

pub refers_of_get : (id : Text) (q : ℕ) (m : JsMap ℕ) → get id m ≡ some q → refers q m ≡ true
unfolding get
refers_of_get id q [] h = cc
refers_of_get id q ((j, ref) ∷ m) h = ground (arith, refers_of_get id q m)

-- A session of the principal that is not yet revoked is stamped; any other stays as it is.
abbrev pub revoke_if : Text → ℕ → SessionRecord → SessionRecord
revoke_if pubkey now r =
    if r.principal_pubkey == pubkey
    then (if truthy_number r.revoked_at then r else record r { revoked_at = some now })
    else r

revoke_if_idem :
    (pubkey : Text) (now : ℕ) (r : SessionRecord)
    → revoke_if pubkey now (revoke_if pubkey now r) ≡ revoke_if pubkey now r
revoke_if_idem pubkey now r = ground arith

pub revoke_all_lem :
    (pubkey : Text) (now : ℕ) (m : JsMap ℕ) (objects : ℕ → SessionRecord) (q : ℕ)
    → (revoke_all pubkey now m objects).1 q
      ≡ (if refers q m then revoke_if pubkey now (objects q) else objects q)
unfolding revoke_all
revoke_all_lem pubkey now [] objects q = refl
revoke_all_lem pubkey now ((id, ref) ∷ m) objects q =
    let objects' =
      if is_revocable pubkey (objects ref)
      then write objects ref (record (objects ref) { revoked_at = some now })
      else objects in
    ground (arith, revoke_all_lem pubkey now m objects' q, revoke_if_idem pubkey now (objects q))

abbrev pub on_some : {A : Type 0} → (A → A) → Option A → Option A
on_some f none = none
on_some f (some r) = some (f r)

-- Revoking a principal stamps each of its sessions that is not yet revoked, and changes no other
-- session and no other field.
pub get-revoke_by_principal :
    (id pubkey : Text) (now : ℕ) (s : InMemorySessionStore)
    → get_by_session_id id (revoke_by_principal pubkey now s).1
      ≡ on_some (revoke_if pubkey now) (get_by_session_id id s)
unfolding get_by_session_id revoke_by_principal
get-revoke_by_principal id pubkey now s = elim (Option-cases (get id s.sessions_by_id)) [
  | inl e ↦ ground arith
  | inr (ref, e) ↦ ground (
    arith,
    revoke_all_lem pubkey now s.sessions_by_id s.objects ref,
    refers_of_get id ref s.sessions_by_id e,
  )
]

revoke_all-SameKeys :
    (pubkey : Text) (now : ℕ) (s : InMemorySessionStore) (q : ℕ)
    → SameKeys s.objects (revoke_all pubkey now s.sessions_by_id s.objects).1 q
revoke_all-SameKeys pubkey now s q =
    ground (arith, revoke_all_lem pubkey now s.sessions_by_id s.objects q)

pub revoke_by_principal-IsCoherent :
    (pubkey : Text) (now : ℕ) (s : InMemorySessionStore)
    → IsCoherent s
    → IsCoherent (revoke_by_principal pubkey now s).1
unfolding revoke_by_principal
revoke_by_principal-IsCoherent pubkey now s v =
    SameKeys-IsCoherent s _ (revoke_all-SameKeys pubkey now s) v

pub revoke_by_session_id-IsCoherent :
    (id : Text) (now : ℕ) (s : InMemorySessionStore)
    → IsCoherent s
    → IsCoherent (revoke_by_session_id id now s)
unfolding revoke_by_session_id
revoke_by_session_id-IsCoherent id now s v = elim (Option-cases (get id s.sessions_by_id)) [
  | inl e ↦ rw (e, revoke_by_session_id) v
  | inr (ref, e) ↦ rw (e, revoke_by_session_id) (SameKeys-IsCoherent s _ (λ q. ground arith) v)
]
