-- ===== src/Server/Sessions/Sweep.antt =====
-- The sweep of `InMemorySessionStore`: a dead session leaves all four maps.
use nap.Base.{
  ℕ, ◌≤◌, ◌≡◌, ◌≢◌, ◌⊎◌, inl, inr, refl, false, none, some, [], ◌∷◌, arith, Bool-cases, leb, All,
}
use nap.Text.{Text}
use nap.JsMap.{JsMap, IsMap, get, get-delete, delete-IsMap}
use nap.Core.Types.{SessionRecord}
use nap.Server.Sessions.{
  InMemorySessionStore, retain_until, drop_session, drop_dead, is_swept, sweep, delete_if,
}
use nap.Server.Sessions.Coherent.{IsCoherent, IsHeld, get-delete_if, is_token_of}

module _ (id : Text) (ref : ℕ) (s : InMemorySessionStore) (v : IsCoherent s)
    (found : get id s.sessions_by_id ≡ some ref) where
  drop_session-IsHeld :
      (q : ℕ) → IsHeld s q → q ≢ ref → IsHeld (drop_session id (s.objects ref) s) q
  unfolding drop_session
  drop_session-IsHeld q h ne =
      ground (arith, get-delete id (s.objects q).session_id s.sessions_by_id)

  drop_session-IsCoherent : IsCoherent (drop_session id (s.objects ref) s)
  unfolding drop_session
  drop_session-IsCoherent = record {
    allocated = λ j q e. ground (arith, get-delete id j s.sessions_by_id, v.allocated j q);
    by_id = λ j q e. ground (arith, get-delete id j s.sessions_by_id, v.by_id j q);
    by_challenge_id = λ j q e. ground (
      arith,
      get-delete (s.objects ref).challenge_id j s.sessions_by_challenge_id,
      v.by_challenge_id j q,
      drop_session-IsHeld q,
    );
    by_access_token = λ j q e. ground (
      arith,
      get-delete (s.objects ref).access_token j s.sessions_by_access_token,
      v.by_access_token j q,
      drop_session-IsHeld q,
    );
    by_refresh_token = λ j q e. ground (
      arith,
      get-delete_if (s.objects ref).previous_refresh_token j
          (delete_if (s.objects ref).refresh_token s.sessions_by_refresh_token),
      get-delete_if (s.objects ref).refresh_token j s.sessions_by_refresh_token,
      is_token_of (s.objects ref).previous_refresh_token j,
      is_token_of (s.objects ref).refresh_token j,
      v.by_refresh_token j q,
      drop_session-IsHeld q,
    );
  }

-- The entries are still those of the store.
abbrev Listed : InMemorySessionStore → JsMap ℕ → Type 0
Listed s = All (λ e. get e.0 s.sessions_by_id ≡ some e.1)

drop_session-objects :
    (id : Text) (r : SessionRecord) (s : InMemorySessionStore) (q : ℕ)
    → (drop_session id r s).objects q ≡ s.objects q
unfolding drop_session
drop_session-objects id r s q = refl

Listed-drop :
    (id : Text) (r : SessionRecord) (s : InMemorySessionStore) (entries : JsMap ℕ)
    → get id entries ≡ none
    → Listed s entries
    → Listed (drop_session id r s) entries
unfolding drop_session get
Listed-drop id r s [] h l = tt
Listed-drop id r s ((j, q) ∷ entries) h l =
    ground (arith, get-delete id j s.sessions_by_id, Listed-drop id r s entries, l.1)

Listed-cons :
    (k : Text) (v : ℕ) (m entries : JsMap ℕ)
    → get k m ≡ none
    → All (λ e. get e.0 m ≡ some e.1) entries
    → All (λ e. get e.0 ((k, v) ∷ m) ≡ some e.1) entries
unfolding get
Listed-cons k v m [] h l = tt
Listed-cons k v m ((j, w) ∷ entries) h l = (ground arith, Listed-cons k v m entries h l.1)

Listed_self : (m : JsMap ℕ) → IsMap m → All (λ e. get e.0 m ≡ some e.1) m
Listed_self [] u = tt
Listed_self ((k, v) ∷ m) u =
    (unfold get in ground arith, Listed-cons k v m m u.0 (Listed_self m u.1))

-- What the loop of the sweep keeps while it runs over the entries that are left.
drop_dead-IsCoherent :
    (now : ℕ) (entries : JsMap ℕ) (s : InMemorySessionStore)
    → IsCoherent s
    → IsMap entries
    → Listed s entries
    → IsCoherent (drop_dead now entries s)
unfolding drop_dead
drop_dead-IsCoherent now [] s v u l = v
drop_dead-IsCoherent now ((id, ref) ∷ entries) s v u l =
    elim (Bool-cases (leb now (retain_until (s.objects ref)))) [
      | inl live ↦ rw live (drop_dead-IsCoherent now entries s v u.1 l.1)
      | inr dead ↦ rw dead (
          drop_dead-IsCoherent now entries _ (drop_session-IsCoherent id ref s v l.0) u.1
            (Listed-drop id (s.objects ref) s entries u.0 l.1))
    ]

pub drop_dead-objects :
    (now : ℕ) (entries : JsMap ℕ) (s : InMemorySessionStore) (q : ℕ)
    → (drop_dead now entries s).objects q ≡ s.objects q
unfolding drop_dead drop_session
drop_dead-objects now [] s q = refl
drop_dead-objects now ((id, ref) ∷ entries) s q = ground (
  arith,
  drop_dead-objects now entries s q,
  drop_dead-objects now entries (drop_session id (s.objects ref) s) q,
)

drop_dead-absent :
    (now : ℕ) (entries : JsMap ℕ) (s : InMemorySessionStore) (j : Text)
    → get j s.sessions_by_id ≡ none
    → get j (drop_dead now entries s).sessions_by_id ≡ none
unfolding drop_dead drop_session
drop_dead-absent now [] s j h = h
drop_dead-absent now ((id, ref) ∷ entries) s j h = ground (
  arith,
  get-delete id j s.sessions_by_id,
  drop_dead-absent now entries s j,
  drop_dead-absent now entries (drop_session id (s.objects ref) s) j,
)

-- A session that is listed and is still there after the loop is alive.
drop_dead-live :
    (now : ℕ) (entries : JsMap ℕ) (s : InMemorySessionStore) (j : Text) (q : ℕ)
    → get j entries ≡ some q
    → get j (drop_dead now entries s).sessions_by_id ≡ some q
    → now ≤ retain_until (s.objects q)
unfolding drop_dead get drop_session
drop_dead-live now [] s j q h e = cc
drop_dead-live now ((id, ref) ∷ entries) s j q h e = ground (
  arith,
  get-delete id j s.sessions_by_id,
  drop_dead-live now entries s j q,
  drop_dead-live now entries (drop_session id (s.objects ref) s) j q,
  drop_dead-absent now entries (drop_session id (s.objects ref) s) j,
)

pub drop_dead-listed :
    (now : ℕ) (entries : JsMap ℕ) (s : InMemorySessionStore) (j : Text) (q : ℕ)
    → get j (drop_dead now entries s).sessions_by_id ≡ some q
    → get j s.sessions_by_id ≡ some q
unfolding drop_dead drop_session
drop_dead-listed now [] s j q e = e
drop_dead-listed now ((id, ref) ∷ entries) s j q e = ground (
  arith,
  get-delete id j s.sessions_by_id,
  drop_dead-listed now entries s j q,
  drop_dead-listed now entries (drop_session id (s.objects ref) s) j q,
)

-- The stored maps are maps, and coherent.
pub record IsSound (s : InMemorySessionStore) : Type 0 where
  pub is_map : IsMap s.sessions_by_id
  pub coherent : IsCoherent s

pub sweep-IsCoherent : (now : ℕ) (s : InMemorySessionStore) → IsSound s → IsCoherent (sweep now s)
unfolding sweep
sweep-IsCoherent now s v = elim (Bool-cases (is_swept now s.last_swept_at)) [
  | inl done ↦ rw done v.coherent
  | inr due ↦ rw due (
      drop_dead-IsCoherent now s.sessions_by_id _
        (record {
          allocated = v.coherent.allocated;
          by_id = v.coherent.by_id;
          by_challenge_id = v.coherent.by_challenge_id;
          by_access_token = v.coherent.by_access_token;
          by_refresh_token = v.coherent.by_refresh_token;
        })
        v.is_map (Listed_self s.sessions_by_id v.is_map))
]

module _ (now : ℕ) (s : InMemorySessionStore) (v : IsSound s)
    (due : is_swept now s.last_swept_at ≡ false) where
  held_live : (q : ℕ) → IsHeld (sweep now s) q → now ≤ retain_until ((sweep now s).objects q)
  unfolding sweep
  held_live q h =
      let s' = record s { last_swept_at = some now } in
      ground (
        arith,
        drop_dead-objects now s.sessions_by_id s' q,
        drop_dead-listed now s.sessions_by_id s' ((sweep now s).objects q).session_id q,
        drop_dead-live now s.sessions_by_id s' ((sweep now s).objects q).session_id q,
      )

  -- After a sweep that runs no map, whether by session, challenge, access token or refresh token,
  -- leads to a session whose access and refresh bounds have both passed.
  pub sweep_live :
      (key : Text) (q : ℕ)
      → (get key (sweep now s).sessions_by_id ≡ some q)
        ⊎ (get key (sweep now s).sessions_by_challenge_id ≡ some q)
        ⊎ (get key (sweep now s).sessions_by_access_token ≡ some q)
        ⊎ (get key (sweep now s).sessions_by_refresh_token ≡ some q)
      → now ≤ retain_until ((sweep now s).objects q)
  sweep_live key q h =
      let c = sweep-IsCoherent now s v in
      ground (
        arith,
        c.by_id key q,
        c.by_challenge_id key q,
        c.by_access_token key q,
        c.by_refresh_token key q,
        held_live q,
      )

drop_dead-IsMap :
    (now : ℕ) (entries : JsMap ℕ) (s : InMemorySessionStore)
    → IsMap s.sessions_by_id
    → IsMap (drop_dead now entries s).sessions_by_id
unfolding drop_dead drop_session
drop_dead-IsMap now [] s h = h
drop_dead-IsMap now ((id, ref) ∷ entries) s h = ground (
  arith,
  drop_dead-IsMap now entries s,
  drop_dead-IsMap now entries (drop_session id (s.objects ref) s),
  delete-IsMap id s.sessions_by_id,
)

pub sweep-IsSound : (now : ℕ) (s : InMemorySessionStore) → IsSound s → IsSound (sweep now s)
unfolding sweep
sweep-IsSound now s v = record {
  is_map = ground (
    arith,
    v.is_map,
    drop_dead-IsMap now s.sessions_by_id (record s { last_swept_at = some now }),
  );
  coherent = sweep-IsCoherent now s v;
}

pub sweep-absent :
    (now : ℕ) (s : InMemorySessionStore) (j : Text)
    → get j s.sessions_by_id ≡ none
    → get j (sweep now s).sessions_by_id ≡ none
unfolding sweep
sweep-absent now s j h =
    ground (arith, drop_dead-absent now s.sessions_by_id (record s { last_swept_at = some now }) j)
