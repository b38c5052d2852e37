-- ===== src/Server/Sessions/Coherent.antt =====
-- The four maps of `InMemorySessionStore` are views of one set of sessions.
use nap.Base.{
  ℕ, ◌<◌, ◌≡◌, ◌⊎◌, refl, Bool, true, ◌&&◌, Option, none, some, [], ◌∷◌, arith, if◌then◌else◌,
}
use nap.Text.{Text, ◌==◌, truthy}
use nap.JsMap.{JsMap, get, get-set, delete, get-delete}
use nap.Core.Types.{SessionRecord}
use nap.Server.Stores.{RotateRefreshTokenParams}
use nap.Server.Sessions.{InMemorySessionStore, store_new, rotate_object, set_if, delete_if, given}

-- The session is one of those that the store holds.
abbrev pub IsHeld : InMemorySessionStore → ℕ → Type 0
IsHeld s ref = get (s.objects ref).session_id s.sessions_by_id ≡ some ref

-- Every entry of a map leads to a session that the store holds, by the key that the session has.
pub record IsCoherent (s : InMemorySessionStore) : Type 0 where
  pub allocated : (id : Text) (ref : ℕ) → get id s.sessions_by_id ≡ some ref → ref < s.next
  pub by_id :
      (id : Text) (ref : ℕ) → get id s.sessions_by_id ≡ some ref → (s.objects ref).session_id ≡ id
  pub by_challenge_id :
      (id : Text) (ref : ℕ)
      → get id s.sessions_by_challenge_id ≡ some ref
      → IsHeld s ref × ((s.objects ref).challenge_id ≡ id)
  pub by_access_token :
      (token : Text) (ref : ℕ)
      → get token s.sessions_by_access_token ≡ some ref
      → IsHeld s ref × ((s.objects ref).access_token ≡ token)
  pub by_refresh_token :
      (token : Text) (ref : ℕ)
      → get token s.sessions_by_refresh_token ≡ some ref
      → IsHeld s ref
        × (truthy (some token) ≡ true)
        × (((s.objects ref).refresh_token ≡ some token)
            ⊎ ((s.objects ref).previous_refresh_token ≡ some token))

abbrev pub is_token : Option Text → Text → Bool
is_token o j = truthy o && (given o == j)

pub get-set_if :
    (o : Option Text) (j : Text) (ref : ℕ) (m : JsMap ℕ)
    → get j (set_if o ref m) ≡ (if is_token o j then some ref else get j m)
get-set_if none j ref m = refl
get-set_if (some []) j ref m = refl
get-set_if (some (c ∷ cs)) j ref m = get-set (c ∷ cs) j ref m

pub get-delete_if :
    (o : Option Text) (j : Text) (m : JsMap ℕ)
    → get j (delete_if o m) ≡ (if is_token o j then none else get j m)
get-delete_if none j m = refl
get-delete_if (some []) j m = refl
get-delete_if (some (c ∷ cs)) j m = get-delete (c ∷ cs) j m

pub is_token-some : (o : Option Text) (j : Text) → is_token o j ≡ true → o ≡ some j
is_token-some none j h = cc
is_token-some (some t) j h = ground arith

pub is_token-truthy : (o : Option Text) (j : Text) → is_token o j ≡ true → truthy (some j) ≡ true
is_token-truthy none j h = cc
is_token-truthy (some []) j h = cc
is_token-truthy (some (c ∷ cs)) j h = ground arith

pub is_token_of :
    (o : Option Text) (j : Text) → o ≡ some j → truthy (some j) ≡ true → is_token o j ≡ true
is_token_of none j e h = cc
is_token_of (some []) j e h = ground arith
is_token_of (some (c ∷ cs)) j e h = ground arith

module _ (r : SessionRecord) (s : InMemorySessionStore) (v : IsCoherent s)
    (fresh : get r.session_id s.sessions_by_id ≡ none) where
  store_new-IsHeld : (ref : ℕ) → IsHeld s ref → IsHeld (store_new r s).1 ref
  unfolding store_new
  store_new-IsHeld ref h = ground (
    arith,
    v.allocated (s.objects ref).session_id ref h,
    get-set r.session_id (s.objects ref).session_id s.next s.sessions_by_id,
  )

  store_new-IsHeld_new : IsHeld (store_new r s).1 s.next
  unfolding store_new
  store_new-IsHeld_new = ground (arith, get-set r.session_id r.session_id s.next s.sessions_by_id)

  pub store_new-IsCoherent : IsCoherent (store_new r s).1
  unfolding store_new
  store_new-IsCoherent = record {
    allocated = λ id ref e.
        ground (arith, get-set r.session_id id s.next s.sessions_by_id, v.allocated id ref);
    by_id = λ id ref e. ground (
      arith,
      get-set r.session_id id s.next s.sessions_by_id,
      v.by_id id ref,
      v.allocated id ref,
    );
    by_challenge_id = λ id ref e. ground (
      arith,
      get-set r.challenge_id id s.next s.sessions_by_challenge_id,
      v.by_challenge_id id ref,
      v.allocated (s.objects ref).session_id ref,
      store_new-IsHeld ref,
      store_new-IsHeld_new,
    );
    by_access_token = λ token ref e. ground (
      arith,
      get-set r.access_token token s.next s.sessions_by_access_token,
      v.by_access_token token ref,
      v.allocated (s.objects ref).session_id ref,
      store_new-IsHeld ref,
      store_new-IsHeld_new,
    );
    by_refresh_token = λ token ref e. ground (
      arith,
      get-set_if r.refresh_token token s.next s.sessions_by_refresh_token,
      is_token-some r.refresh_token token,
      is_token-truthy r.refresh_token token,
      v.by_refresh_token token ref,
      v.allocated (s.objects ref).session_id ref,
      store_new-IsHeld ref,
      store_new-IsHeld_new,
    );
  }

module _ (ref : ℕ) (p : RotateRefreshTokenParams) (s : InMemorySessionStore) (v : IsCoherent s)
    (held : IsHeld s ref) where
  rotate-IsHeld : (q : ℕ) → IsHeld s q → IsHeld (rotate_object ref p s) q
  unfolding rotate_object
  rotate-IsHeld q h = ground arith

  pub rotate_object-IsCoherent :
      truthy (some p.refresh_token) ≡ true → IsCoherent (rotate_object ref p s)
  unfolding rotate_object
  rotate_object-IsCoherent given_token = record {
    allocated = v.allocated;
    by_id = λ id q e. ground (arith, v.by_id id q);
    by_challenge_id = λ id q e. ground (arith, v.by_challenge_id id q, rotate-IsHeld q);
    by_access_token = λ token q e. ground (
      arith,
      get-set p.access_token token ref
          (delete (s.objects ref).access_token s.sessions_by_access_token),
      get-delete (s.objects ref).access_token token s.sessions_by_access_token,
      v.by_access_token token q,
      rotate-IsHeld q,
    );
    by_refresh_token = λ token q e. ground (
      arith,
      get-set p.refresh_token token ref
          (delete_if (s.objects ref).previous_refresh_token s.sessions_by_refresh_token),
      get-delete_if (s.objects ref).previous_refresh_token token s.sessions_by_refresh_token,
      is_token_of (s.objects ref).previous_refresh_token token,
      v.by_refresh_token token q,
      rotate-IsHeld q,
    );
  }

-- The objects agree in all that the maps are keyed by.
pub record SameKeys (f g : ℕ → SessionRecord) (ref : ℕ) : Type 0 where
  pub session_id : (g ref).session_id ≡ (f ref).session_id
  pub challenge_id : (g ref).challenge_id ≡ (f ref).challenge_id
  pub access_token : (g ref).access_token ≡ (f ref).access_token
  pub refresh_token : (g ref).refresh_token ≡ (f ref).refresh_token
  pub previous_refresh_token : (g ref).previous_refresh_token ≡ (f ref).previous_refresh_token

pub SameKeys-IsCoherent :
    (s : InMemorySessionStore) (g : ℕ → SessionRecord)
    → ((ref : ℕ) → SameKeys s.objects g ref)
    → IsCoherent s
    → IsCoherent (record s { objects = g })
SameKeys-IsCoherent s g same v = record {
  allocated = v.allocated;
  by_id = λ id ref e. ground (arith, v.by_id id ref, same ref);
  by_challenge_id = λ id ref e. ground (arith, v.by_challenge_id id ref, same ref);
  by_access_token = λ token ref e. ground (arith, v.by_access_token token ref, same ref);
  by_refresh_token = λ token ref e. ground (arith, v.by_refresh_token token ref, same ref);
}
