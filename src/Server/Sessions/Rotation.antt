-- ===== src/Server/Sessions/Rotation.antt =====
-- Rotation of a refresh token in `InMemorySessionStore`: what each token finds before and after.
use nap.Base.{ℕ, ◌≡◌, ◌≢◌, true, Option, none, some, arith}
use nap.Text.{Text, truthy}
use nap.JsMap.{get, get-set, delete, get-delete}
use nap.Core.Types.{SessionRecord}
use nap.Server.Stores.{RotateRefreshTokenParams}
use nap.Server.Sessions.{
  InMemorySessionStore, object_at, delete_if, get_by_refresh_token, rotated, rotate_object,
  rotate_refresh_token,
}
use nap.Server.Sessions.Coherent.{get-delete_if, is_token_of}

-- The session that an access token leads to.
abbrev pub holder : Text → InMemorySessionStore → Option SessionRecord
holder token s = object_at s (get token s.sessions_by_access_token)

module _ (id token : Text) (ref : ℕ) (p : RotateRefreshTokenParams) (s : InMemorySessionStore)
    (held : get id s.sessions_by_id ≡ some ref)
    (current : (s.objects ref).refresh_token ≡ some token)
    (expected : p.expected_refresh_token ≡ token) where
  -- A rotation that names the current token returns the session with the new tokens.
  pub rotate_refresh_token-ok :
      rotate_refresh_token id p s ≡ (some (rotated p (s.objects ref)), rotate_object ref p s)
  unfolding rotate_refresh_token
  rotate_refresh_token-ok = ground arith

  -- Rotating a session by its current refresh token makes the new tokens lead to it, the old access
  -- token to nothing, and the token rotated out to the session that remembers it as its previous
  -- one; the token before that leads to nothing. (The new tokens are other texts than the old.)
  pub rotate_refresh_token_lem :
      get token s.sessions_by_refresh_token ≡ some ref
      → p.access_token ≢ (s.objects ref).access_token
      → p.refresh_token ≢ token
      → (before : Text) → (s.objects ref).previous_refresh_token ≡ some before
      → truthy (some before) ≡ true
      → p.refresh_token ≢ before
      → token ≢ before
      → let s' = (rotate_refresh_token id p s).1 in
        (holder p.access_token s' ≡ some (rotated p (s.objects ref)))
        × (holder (s.objects ref).access_token s' ≡ none)
        × (get_by_refresh_token p.refresh_token s' ≡ some (rotated p (s.objects ref)))
        × (get_by_refresh_token token s' ≡ some (rotated p (s.objects ref)))
        × ((rotated p (s.objects ref)).previous_refresh_token ≡ some token)
        × (get_by_refresh_token before s' ≡ none)
  unfolding rotate_object get_by_refresh_token
  rotate_refresh_token_lem found na nr before e t nb tb =
      let r = s.objects ref in
      let accesses = delete r.access_token s.sessions_by_access_token in
      let refreshes = delete_if r.previous_refresh_token s.sessions_by_refresh_token in
      rw rotate_refresh_token-ok (
        ground (
          arith,
          get-set p.access_token p.access_token ref accesses,
          get-set p.access_token r.access_token ref accesses,
          get-delete r.access_token r.access_token s.sessions_by_access_token,
          get-set p.refresh_token p.refresh_token ref refreshes,
          get-set p.refresh_token token ref refreshes,
          get-set p.refresh_token before ref refreshes,
          get-delete_if r.previous_refresh_token token s.sessions_by_refresh_token,
          get-delete_if r.previous_refresh_token before s.sessions_by_refresh_token,
          is_token_of r.previous_refresh_token before,
        ))

  -- Of two rotations that present the same refresh token the second is refused and changes nothing.
  pub rotate_refresh_token_twice :
      (q : RotateRefreshTokenParams)
      → q.expected_refresh_token ≡ token
      → p.refresh_token ≢ token
      → let s' = (rotate_refresh_token id p s).1 in rotate_refresh_token id q s' ≡ (none, s')
  unfolding rotate_refresh_token rotate_object
  rotate_refresh_token_twice q e ne = ground arith
