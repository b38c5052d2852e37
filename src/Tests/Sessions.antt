-- ===== src/Tests/Sessions.antt =====
-- The theorems on sessions at a store of one session.
use nap.Base.{◌≡◌, ◌≢◌, refl, none, some, arith}
use nap.Text.{Text, text}
use nap.JsMap.{get}
use nap.Server.Sessions.{
  get_by_access_token, create_for_challenge, get_by_session_id, get_by_refresh_token,
  revoke_by_principal, rotate_refresh_token, rotated,
}
use nap.Server.Sessions.Revocation.{get-revoke_by_principal}
use nap.Server.Sessions.Rotation.{holder, rotate_refresh_token_lem, rotate_refresh_token_twice}
use nap.Server.Sessions.Sweep.{IsSound}
use nap.Server.Sessions.Lookup.{get_by_access_token-revoke_by_principal}
use nap.Server.Sessions.Runs.{creates, step, step-IsSound}
use nap.Tests.Data.{
  alice_session, empty_sessions, empty_sessions-IsSound, one_session, next_tokens, after_login,
  after_login-IsSound,
}

step-IsSound_example : IsSound (step (creates alice_session) empty_sessions)
unfolding get
step-IsSound_example =
    step-IsSound (creates alice_session) empty_sessions refl empty_sessions-IsSound

get-revoke_by_principal_example :
    get_by_session_id (text "s1") (revoke_by_principal (text "a1") 300 one_session).1
    ≡ some (record alice_session { revoked_at = some 300 })
unfolding get get_by_session_id nap.Text.text_discrete
get-revoke_by_principal_example = get-revoke_by_principal (text "s1") (text "a1") 300 one_session

rotate_refresh_token_lem_example :
    let s' = (rotate_refresh_token (text "s1") next_tokens one_session).1 in
    (holder (text "at3") s' ≡ some (rotated next_tokens alice_session))
    × (holder (text "at2") s' ≡ none)
    × (get_by_refresh_token (text "rt3") s' ≡ some (rotated next_tokens alice_session))
    × (get_by_refresh_token (text "rt2") s' ≡ some (rotated next_tokens alice_session))
    × (some (text "rt2") ≡ some (text "rt2"))
    × (get_by_refresh_token (text "rt1") s' ≡ none)
unfolding get nap.Text.text_discrete
rotate_refresh_token_lem_example =
    rotate_refresh_token_lem (text "s1") (text "rt2") 0 next_tokens one_session refl refl refl refl
      (ground arith) (ground arith) (text "rt1") refl refl (ground arith) (ground arith)

rotate_refresh_token_twice_example :
    let s' = (rotate_refresh_token (text "s1") next_tokens one_session).1 in
    rotate_refresh_token (text "s1") (record next_tokens { access_token = text "at4" }) s'
    ≡ (none, s')
unfolding get nap.Text.text_discrete
rotate_refresh_token_twice_example =
    rotate_refresh_token_twice (text "s1") (text "rt2") 0 next_tokens one_session refl refl refl
      (record next_tokens { access_token = text "at4" }) refl (ground arith)

get_by_access_token-revoke_by_principal_example : text "a1" ≢ text "b1"
unfolding get revoke_by_principal get_by_access_token nap.Text.text_discrete
    nap.Server.Sessions.sweep step create_for_challenge nap.Server.Sessions.create_swept
    nap.Server.Sessions.drop_dead nap.Server.Sessions.store_new nap.JsMap.set
    nap.Server.Sessions.revoke_all
get_by_access_token-revoke_by_principal_example =
    get_by_access_token-revoke_by_principal (text "at2") (text "b1") 150 after_login alice_session
      after_login-IsSound (ground arith) refl refl
