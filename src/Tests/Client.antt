-- ===== src/Tests/Client.antt =====
-- The theorems on the web client's session, in a tab whose signer holds a key.
use nap.Base.{if◌then◌else◌, ◌≡◌, refl, true, false, Option, none, some, [], ◌∷◌}
use nap.Text.{Text, text, ◌==◌}
use nap.Client.Session
use nap.Client.Session.{
  SessionState, ClientState, rejected, locks, signs_as, run, step, authenticate,
}
use nap.Client.Session.Guarded.{StaysWith, run-locked, step-StaysWith}

abbrev decode : Text → Option Text
decode npub = if npub == text "npub1alice" then some (text "a1") else none

abbrev alice : SessionState
alice = record {
  pubkey = text "a1";
  npub = text "npub1alice";
  roles = [];
  permissions = text "read" ∷ [];
  expires_at = 1000;
}

abbrev logged_in : ClientState
logged_in = record {
  session = some alice;
  locked = false;
  shut_down = false;
  has_key = true;
  remembered = true;
  touches = 0;
  posted = [];
  notices = [];
}

run-locked_example :
    let s' = run true true decode (locks ∷ signs_as (text "npub1alice") ∷ locks ∷ []) logged_in in
    (true ≡ true → s'.has_key ≡ false) × (authenticate true true decode s' ≡ (rejected, s'))
unfolding run step Session.publish_lock Session.authenticate_as nap.Text.text_discrete
run-locked_example =
    run-locked true true decode (locks ∷ signs_as (text "npub1alice") ∷ locks ∷ []) logged_in refl
      refl refl

step-StaysWith_example :
    StaysWith true true decode
      (text "a1")
      (step true true decode (signs_as (text "npub1bob")) logged_in).session
step-StaysWith_example =
    step-StaysWith true true decode (signs_as (text "npub1bob")) logged_in alice refl refl
