-- ===== src/Client/Session.antt =====
-- `createNapSession` of packages/nap-client-web/src/session.ts: the state of a tab, and what each call,
-- each message of another tab and each answer that a call has waited for does to it. What a call waits
-- for is an argument of the step that goes on; other steps may come in between. The timers of
-- activityLock.ts are what calls `lock` and `shutdown`; here `touches` counts their resets.
pub mod Guarded
use nap.Base.{
  ℕ, ◌+◌, Bool, true, false, not, ◌&&◌, ◌||◌, Option, none, some, List, [], ◌∷◌, ◌++◌,
  if◌then◌else◌, eqb, leb, ltb, is_some, or_default,
}
use nap.Text.{Text, text, ◌==◌, includes}

pub record SessionState : Type 0 where
  pub pubkey : Text
  pub npub : Text
  pub roles : List Text
  pub permissions : List Text
  pub expires_at : ℕ

-- What the client reads of an `AuthSuccessResponse`.
pub record AuthAnswer : Type 0 where
  pub npub : Text
  pub pubkey : Text
  pub roles : Option (List Text)
  pub permissions : Option (List Text)
  pub expires_at : ℕ

pub data Message : Type 0 where
  logout_message lock_message unlock_message shutdown_message : Message
  identity_changed : Text → Text → Message

-- The callbacks of the options.
pub data Notice : Type 0 where
  on_lock on_shutdown on_unlock on_logout on_session_expired on_login on_resume : Notice
  on_identity_changed : Text → Text → Notice

pub data LockRecovery : Type 0 where
  unlocks passphrase reauthenticates : LockRecovery

-- `has_key` is whether an evictable signer holds its key, `remembered` whether a choice of signer is
-- stored.
pub record ClientState : Type 0 where
  pub session : Option SessionState
  pub locked : Bool
  pub shut_down : Bool
  pub has_key : Bool
  pub remembered : Bool
  pub touches : ℕ
  pub posted : List Message
  pub notices : List Notice

-- How an `async` call goes on: it has failed, or waits.
pub data Progress : Type 0 where
  rejected going : Progress

-- What a tab goes through.
pub data Event : Type 0 where
  locks shuts_down logs_out unlocks_it reunlocks destroys expires logged_in resumed : Event
  hears : Message → Event
  signs_as : Text → Event
  fails : Bool → Event
  accepts restores : AuthAnswer → Event
  verifies : SessionState → Text → Event

module _ (evictable key_store : Bool) (decode_npub : Text → Option Text) where
  -- `pubkeyOfNpub`
  abbrev pub pubkey_of_npub : Text → Text
  pubkey_of_npub npub = or_default (decode_npub npub) npub

  -- `lockRecovery`
  unfoldable pub lock_recovery : LockRecovery
  lock_recovery =
      if not evictable then unlocks else (if key_store then passphrase else reauthenticates)

  abbrev notify : Notice → ClientState → ClientState
  notify n s = record s { notices = s.notices ++ (n ∷ []) }

  abbrev publish : Message → ClientState → ClientState
  publish m s = record s { posted = s.posted ++ (m ∷ []) }

  abbrev touch : ClientState → ClientState
  touch s = record s { touches = s.touches + 1 }

  abbrev evict_key : ClientState → ClientState
  evict_key s = record s { has_key = if evictable then false else s.has_key }

  abbrev clear_key : ClientState → ClientState
  clear_key s = record (evict_key s) { locked = true }

  abbrev set_key : ClientState → ClientState
  set_key s = record s {
    has_key = if evictable then true else s.has_key;
    locked = false;
    shut_down = false;
  }

  -- `keyHolder.hasKey`
  abbrev pub holds_key : ClientState → Bool
  holds_key s = if evictable then s.has_key else not s.locked

  -- The session ends, unlocked and without its key.
  abbrev pub end_session : ClientState → ClientState
  end_session s = record (evict_key s) { session = none; locked = false; shut_down = false }

  unfoldable pub terminate_for_identity : Text → Text → ClientState → ClientState
  terminate_for_identity expected actual s =
      publish (identity_changed expected actual) (
        notify (on_identity_changed expected actual)
          (record (end_session s) { remembered = false }))

  -- `publishLock`
  unfoldable pub publish_lock : ClientState → ClientState
  publish_lock s =
      if not (is_some s.session)
      then touch s
      else publish lock_message (notify on_lock (clear_key s))

  -- `publishShutdown`
  unfoldable pub publish_shutdown : ClientState → ClientState
  publish_shutdown s =
      if not (is_some s.session)
      then touch s
      else publish shutdown_message (notify on_shutdown (record (clear_key s) { shut_down = true }))

  -- A message of another tab.
  unfoldable pub receive : Message → ClientState → ClientState
  receive (identity_changed expected actual) s =
      notify (on_identity_changed expected actual) (end_session s)
  receive logout_message s = notify on_logout (end_session s)
  receive unlock_message s =
      notify on_unlock
        (if not evictable then touch (record s { locked = false; shut_down = false }) else s)
  receive shutdown_message s =
      if not (is_some s.session)
      then s
      else notify on_shutdown (record (clear_key s) { shut_down = true })
  receive lock_message s = if not (is_some s.session) then s else notify on_lock (clear_key s)

  abbrev pub differs_from : Option SessionState → Text → Bool
  differs_from none pubkey = false
  differs_from (some current) pubkey = not (current.pubkey == pubkey)

  abbrev expected_of : Option SessionState → Text
  expected_of none = []
  expected_of (some current) = current.pubkey

  -- `authenticate`, up to the question who the signer is.
  unfoldable pub authenticate : ClientState → Progress × ClientState
  authenticate s = if not (holds_key s) then (rejected, s) else (going, s)

  -- Once the signer has said who it is, up to the server's first answer.
  unfoldable pub authenticate_as : Text → ClientState → Progress × ClientState
  authenticate_as npub s =
      let pubkey = pubkey_of_npub npub in
      if differs_from s.session pubkey
      then (rejected, terminate_for_identity (expected_of s.session) pubkey s)
      else (going, touch (record s { locked = false; shut_down = false }))

  -- `failAuth`; which statuses are terminal is a matter of httpClient.ts.
  unfoldable pub fail_auth : Bool → ClientState → ClientState
  fail_auth terminal s = if terminal then record s { remembered = false } else s

  -- `toSessionState`
  unfoldable pub to_session_state : AuthAnswer → SessionState
  to_session_state r = record {
    pubkey = r.pubkey;
    npub = r.npub;
    roles = or_default r.roles [];
    permissions = or_default r.permissions [];
    expires_at = r.expires_at;
  }

  -- Once the server has accepted the completion.
  unfoldable pub authenticated : AuthAnswer → ClientState → Progress × ClientState
  authenticated response s =
      let next = to_session_state response in
      if differs_from s.session next.pubkey
      then (rejected, terminate_for_identity (expected_of s.session) next.pubkey s)
      else (going, record s { session = some next })

  -- `logout`, once the server has answered.
  unfoldable pub logout : ClientState → ClientState
  logout s = publish logout_message (notify on_logout (end_session s))

  -- `resume` that the server has answered with 401, or with a session.
  unfoldable pub resume_expired : ClientState → ClientState
  resume_expired s = notify on_session_expired (record s { session = none })

  unfoldable pub resume_restored : AuthAnswer → ClientState → ClientState
  resume_restored response s = record s { session = some (to_session_state response) }

  -- The check of `verifyIdentity`, once the signer has said who it is.
  unfoldable pub resume_verified : SessionState → Text → ClientState → Progress × ClientState
  resume_verified restored npub s =
      let actual = pubkey_of_npub npub in
      if not (restored.pubkey == actual)
      then (rejected, terminate_for_identity restored.pubkey actual s)
      else (going, s)

  -- `reunlock` with a passphrase that has decrypted the key.
  unfoldable pub reunlock : ClientState → ClientState
  reunlock s = if key_store then publish unlock_message (touch (set_key s)) else s

  -- `unlock`
  unfoldable pub unlock : ClientState → Progress × ClientState
  unlock s = if evictable then (rejected, s) else (
    going,
    publish unlock_message
        (notify on_unlock (touch (record s { locked = false; shut_down = false }))),
  )

  -- `destroy`
  unfoldable pub destroy : ClientState → ClientState
  destroy s = evict_key s

  unfoldable pub step : Event → ClientState → ClientState
  step locks s = publish_lock s
  step shuts_down s = publish_shutdown s
  step logs_out s = logout s
  step unlocks_it s = (unlock s).1
  step reunlocks s = reunlock s
  step destroys s = destroy s
  step expires s = resume_expired s
  step logged_in s = notify on_login s
  step resumed s = notify on_resume s
  step (hears m) s = receive m s
  step (signs_as npub) s = (authenticate_as npub s).1
  step (fails terminal) s = fail_auth terminal s
  step (accepts response) s = (authenticated response s).1
  step (restores response) s = resume_restored response s
  step (verifies restored npub) s = (resume_verified restored npub s).1

  unfoldable pub run : List Event → ClientState → ClientState
  run [] s = s
  run (e ∷ es) s = run es (step e s)

  -- `hasPermission` and `hasRole`
  unfoldable pub has_permission : Text → ClientState → Bool
  has_permission permission s = elim (s.session) [
    | none ↦ false
    | some current ↦ includes permission current.permissions
  ]

  unfoldable pub has_role : Text → ClientState → Bool
  has_role role s = elim (s.session) [ none ↦ false | some current ↦ includes role current.roles ]
