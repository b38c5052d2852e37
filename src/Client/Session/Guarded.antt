-- ===== src/Client/Session/Guarded.antt =====
-- What a lock of packages/nap-client-web/src/session.ts is worth, and that a session stays with one
-- identity.
use nap.Base.{
  ◌≡◌, refl, inl, inr, Bool, true, false, Option, none, some, List, [], ◌∷◌, arith, Bool-cases,
}
use nap.Text.{Text, ◌==◌, ==_iff}
use nap.Client.Session.{
  SessionState, Message, logout_message, lock_message, unlock_message, shutdown_message,
  identity_changed, ClientState, rejected, Event, locks, shuts_down, logs_out, unlocks_it,
  reunlocks, destroys, expires, logged_in, resumed, hears, signs_as, fails, accepts, restores,
  verifies, step, run, authenticate, differs_from, pubkey_of_npub, terminate_for_identity,
  publish_lock, publish_shutdown, receive, authenticate_as, fail_auth, to_session_state,
  authenticated, logout, resume_expired, resume_restored, resume_verified, reunlock, unlock,
  destroy,
}

abbrev pub is_restore : Event → Bool
is_restore (restores response) = true
is_restore _ = false

module _ (evictable key_store : Bool) (decode_npub : Text → Option Text) where
  -- A locked tab has no key of its own, and one that is shut down is locked.
  pub record IsGuarded (s : ClientState) : Type 0 where
    pub evicted : evictable ≡ true → s.locked ≡ true → s.has_key ≡ false
    pub shut : s.shut_down ≡ true → s.locked ≡ true

  receive-IsGuarded :
      (m : Message) (s : ClientState)
      → IsGuarded s
      → IsGuarded (receive evictable key_store decode_npub m s)
  unfolding receive
  receive-IsGuarded logout_message s v = record { evicted = ground arith; shut = ground arith }
  receive-IsGuarded lock_message s v = record {
    evicted = ground (arith, v.evicted);
    shut = ground (arith, v.shut);
  }
  receive-IsGuarded unlock_message s v = record {
    evicted = ground (arith, v.evicted);
    shut = ground (arith, v.shut);
  }
  receive-IsGuarded shutdown_message s v = record {
    evicted = ground (arith, v.evicted);
    shut = ground (arith, v.shut);
  }
  receive-IsGuarded (identity_changed expected actual) s v = record {
    evicted = ground arith;
    shut = ground arith;
  }

  step-IsGuarded :
      (e : Event) (s : ClientState)
      → IsGuarded s
      → IsGuarded (step evictable key_store decode_npub e s)
  unfolding step publish_lock publish_shutdown logout unlock reunlock destroy resume_expired
      fail_auth authenticate_as authenticated resume_restored resume_verified terminate_for_identity
  step-IsGuarded locks s v = record {
    evicted = ground (arith, v.evicted);
    shut = ground (arith, v.shut);
  }
  step-IsGuarded shuts_down s v = record {
    evicted = ground (arith, v.evicted);
    shut = ground (arith, v.shut);
  }
  step-IsGuarded logs_out s v = record { evicted = ground arith; shut = ground arith }
  step-IsGuarded unlocks_it s v = record {
    evicted = ground (arith, v.evicted);
    shut = ground (arith, v.shut);
  }
  step-IsGuarded reunlocks s v = record {
    evicted = ground (arith, v.evicted);
    shut = ground (arith, v.shut);
  }
  step-IsGuarded destroys s v = record { evicted = ground arith; shut = v.shut }
  step-IsGuarded expires s v = record { evicted = v.evicted; shut = v.shut }
  step-IsGuarded logged_in s v = record { evicted = v.evicted; shut = v.shut }
  step-IsGuarded resumed s v = record { evicted = v.evicted; shut = v.shut }
  step-IsGuarded (hears m) s v = receive-IsGuarded m s v
  step-IsGuarded (signs_as npub) s v = record {
    evicted = ground (arith, v.evicted);
    shut = ground (arith, v.shut);
  }
  step-IsGuarded (fails terminal) s v = record {
    evicted = ground (arith, v.evicted);
    shut = ground (arith, v.shut);
  }
  step-IsGuarded (accepts response) s v = record {
    evicted = ground (arith, v.evicted);
    shut = ground (arith, v.shut);
  }
  step-IsGuarded (restores response) s v = record { evicted = v.evicted; shut = v.shut }
  step-IsGuarded (verifies restored npub) s v = record {
    evicted = ground (arith, v.evicted);
    shut = ground (arith, v.shut);
  }

  run-IsGuarded :
      (es : List Event) (s : ClientState)
      → IsGuarded s
      → IsGuarded (run evictable key_store decode_npub es s)
  unfolding run
  run-IsGuarded [] s v = v
  run-IsGuarded (e ∷ es) s v =
      run-IsGuarded es (step evictable key_store decode_npub e s) (step-IsGuarded e s v)

  -- Whatever calls, messages of other tabs and answers a tab goes through from an unlocked start: while
  -- it is locked, its signer holds no key of its own in the page, and a login is refused and changes
  -- nothing.
  pub run-locked :
      (es : List Event) (s : ClientState)
      → s.locked ≡ false
      → s.shut_down ≡ false
      → let s' = run evictable key_store decode_npub es s in
        s'.locked ≡ true
        → (evictable ≡ true → s'.has_key ≡ false)
          × (authenticate evictable key_store decode_npub s' ≡ (rejected, s'))
  unfolding authenticate
  run-locked es s l d k =
      let start : IsGuarded s = record {
        evicted = λ x y. ground (arith, l, y);
        shut = λ x. ground (arith, d, x);
      } in
      let v = run-IsGuarded es s start in (λ x. v.evicted x k, ground (arith, v.evicted, k))

  -- The session is gone, or of the same public key.
  abbrev pub StaysWith : Text → Option SessionState → Type 0
  StaysWith pubkey none = Unit
  StaysWith pubkey (some after) = after.pubkey ≡ pubkey

  is_gone : (pubkey : Text) (o : Option SessionState) → o ≡ none → StaysWith pubkey o
  is_gone pubkey o h = rw h tt

  is_same :
      (pubkey : Text) (after : SessionState) (o : Option SessionState)
      → o ≡ some after
      → after.pubkey ≡ pubkey
      → StaysWith pubkey o
  is_same pubkey after o h k = rw h k

  receive-StaysWith :
      (m : Message) (s : ClientState) (before : SessionState)
      → s.session ≡ some before
      → StaysWith before.pubkey (receive evictable key_store decode_npub m s).session
  unfolding receive
  receive-StaysWith logout_message s before h = tt
  receive-StaysWith lock_message s before h = rw h refl
  receive-StaysWith unlock_message s before h =
      is_same before.pubkey before _ (ground (arith, h, Bool-cases evictable)) refl
  receive-StaysWith shutdown_message s before h = rw h refl
  receive-StaysWith (identity_changed expected actual) s before h = tt

  -- A session of one identity does not become that of another by any step but a `resume`, which takes
  -- the session that the server has: it stays with its public key or ends.
  pub step-StaysWith :
      (e : Event) (s : ClientState) (before : SessionState)
      → is_restore e ≡ false
      → s.session ≡ some before
      → StaysWith before.pubkey (step evictable key_store decode_npub e s).session
  unfolding step publish_lock publish_shutdown logout unlock reunlock destroy resume_expired
      fail_auth authenticate_as authenticated resume_restored resume_verified terminate_for_identity
  step-StaysWith locks s before n h = rw h refl
  step-StaysWith shuts_down s before n h = rw h refl
  step-StaysWith logs_out s before n h = tt
  step-StaysWith unlocks_it s before n h =
      is_same before.pubkey before _ (ground (arith, h, Bool-cases evictable)) refl
  step-StaysWith reunlocks s before n h =
      is_same before.pubkey before _ (ground (arith, h, Bool-cases key_store)) refl
  step-StaysWith destroys s before n h = rw h refl
  step-StaysWith expires s before n h = tt
  step-StaysWith logged_in s before n h = rw h refl
  step-StaysWith resumed s before n h = rw h refl
  step-StaysWith (hears m) s before n h = receive-StaysWith m s before h
  step-StaysWith (signs_as npub) s before n h =
      elim (Bool-cases (
        differs_from evictable key_store decode_npub s.session
          (pubkey_of_npub evictable key_store decode_npub npub))) [
            | inl d ↦ is_gone before.pubkey _ (ground (arith, d))
            | inr d ↦ is_same before.pubkey before _ (ground (arith, d, h)) refl
          ]
  step-StaysWith (fails terminal) s before n h =
      is_same before.pubkey before _ (ground (arith, h, Bool-cases terminal)) refl
  step-StaysWith (accepts response) s before n h =
      let next = to_session_state evictable key_store decode_npub response in
      elim (Bool-cases (differs_from evictable key_store decode_npub s.session next.pubkey)) [
        | inl d ↦ is_gone before.pubkey _ (ground (arith, d))
        | inr d ↦
            is_same before.pubkey next _ (ground (arith, d))
              (ground (arith, d, h, (==_iff before.pubkey next.pubkey).0))
      ]
  step-StaysWith (restores response) s before n h = ground (arith, n)
  step-StaysWith (verifies restored npub) s before n h =
      elim (Bool-cases (restored.pubkey == pubkey_of_npub evictable key_store decode_npub npub)) [
        | inr d ↦ is_gone before.pubkey _ (ground (arith, d))
        | inl d ↦ is_same before.pubkey before _ (ground (arith, d, h)) refl
      ]
