-- ===== src/Server/Sessions/Runs.antt =====
-- Any sequence of calls of `InMemorySessionStore`: its maps stay views of one set of sessions.
use nap.Base.{ℕ, ◌≡◌, refl, true, none, some, [], ◌∷◌, arith, Bool-cases, Option-cases, inl, inr}
use nap.Text.{Text, truthy, is_text}
use nap.JsMap.{JsMap, get, get-set, set-IsMap}
use nap.Core.Types.{SessionRecord}
use nap.Server.Stores.{RotateRefreshTokenParams}
use nap.Server.Sessions.{
  InMemorySessionStore, is_swept, drop_session, drop_dead, sweep, store_new, create_swept,
  create_for_challenge, get_by_access_token, revoke_by_session_id, revoke_by_principal,
  rotate_object, rotate_refresh_token,
}
use nap.Server.Sessions.Coherent.{store_new-IsCoherent, rotate_object-IsCoherent}
use nap.Server.Sessions.Revocation.{revoke_by_principal-IsCoherent, revoke_by_session_id-IsCoherent}
use nap.Server.Sessions.Sweep.{IsSound, sweep-IsSound, sweep-absent}

pub data Call : Type 0 where
  creates : SessionRecord → Call
  looks_up : Text → Call
  revokes : Text → ℕ → Call
  revokes_all : Text → ℕ → Call
  rotates : Text → RotateRefreshTokenParams → Call
  ticks : ℕ → Call

-- A call, or the clock of the store at a new reading.
unfoldable pub step : Call → InMemorySessionStore → InMemorySessionStore
step (creates r) s = (create_for_challenge r s).1
step (looks_up token) s = (get_by_access_token token s).1
step (revokes id now) s = revoke_by_session_id id now s
step (revokes_all pubkey now) s = (revoke_by_principal pubkey now s).1
step (rotates id p) s = (rotate_refresh_token id p s).1
step (ticks now) s = record s { clock = now }

-- A new session has an identifier of its own, and a new refresh token is not empty.
abbrev pub IsFresh : Call → InMemorySessionStore → Type 0
IsFresh (creates r) s = get r.session_id s.sessions_by_id ≡ none
IsFresh (rotates id p) s = truthy (some p.refresh_token) ≡ true
IsFresh _ s = Unit {0}

create_swept-IsSound :
    (r : SessionRecord) (s : InMemorySessionStore)
    → get r.session_id s.sessions_by_id ≡ none
    → IsSound s
    → IsSound (create_swept r s).1
unfolding create_swept
create_swept-IsSound r s fresh v =
    elim (Option-cases (get r.challenge_id s.sessions_by_challenge_id)) [
      | inl e ↦
          rw (e, create_swept)
            (record {
              is_map = unfold store_new in set-IsMap r.session_id s.next s.sessions_by_id v.is_map;
              coherent = store_new-IsCoherent r s v.coherent fresh;
            })
      | inr (ref, e) ↦ rw (e, create_swept) v
    ]

rotate-IsSound :
    (id : Text) (p : RotateRefreshTokenParams) (s : InMemorySessionStore)
    → truthy (some p.refresh_token) ≡ true
    → IsSound s
    → IsSound (rotate_refresh_token id p s).1
unfolding rotate_refresh_token
rotate-IsSound id p s t v = elim (Option-cases (get id s.sessions_by_id)) [
  | inl e ↦ rw (e, rotate_refresh_token) v
  | inr (ref, e) ↦
      elim (Bool-cases (is_text (s.objects ref).refresh_token p.expected_refresh_token)) [
        | inl same ↦
            rw (e, rotate_refresh_token, same)
              (record {
                is_map = unfold rotate_object in v.is_map;
                coherent =
                    rotate_object-IsCoherent ref p s v.coherent
                      (ground (arith, v.coherent.by_id id ref)) t;
              })
        | inr other ↦ rw (e, rotate_refresh_token, other) v
      ]
]

revoke_by_session_id-IsSound :
    (id : Text) (now : ℕ) (s : InMemorySessionStore)
    → IsSound s
    → IsSound (revoke_by_session_id id now s)
unfolding revoke_by_session_id
revoke_by_session_id-IsSound id now s v = record {
  is_map = elim (Option-cases (get id s.sessions_by_id)) [
    | inl e ↦ rw (e, revoke_by_session_id) v.is_map
    | inr (ref, e) ↦ rw (e, revoke_by_session_id) v.is_map
  ];
  coherent = revoke_by_session_id-IsCoherent id now s v.coherent;
}

-- Every call keeps each map a view of the sessions that the store holds: an entry leads to a held
-- session, under the key that the session itself has.
pub step-IsSound :
    (c : Call) (s : InMemorySessionStore) → IsFresh c s → IsSound s → IsSound (step c s)
unfolding step create_for_challenge get_by_access_token
step-IsSound (creates r) s f v =
    create_swept-IsSound r (sweep s.clock s) (sweep-absent s.clock s r.session_id f)
      (sweep-IsSound s.clock s v)
step-IsSound (looks_up token) s f v = sweep-IsSound s.clock s v
step-IsSound (revokes id now) s f v = revoke_by_session_id-IsSound id now s v
step-IsSound (revokes_all pubkey now) s f v = record {
  is_map = unfold revoke_by_principal in v.is_map;
  coherent = revoke_by_principal-IsCoherent pubkey now s v.coherent;
}
step-IsSound (rotates id p) s f v = rotate-IsSound id p s f v
step-IsSound (ticks now) s f v = record {
  is_map = v.is_map;
  coherent = record {
    allocated = v.coherent.allocated;
    by_id = v.coherent.by_id;
    by_challenge_id = v.coherent.by_challenge_id;
    by_access_token = v.coherent.by_access_token;
    by_refresh_token = v.coherent.by_refresh_token;
  };
}

drop_dead-marks :
    (now : ℕ) (entries : JsMap ℕ) (s : InMemorySessionStore)
    → ((drop_dead now entries s).last_swept_at ≡ s.last_swept_at)
      × ((drop_dead now entries s).clock ≡ s.clock)
unfolding drop_dead drop_session
drop_dead-marks now [] s = (refl, refl)
drop_dead-marks now ((id, ref) ∷ entries) s = ground (
  arith,
  drop_dead-marks now entries s,
  drop_dead-marks now entries (drop_session id (s.objects ref) s),
)

pub sweep-marks :
    (now : ℕ) (s : InMemorySessionStore)
    → (is_swept now (sweep now s).last_swept_at ≡ true) × ((sweep now s).clock ≡ s.clock)
unfolding sweep
sweep-marks now s =
    ground (arith, drop_dead-marks now s.sessions_by_id (record s { last_swept_at = some now }))

pub sweep_idle :
    (s : InMemorySessionStore) → is_swept s.clock s.last_swept_at ≡ true → sweep s.clock s ≡ s
unfolding sweep
sweep_idle s h = rw h

create_swept_twice :
    (r q : SessionRecord) (s : InMemorySessionStore)
    → q.challenge_id ≡ r.challenge_id
    → let s' = (create_swept r s).1 in create_swept q s' ≡ ((create_swept r s).0, s')
unfolding create_swept store_new
create_swept_twice r q s e = elim (Option-cases (get r.challenge_id s.sessions_by_challenge_id)) [
  | inl n ↦ ground (arith, get-set r.challenge_id r.challenge_id s.next s.sessions_by_challenge_id)
  | inr (ref, n) ↦ ground arith
]

create_swept-marks :
    (r : SessionRecord) (s : InMemorySessionStore)
    → ((create_swept r s).1.last_swept_at ≡ s.last_swept_at)
      × ((create_swept r s).1.clock ≡ s.clock)
unfolding create_swept store_new
create_swept-marks r s = ground arith

-- A challenge has one session: creating a second one for it in the same second returns the first
-- and changes nothing, whatever roles, permissions or tokens the second was to have.
pub create_for_challenge_twice :
    (r q : SessionRecord) (s : InMemorySessionStore)
    → q.challenge_id ≡ r.challenge_id
    → let s' = (create_for_challenge r s).1 in
      create_for_challenge q s' ≡ ((create_for_challenge r s).0, s')
unfolding create_for_challenge
create_for_challenge_twice r q s e =
    let swept = sweep s.clock s in
    let s' = (create_swept r swept).1 in
    let idle : sweep s'.clock s' ≡ s' =
      sweep_idle s' (ground (arith, sweep-marks s.clock s, create_swept-marks r swept)) in
    rw idle (create_swept_twice r q swept e)
