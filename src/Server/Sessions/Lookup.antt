-- ===== src/Server/Sessions/Lookup.antt =====
-- What `getByAccessToken` of `InMemorySessionStore` finds after a revocation.
use nap.Base.{
  ℕ, ◌<◌, ◌≡◌, ◌≢◌, true, false, some, arith, Option-cases, truthy_number, inl, inr, sym, subst,
}
use nap.Text.{Text}
use nap.JsMap.{get}
use nap.Core.Types.{SessionRecord}
use nap.Server.Sessions.{
  InMemorySessionStore, is_swept, sweep, get_by_access_token, revoke_by_principal,
  revoke_by_session_id,
}
use nap.Server.Sessions.Revocation.{
  refers_of_get, revoke_all_lem, revoke_by_principal-IsCoherent, revoke_by_session_id-IsCoherent,
}
use nap.Server.Sessions.Runs.{sweep-marks, sweep_idle}
use nap.Server.Sessions.Sweep.{IsSound, drop_dead-objects, drop_dead-listed, sweep-IsCoherent}

sweep-objects : (now : ℕ) (s : InMemorySessionStore) (q : ℕ) → (sweep now s).objects q ≡ s.objects q
unfolding sweep
sweep-objects now s q =
    ground (arith, drop_dead-objects now s.sessions_by_id (record s { last_swept_at = some now }) q)

sweep-listed :
    (now : ℕ) (s : InMemorySessionStore) (id : Text) (q : ℕ)
    → get id (sweep now s).sessions_by_id ≡ some q
    → get id s.sessions_by_id ≡ some q
unfolding sweep
sweep-listed now s id q h =
    ground
      (arith, drop_dead-listed now s.sessions_by_id (record s { last_swept_at = some now }) id q)

-- The session that an access token leads to is an object that the store holds by its identifier.
pub get_by_access_token-held :
    (token : Text) (s : InMemorySessionStore) (r : SessionRecord)
    → IsSound s
    → (get_by_access_token token s).0 ≡ some r
    → (q : ℕ) × (s.objects q ≡ r)
      × (get r.session_id s.sessions_by_id ≡ some q)
      × (r.access_token ≡ token)
unfolding get_by_access_token
get_by_access_token-held token s r v h =
    let c = sweep-IsCoherent s.clock s v in
    elim (Option-cases (get token (sweep s.clock s).sessions_by_access_token)) [
      | inl e ↦ ground (arith, e)
      | inr (q, e) ↦
          let (held, same) = c.by_access_token token q e in
          let object : s.objects q ≡ r = ground (arith, e, sweep-objects s.clock s q) in
          (
            q,
            object,
            ground (
              arith,
              held,
              object,
              sweep-objects s.clock s q,
              sweep-listed s.clock s r.session_id q,
            ),
            ground (arith, same, object, sweep-objects s.clock s q),
          )
    ]

revoke_by_principal-IsSound :
    (pubkey : Text) (at : ℕ) (s : InMemorySessionStore)
    → IsSound s
    → IsSound (revoke_by_principal pubkey at s).1
unfolding revoke_by_principal
revoke_by_principal-IsSound pubkey at s v = record {
  is_map = v.is_map;
  coherent = revoke_by_principal-IsCoherent pubkey at s v.coherent;
}

-- After the sessions of a principal are revoked, an access token leads to another principal's session
-- or to one that is revoked.
pub get_by_access_token-revoke_by_principal :
    (token pubkey : Text) (at : ℕ) (s : InMemorySessionStore) (r : SessionRecord)
    → IsSound s
    → 0 < at
    → (get_by_access_token token (revoke_by_principal pubkey at s).1).0 ≡ some r
    → truthy_number r.revoked_at ≡ false
    → r.principal_pubkey ≢ pubkey
unfolding revoke_by_principal
get_by_access_token-revoke_by_principal token pubkey at s r v pos h live =
    let s' = (revoke_by_principal pubkey at s).1 in
    let (q, object, held, same) =
      get_by_access_token-held token s' r (revoke_by_principal-IsSound pubkey at s v) h in
    ground (
      arith,
      object,
      held,
      refers_of_get r.session_id q s.sessions_by_id,
      revoke_all_lem pubkey at s.sessions_by_id s.objects q,
    )

revoke_by_session_id-IsSound :
    (id : Text) (at : ℕ) (s : InMemorySessionStore)
    → IsSound s
    → IsSound (revoke_by_session_id id at s)
unfolding revoke_by_session_id
revoke_by_session_id-IsSound id at s v = record {
  is_map = ground (arith, v.is_map, Option-cases (get id s.sessions_by_id));
  coherent = revoke_by_session_id-IsCoherent id at s v.coherent;
}

-- After a session is revoked, no access token leads to it while it is not revoked.
pub get_by_access_token-revoke_by_session_id :
    (token id : Text) (at : ℕ) (s : InMemorySessionStore) (r : SessionRecord)
    → IsSound s
    → 0 < at
    → (get_by_access_token token (revoke_by_session_id id at s)).0 ≡ some r
    → truthy_number r.revoked_at ≡ false
    → r.session_id ≢ id
unfolding revoke_by_session_id
get_by_access_token-revoke_by_session_id token id at s r v pos h live =
    let s' = revoke_by_session_id id at s in
    let (q, object, held, same) =
      get_by_access_token-held token s' r (revoke_by_session_id-IsSound id at s v) h in
    elim (Option-cases (get id s.sessions_by_id)) [
      | inl e ↦ ground (arith, object, held, e)
      | inr (ref, e) ↦ ground (arith, object, held, e)
    ]

-- A second sweep in the same second changes nothing.
pub sweep_again : (s : InMemorySessionStore) → sweep s.clock (sweep s.clock s) ≡ sweep s.clock s
sweep_again s =
    let (marked, clock) = sweep-marks s.clock s in
    let swept = sweep s.clock s in
    subst (λ n. sweep n swept ≡ swept) clock
      (sweep_idle swept (subst (λ n. is_swept n swept.last_swept_at ≡ true) (sym clock) marked))

-- Looking a token up again finds the same and changes nothing.
pub get_by_access_token_again :
    (token : Text) (s : InMemorySessionStore)
    → let (found, s') = get_by_access_token token s in get_by_access_token token s' ≡ (found, s')
unfolding get_by_access_token
get_by_access_token_again token s = ground (arith, sweep_again s, (sweep-marks s.clock s).1)

-- Once the session that a token leads to is revoked, the token leads to the revoked session.
pub get_by_access_token-revoked :
    (token : Text) (at : ℕ) (s : InMemorySessionStore) (r : SessionRecord)
    → IsSound s
    → (get_by_access_token token s).0 ≡ some r
    → (get_by_access_token token
        (revoke_by_session_id r.session_id at (get_by_access_token token s).1)).0
      ≡ some (record r { revoked_at = some at })
unfolding get_by_access_token revoke_by_session_id
get_by_access_token-revoked token at s r v h =
    let t = sweep s.clock s in
    let c = sweep-IsCoherent s.clock s v in
    elim (Option-cases (get token t.sessions_by_access_token)) [
      | inl e ↦ ground (arith, e)
      | inr (q, e) ↦
          let object : t.objects q ≡ r = ground (arith, e) in
          let held : get r.session_id t.sessions_by_id ≡ some q =
            ground (arith, (c.by_access_token token q e).0, object) in
          let t' = revoke_by_session_id r.session_id at t in
          let (marked, clock) = sweep-marks s.clock s in
          let idle : sweep t'.clock t' ≡ t' = sweep_idle t' (ground (arith, held, marked, clock)) in
          ground (arith, e, object, held, idle)
    ]
