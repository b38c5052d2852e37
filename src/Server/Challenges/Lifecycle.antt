-- ===== src/Server/Challenges/Lifecycle.antt =====
-- The life of a challenge in `InMemoryChallengeStore`: the moves of its state under any sequence of
-- calls, and that it is redeemed once at most.
use nap.Base.{
  ℕ, ◌≡◌, refl, ◌⊎◌, inl, inr, Bool, true, false, Option, none, some, List, [], ◌∷◌, arith, ltb,
  not, All, Bool-cases, Option-cases,
}
use nap.Text.{Text, ◌==◌}
use nap.JsMap.{JsMap, IsMap, get, get-set, get-retain, passing, set-IsMap, retain-IsMap}
use nap.Core.Types.{ChallengeState, ChallengeRecord}
use nap.Server.Stores.{RedeemParams}
use nap.Server.Challenges.{
  InMemoryChallengeStore, is_issued, retain_until, sweep, create, redeem_record, redeem,
  mark_records, mark_expired, fail_record, record_failure,
}

pub data Call : Type 0 where
  creates : ChallengeRecord → Call
  redeems : Text → RedeemParams → Call
  marks : ℕ → Call
  fails : Text → ℕ → ℕ → Call
  ticks : ℕ → Call

-- A call, or the clock of the store at a new reading.
unfoldable pub step : Call → InMemoryChallengeStore → InMemoryChallengeStore
step (creates r) s = create r s
step (redeems id p) s = (redeem id p s).1
step (marks now) s = (mark_expired now s).1
step (fails id now max_failures) s = (record_failure id now max_failures s).1
step (ticks now) s = record s { clock = now }

-- The moves that a challenge's state makes. Only `issued` leads to `redeemed`.
abbrev pub Moves : ChallengeState → ChallengeState → Type 0
Moves c d =
    (d ≡ c)
    ⊎ (d ≡ ChallengeState.expired)
    ⊎ ((c ≡ ChallengeState.issued)
        × ((d ≡ ChallengeState.redeemed) ⊎ (d ≡ ChallengeState.failed_terminal)))

-- The same challenge, further on in its life.
pub record Follows (r r' : ChallengeRecord) : Type 0 where
  pub moves : Moves r.state r'.state
  pub challenge_id : r'.challenge_id ≡ r.challenge_id
  pub challenge : r'.challenge ≡ r.challenge
  pub npub : r'.npub ≡ r.npub
  pub pubkey : r'.pubkey ≡ r.pubkey
  pub issued_at : r'.issued_at ≡ r.issued_at
  pub expires_at : r'.expires_at ≡ r.expires_at

redeem_record-Follows : (p : RedeemParams) (r : ChallengeRecord) → Follows r (redeem_record p r).1
unfolding redeem_record
redeem_record-Follows p r = ground arith

fail_record-Follows :
    (max_failures : ℕ) (r : ChallengeRecord)
    → is_issued r.state ≡ true
    → Follows r (fail_record max_failures r)
fail_record-Follows max_failures r h = ground arith

-- What a call leaves under an identifier that it does not create: the same challenge, or nothing.
abbrev pub Kept : Option ChallengeRecord → Option ChallengeRecord → Type 0
Kept none o' = o' ≡ none
Kept (some r) none = Unit {0}
Kept (some r) (some r') = Follows r r'

Kept-refl : (o : Option ChallengeRecord) → Kept o o
Kept-refl none = refl
Kept-refl (some r) = ground arith

redeem-Kept :
    (id j : Text) (p : RedeemParams) (s : InMemoryChallengeStore)
    → Kept (get j s.records) (get j (redeem id p s).1.records)
unfolding redeem
redeem-Kept id j p s = elim (Option-cases (get id s.records)) [
  | inl e ↦ rw (e, redeem) (Kept-refl (get j s.records))
  | inr (r, e) ↦ elim (Bool-cases (id == j)) [
    | inl same ↦
        ground (arith, get-set id j (redeem_record p r).1 s.records, redeem_record-Follows p r)
    | inr other ↦
        ground (arith, get-set id j (redeem_record p r).1 s.records, Kept-refl (get j s.records))
  ]
]

record_failure-Kept :
    (id j : Text) (now max_failures : ℕ) (s : InMemoryChallengeStore)
    → Kept (get j s.records) (get j (record_failure id now max_failures s).1.records)
unfolding record_failure
record_failure-Kept id j now n s = elim (Option-cases (get id s.records)) [
  | inl e ↦ rw (e, record_failure) (Kept-refl (get j s.records))
  | inr (r, e) ↦ elim (Bool-cases (is_issued r.state)) [
    | inl issued ↦ ground (
      arith,
      get-set id j (fail_record n r) s.records,
      fail_record-Follows n r issued,
      Kept-refl (get j s.records),
    )
    | inr spent ↦ ground (arith, Kept-refl (get j s.records))
  ]
]

mark_records-Kept :
    (j : Text) (now : ℕ) (m : JsMap ChallengeRecord) → Kept (get j m) (get j (mark_records now m).1)
unfolding mark_records get
mark_records-Kept j now [] = refl
mark_records-Kept j now ((id, r) ∷ m) = ground (arith, mark_records-Kept j now m)

passing-Kept : (p : ChallengeRecord → Bool) (o : Option ChallengeRecord) → Kept o (passing p o)
passing-Kept p none = refl
passing-Kept p (some r) = ground arith

sweep-Kept :
    (j : Text) (now : ℕ) (s : InMemoryChallengeStore)
    → IsMap s.records
    → Kept (get j s.records) (get j (sweep now s).records)
unfolding sweep
sweep-Kept j now s u =
    let keep = λ (r : ChallengeRecord). not (ltb (retain_until r) now) in
    ground (
      arith,
      get-retain keep j s.records u,
      passing-Kept keep (get j s.records),
      Kept-refl (get j s.records),
    )

create-Kept :
    (j : Text) (r : ChallengeRecord) (s : InMemoryChallengeStore)
    → IsMap s.records
    → (r.challenge_id == j) ≡ false
    → Kept (get j s.records) (get j (create r s).records)
unfolding create
create-Kept j r s u ne =
    ground (arith, get-set r.challenge_id j r (sweep s.clock s).records, sweep-Kept j s.clock s u)

-- The call creates no challenge under the identifier.
abbrev pub Leaves : Text → Call → Type 0
Leaves id (creates r) = (r.challenge_id == id) ≡ false
Leaves id _ = Unit {0}

pub step-Kept :
    (id : Text) (c : Call) (s : InMemoryChallengeStore)
    → IsMap s.records
    → Leaves id c
    → Kept (get id s.records) (get id (step c s).records)
unfolding step mark_expired
step-Kept id (creates r) s u l = create-Kept id r s u l
step-Kept id (redeems j p) s u l = redeem-Kept j id p s
step-Kept id (marks now) s u l = mark_records-Kept id now s.records
step-Kept id (fails j now n) s u l = record_failure-Kept j id now n s
step-Kept id (ticks now) s u l = Kept-refl (get id s.records)

mark_records-IsMap : (now : ℕ) (m : JsMap ChallengeRecord) → IsMap m → IsMap (mark_records now m).1
unfolding mark_records
mark_records-IsMap now [] h = tt
mark_records-IsMap now ((id, r) ∷ m) h =
    ground (arith, mark_records-Kept id now m, mark_records-IsMap now m h.1)

sweep-IsMap : (now : ℕ) (s : InMemoryChallengeStore) → IsMap s.records → IsMap (sweep now s).records
unfolding sweep
sweep-IsMap now s h = ground (arith, retain-IsMap (λ r. not (ltb (retain_until r) now)) s.records h)

redeem-IsMap :
    (id : Text) (p : RedeemParams) (s : InMemoryChallengeStore)
    → IsMap s.records
    → IsMap (redeem id p s).1.records
unfolding redeem
redeem-IsMap id p s h = elim (Option-cases (get id s.records)) [
  | inl e ↦ rw (e, redeem) h
  | inr (r, e) ↦ rw (e, redeem) (set-IsMap id (redeem_record p r).1 s.records h)
]

record_failure-IsMap :
    (id : Text) (now n : ℕ) (s : InMemoryChallengeStore)
    → IsMap s.records
    → IsMap (record_failure id now n s).1.records
unfolding record_failure
record_failure-IsMap id now n s h = elim (Option-cases (get id s.records)) [
  | inl e ↦ rw (e, record_failure) h
  | inr (r, e) ↦ ground (arith, set-IsMap id (fail_record n r) s.records h)
]

pub step-IsMap :
    (c : Call) (s : InMemoryChallengeStore) → IsMap s.records → IsMap (step c s).records
unfolding step create mark_expired
step-IsMap (creates r) s h = set-IsMap r.challenge_id r _ (sweep-IsMap s.clock s h)
step-IsMap (redeems id p) s h = redeem-IsMap id p s h
step-IsMap (marks now) s h = mark_records-IsMap now s.records h
step-IsMap (fails id now n) s h = record_failure-IsMap id now n s h
step-IsMap (ticks now) s h = h

Kept-trans : (a b c : Option ChallengeRecord) → Kept a b → Kept b c → Kept a c
Kept-trans none none c h k = k
Kept-trans none (some r) c h k = cc
Kept-trans (some r) none none h k = tt
Kept-trans (some r) none (some r'') h k = cc
Kept-trans (some r) (some r') none h k = tt
Kept-trans (some r) (some r') (some r'') h k = ground arith

pub run : List Call → InMemoryChallengeStore → InMemoryChallengeStore
run [] s = s
run (c ∷ cs) s = run cs (step c s)

-- Whatever calls are made, none of which creates it anew, a challenge keeps its principal, its
-- secret and its times, its state moves from `issued` to `redeemed`, `failed_terminal` or `expired`
-- and from anywhere to `expired` only, and a challenge that is gone does not come back.
pub run-Kept :
    (id : Text) (cs : List Call) (s : InMemoryChallengeStore)
    → IsMap s.records
    → All (Leaves id) cs
    → Kept (get id s.records) (get id (run cs s).records)
unfolding run
run-Kept id [] s u l = Kept-refl (get id s.records)
run-Kept id (c ∷ cs) s u l =
    Kept-trans (get id s.records) (get id (step c s).records) _ (step-Kept id c s u l.0)
      (run-Kept id cs (step c s) (step-IsMap c s u) l.1)
