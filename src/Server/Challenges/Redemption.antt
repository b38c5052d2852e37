-- ===== src/Server/Challenges/Redemption.antt =====
-- A challenge in `InMemoryChallengeStore` is redeemed once, and its failures end it.
use nap.Base.{
  ℕ, zero, suc, ◌+◌, ◌≤◌, ◌≡◌, min, refl, Bool, true, false, Option, none, some, List, [], ◌∷◌,
  arith, leb, if◌then◌else◌, All, Bool-cases, Option-cases, inl, inr, or_default,
}
use nap.Text.{Text, ◌==◌}
use nap.JsMap.{IsMap, get, get-set}
use nap.Core.Types.{ChallengeState, ChallengeRecord}
use nap.Server.Stores.{RedeemParams, RedeemStatus}
use nap.Server.Challenges.{
  InMemoryChallengeStore, is_issued, redeem_record, redeem, fail_record, record_failure,
}
use nap.Server.Challenges.Lifecycle.{
  Call, creates, redeems, marks, fails, ticks, step, Leaves, step-Kept, step-IsMap,
}

-- The calls that redeem the challenge.
abbrev redeems_it : Text → Call → InMemoryChallengeStore → Bool
redeems_it id (redeems j p) s =
    if j == id then elim (redeem j p s).0 [ RedeemStatus.redeemed ↦ true | _ ↦ false ] else false
redeems_it id _ s = false

pub redemptions : Text → List Call → InMemoryChallengeStore → ℕ
redemptions id [] s = 0
redemptions id (c ∷ cs) s =
    let rest = redemptions id cs (step c s) in if redeems_it id c s then suc rest else rest

abbrev holds_issued : Option ChallengeRecord → Bool
holds_issued none = false
holds_issued (some r) = is_issued r.state

-- A challenge that is not issued is never issued again.
spent_stays :
    (id : Text) (c : Call) (s : InMemoryChallengeStore)
    → IsMap s.records
    → Leaves id c
    → holds_issued (get id s.records) ≡ false
    → holds_issued (get id (step c s).records) ≡ false
spent_stays id c s u l h = ground (arith, step-Kept id c s u l)

redeem_spends :
    (id : Text) (p : RedeemParams) (s : InMemoryChallengeStore)
    → (redeem id p s).0 ≡ RedeemStatus.redeemed
    → (holds_issued (get id s.records) ≡ true)
      × (holds_issued (get id (redeem id p s).1.records) ≡ false)
unfolding redeem redeem_record
redeem_spends id p s h = elim (Option-cases (get id s.records)) [
  | inl e ↦ ground arith
  | inr (r, e) ↦ ground (arith, get-set id id (redeem_record p r).1 s.records)
]

redeems_it_spends :
    (id : Text) (c : Call) (s : InMemoryChallengeStore)
    → redeems_it id c s ≡ true
    → (holds_issued (get id s.records) ≡ true) × (holds_issued (get id (step c s).records) ≡ false)
unfolding step
redeems_it_spends id (redeems j p) s h = ground (arith, redeem_spends j p s)
redeems_it_spends id (creates r) s h = cc
redeems_it_spends id (marks now) s h = cc
redeems_it_spends id (fails j now n) s h = cc
redeems_it_spends id (ticks now) s h = cc

redemptions_spent :
    (id : Text) (cs : List Call) (s : InMemoryChallengeStore)
    → IsMap s.records
    → All (Leaves id) cs
    → holds_issued (get id s.records) ≡ false
    → redemptions id cs s ≡ 0
unfolding redemptions
redemptions_spent id [] s u l h = refl
redemptions_spent id (c ∷ cs) s u l h = ground (
  arith,
  redeems_it_spends id c s,
  redemptions_spent id cs (step c s) (step-IsMap c s u) l.1 (spent_stays id c s u l.0 h),
)

-- However completions and the other calls are interleaved, a challenge that none of them creates
-- anew is redeemed at most once.
pub redemptions-le :
    (id : Text) (cs : List Call) (s : InMemoryChallengeStore)
    → IsMap s.records
    → All (Leaves id) cs
    → redemptions id cs s ≤ 1
unfolding redemptions
redemptions-le id [] s u l = omega arith
redemptions-le id (c ∷ cs) s u l = elim (Bool-cases (redeems_it id c s)) [
  | inl now ↦ ground (
    arith,
    redeems_it_spends id c s now,
    redemptions_spent id cs (step c s) (step-IsMap c s u) l.1,
  )
  | inr later ↦ ground (arith, redemptions-le id cs (step c s) (step-IsMap c s u) l.1)
]

-- `n` failed completions of one challenge.
pub fail_times : ℕ → Text → ℕ → ℕ → InMemoryChallengeStore → InMemoryChallengeStore
fail_times zero id now n s = s
fail_times (suc k) id now n s = fail_times k id now n (record_failure id now n s).1

-- The record after `count` failures of a budget of `n`.
abbrev pub Spent : ℕ → ℕ → Option ChallengeRecord → Type 0
Spent n count none = ⊥
Spent n count (some r) =
    (or_default r.failure_count 0 ≡ count)
    × (r.state ≡ (if leb n count then ChallengeState.failed_terminal else ChallengeState.issued))

record_failure-Spent :
    (id : Text) (now n count : ℕ) (s : InMemoryChallengeStore)
    → count ≤ n
    → Spent n count (get id s.records)
    → Spent n (min (count + 1) n) (get id (record_failure id now n s).1.records)
unfolding record_failure
record_failure-Spent id now n count s le h = elim (Option-cases (get id s.records)) [
  | inl e ↦ ground arith
  | inr (r, e) ↦ ground (arith, get-set id id (fail_record n r) s.records)
]

-- After `k` more failed completions of a challenge that has failed `count` times, the count is
-- `count + k` but no more than the budget `n`, and the challenge is `failed_terminal` exactly when
-- the budget is used up.
pub fail_times-Spent :
    (k : ℕ) (id : Text) (now n count : ℕ) (s : InMemoryChallengeStore)
    → count ≤ n
    → Spent n count (get id s.records)
    → Spent n (min (count + k) n) (get id (fail_times k id now n s).records)
unfolding fail_times
fail_times-Spent zero id now n count s le h =
    let e : min (count + 0) n ≡ count = omega arith in rw e h
fail_times-Spent (suc k) id now n count s le h =
    let e : min (count + suc k) n ≡ min (min (count + 1) n + k) n = omega arith in
    rw e (
      fail_times-Spent k id now n (min (count + 1) n) _ (omega arith)
        (record_failure-Spent id now n count s le h))
