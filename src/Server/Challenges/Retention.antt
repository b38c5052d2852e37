-- ===== src/Server/Challenges/Retention.antt =====
-- What the sweep of `InMemoryChallengeStore` keeps and drops.
use nap.Base.{
  ℕ, ◌+◌, ◌≤◌, ◌≡◌, ◌↔◌, refl, Bool, false, not, ◌&&◌, none, some, [], ◌∷◌, arith, ltb,
  if◌then◌else◌, is_some, inl, inr, some, ◌⊎◌,
}
use nap.Text.{Text, ◌==◌}
use nap.JsMap.{JsMap, IsMap, get, set, get-set, retain, get-retain}
use nap.Core.Types.{ChallengeRecord}
use nap.Server.Stores.{OutstandingChallengeFilter}
use nap.Server.Challenges.{
  InMemoryChallengeStore, is_issued, retain_until, is_swept, sweep, create, is_outstanding,
  count_records, count_outstanding,
}

abbrev is_live : ℕ → ChallengeRecord → Bool
is_live now r = not (ltb (retain_until r) now)

-- The time until which a challenge may be completed or asked for again has not passed: that of its
-- cached result, or its own where it has none.
abbrev pub IsWanted : ℕ → ChallengeRecord → Type 0
IsWanted now r =
    ((r.result_cache_until ≡ none) × (now ≤ r.expires_at))
    ⊎ ((until : ℕ) × (r.result_cache_until ≡ some until) × (now ≤ until))

IsWanted-kept : (now : ℕ) (r : ChallengeRecord) → IsWanted now r → now ≤ retain_until r
IsWanted-kept now r (inl (e, l)) = ground (arith, e, l)
IsWanted-kept now r (inr (until, e, l)) = ground (arith, e, l)

-- Creating a challenge drops no other challenge that may still be completed or asked for again:
-- neither one that has not expired and was not redeemed, nor a redeemed one whose result is cached.
pub create-keeps :
    (id : Text) (r live : ChallengeRecord) (s : InMemoryChallengeStore)
    → IsMap s.records
    → (r.challenge_id == id) ≡ false
    → get id s.records ≡ some live
    → IsWanted s.clock live
    → get id (create r s).records ≡ some live
unfolding create sweep
create-keeps id r live s u ne h l = ground (
  arith,
  IsWanted-kept s.clock live l,
  get-set r.challenge_id id r (sweep s.clock s).records,
  get-set r.challenge_id id r s.records,
  get-retain (is_live s.clock) id s.records u,
  get-set r.challenge_id id r (retain (is_live s.clock) s.records),
)

-- A sweep that runs leaves only what has not outlived its bound.
pub sweep-drops :
    (id : Text) (now : ℕ) (r : ChallengeRecord) (s : InMemoryChallengeStore)
    → IsMap s.records
    → is_swept now s.last_swept_at ≡ false
    → (get id (sweep now s).records ≡ some r)
      ↔ ((get id s.records ≡ some r) × (now ≤ retain_until r))
unfolding sweep
sweep-drops id now r s u h = (
  λ e. ground (arith, get-retain (is_live now) id s.records u),
  λ p. ground (arith, get-retain (is_live now) id s.records u),
)

-- An issued challenge has no cached result.
abbrev pub IsConsistent : JsMap ChallengeRecord → Type 0
IsConsistent [] = Unit {0}
IsConsistent ((id, r) ∷ m) =
    ((is_issued r.state && is_some r.result_cache_until) ≡ false) × IsConsistent m

count_records-retain :
    (f : OutstandingChallengeFilter) (now : ℕ) (m : JsMap ChallengeRecord)
    → IsConsistent m
    → now ≤ f.now
    → count_records f (retain (is_live now) m) ≡ count_records f m
unfolding count_records retain
count_records-retain f now [] c l = refl
count_records-retain f now ((id, r) ∷ m) c l = ground (arith, count_records-retain f now m c.1, c.0)

count_records-set :
    (f : OutstandingChallengeFilter) (r : ChallengeRecord) (m : JsMap ChallengeRecord)
    → get r.challenge_id m ≡ none
    → count_records f (set r.challenge_id r m)
      ≡ count_records f m + (if is_outstanding f r then 1 else 0)
unfolding count_records get set
count_records-set f r [] h = ground arith
count_records-set f r ((id, q) ∷ m) h = ground (arith, count_records-set f r m)

-- A new challenge adds one to each count that it matches and the sweep takes nothing away from a
-- count at the clock's reading: the caps count every challenge that is still good.
pub count_outstanding-create :
    (f : OutstandingChallengeFilter) (r : ChallengeRecord) (s : InMemoryChallengeStore)
    → IsMap s.records
    → IsConsistent s.records
    → get r.challenge_id s.records ≡ none
    → s.clock ≤ f.now
    → count_outstanding f (create r s)
      ≡ count_outstanding f s + (if is_outstanding f r then 1 else 0)
unfolding count_outstanding create sweep
count_outstanding-create f r s u c h l = ground (
  arith,
  get-retain (is_live s.clock) r.challenge_id s.records u,
  count_records-retain f s.clock s.records c,
  count_records-set f r s.records,
  count_records-set f r (retain (is_live s.clock) s.records),
)
