-- ===== src/Server/Challenges.antt =====
-- `InMemoryChallengeStore` of packages/nap-server/src/memory.ts. The reading of the store's clock is
-- the field `clock`. The records that a caller gets are read only, so they are values here.
pub mod Lifecycle
pub mod Redemption
pub mod Retention
use nap.Base.{
  ℕ, suc, ◌+◌, Bool, true, false, not, ◌&&◌, ◌||◌, Option, none, some, List, [], ◌∷◌, leb, ltb,
  if◌then◌else◌, or_default,
}
use nap.Text.{Text, ◌==◌, is_text}
use nap.JsMap.{JsMap, get, set, retain}
use nap.Core.Types.{ChallengeState, ChallengeRecord}
use nap.Server.Stores.{
  OutstandingChallengeFilter, RecordChallengeFailureResult, RedeemParams, RedeemStatus,
  ChallengeStore,
}

pub record InMemoryChallengeStore : Type 0 where
  pub clock : ℕ
  pub records : JsMap ChallengeRecord
  pub last_swept_at : Option ℕ

abbrev pub is_issued : ChallengeState → Bool
is_issued ChallengeState.issued = true
is_issued _ = false

abbrev pub is_expired : ChallengeState → Bool
is_expired ChallengeState.expired = true
is_expired _ = false

-- `record.result_cache_until ?? record.expires_at`
abbrev pub retain_until : ChallengeRecord → ℕ
retain_until r = or_default r.result_cache_until r.expires_at

-- `this.lastSweptAt !== null && now <= this.lastSweptAt`
abbrev pub is_swept : ℕ → Option ℕ → Bool
is_swept now none = false
is_swept now (some at) = leb now at

unfoldable pub sweep : ℕ → InMemoryChallengeStore → InMemoryChallengeStore
sweep now s = if is_swept now s.last_swept_at then s else record s {
  last_swept_at = some now;
  records = retain (λ r. not (ltb (retain_until r) now)) s.records;
}

unfoldable pub create : ChallengeRecord → InMemoryChallengeStore → InMemoryChallengeStore
create r s = let s' = sweep s.clock s in record s' { records = set r.challenge_id r s'.records }

unfoldable pub get_challenge : Text → InMemoryChallengeStore → Option ChallengeRecord
get_challenge id s = get id s.records

abbrev put : Text → ChallengeRecord → InMemoryChallengeStore → InMemoryChallengeStore
put id r s = record s { records = set id r s.records }

-- What `redeem` does to the record that it finds.
unfoldable pub redeem_record : RedeemParams → ChallengeRecord → RedeemStatus × ChallengeRecord
redeem_record p r =
    if ltb r.expires_at p.now || is_expired r.state
    then (RedeemStatus.expired, record r { state = ChallengeState.expired })
    else (if is_issued r.state
        then (
          RedeemStatus.redeemed,
          record r {
            state = ChallengeState.redeemed;
            redeemed_event_id = some p.event_id;
            redeemed_session_id = some p.session_id;
            result_cache_until = some p.result_cache_until;
          },
        )
        else (RedeemStatus.already_redeemed, r))

unfoldable pub redeem :
    Text → RedeemParams → InMemoryChallengeStore → RedeemStatus × InMemoryChallengeStore
unfolding redeem_record
redeem id p s = elim (get id s.records) [
  | none ↦ (RedeemStatus.not_found, s)
  | some r ↦ let (status, r') = redeem_record p r in (status, put id r' s)
]

abbrev is_overdue : ℕ → ChallengeRecord → Bool
is_overdue now r = is_issued r.state && ltb r.expires_at now

-- The loop of `markExpired`: the number of records that it moves, and the records.
unfoldable pub mark_records : ℕ → JsMap ChallengeRecord → ℕ × JsMap ChallengeRecord
mark_records now [] = (0, [])
mark_records now ((id, r) ∷ m) =
    let (count, m') = mark_records now m in
    if is_overdue now r
    then (suc count, (id, record r { state = ChallengeState.expired }) ∷ m')
    else (count, (id, r) ∷ m')

unfoldable pub mark_expired : ℕ → InMemoryChallengeStore → ℕ × InMemoryChallengeStore
mark_expired now s =
    let (count, records) = mark_records now s.records in (count, record s { records = records })

abbrev matches_text : Option Text → Option Text → Bool
matches_text none value = true
matches_text (some wanted) value = is_text value wanted

-- The tests of the loop of `countOutstanding`.
abbrev pub is_outstanding : OutstandingChallengeFilter → ChallengeRecord → Bool
is_outstanding f r =
    is_issued r.state
    && not (ltb r.expires_at f.now)
    && matches_text f.npub (some r.npub)
    && matches_text f.client_ip r.client_ip

unfoldable pub count_records : OutstandingChallengeFilter → JsMap ChallengeRecord → ℕ
count_records f [] = 0
count_records f ((id, r) ∷ m) =
    let rest = count_records f m in if is_outstanding f r then suc rest else rest

unfoldable pub count_outstanding : OutstandingChallengeFilter → InMemoryChallengeStore → ℕ
count_outstanding f s = count_records f s.records

-- What `recordFailure`, which does not read its `now`, makes of an issued record.
abbrev pub fail_record : ℕ → ChallengeRecord → ChallengeRecord
fail_record max_failures r =
    let count = or_default r.failure_count 0 + 1 in
    record r {
      failure_count = some count;
      state = if leb max_failures count then ChallengeState.failed_terminal else r.state;
    }

unfoldable pub record_failure :
    Text
    → ℕ
    → ℕ
    → InMemoryChallengeStore
    → Option RecordChallengeFailureResult × InMemoryChallengeStore
record_failure id now max_failures s = elim (get id s.records) [
  | none ↦ (none, s)
  | some r ↦
      if is_issued r.state
      then (
        some (record {
          failure_count = or_default r.failure_count 0 + 1;
          state = (fail_record max_failures r).state;
        }),
        put id (fail_record max_failures r) s,
      )
      else (none, s)
]

-- The class as an implementation of the interface; none of its methods throws.
abbrev pub in_memory_challenge_store : ChallengeStore InMemoryChallengeStore
in_memory_challenge_store = record {
  create = λ r s. (true, create r s);
  get = get_challenge;
  redeem = redeem;
  mark_expired = mark_expired;
  count_outstanding = some count_outstanding;
  record_failure = some record_failure;
}
