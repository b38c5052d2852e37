-- ===== src/Tests/Challenges.antt =====
-- The theorems on challenges at stores of one challenge.
use nap.Base.{inl, ◌≤◌, ◌≡◌, refl, none, some, List, [], ◌∷◌, arith}
use nap.Text.{Text, text}
use nap.JsMap.{get}
use nap.Server.Stores.{OutstandingChallengeFilter}
use nap.Server.Challenges.{create, count_outstanding}
use nap.Server.Challenges
use nap.Server.Challenges.Lifecycle.{Call, creates, redeems, marks, fails, Kept, run, run-Kept}
use nap.Server.Challenges.Redemption.{
  redemptions, redemptions-le, Spent, fail_times, fail_times-Spent,
}
use nap.Server.Challenges.Retention.{create-keeps, count_outstanding-create}
use nap.Tests.Data.{first, second, one_challenge, one_challenge-IsMap, by_event}

abbrev calls : List Call
calls =
    redeems (text "c1") (by_event (text "e1"))
    ∷ creates second
    ∷ redeems (text "c1") (by_event (text "e2"))
    ∷ marks 200
    ∷ fails (text "c1") 210 5
    ∷ []

run-Kept_example :
    Kept (get (text "c1") one_challenge.records) (get (text "c1") (run calls one_challenge).records)
unfolding get nap.Text.text_discrete
run-Kept_example = run-Kept (text "c1") calls one_challenge one_challenge-IsMap (search)

redemptions-le_example : redemptions (text "c1") calls one_challenge ≤ 1
unfolding get nap.Text.text_discrete
redemptions-le_example = redemptions-le (text "c1") calls one_challenge one_challenge-IsMap (search)

fail_times-Spent_example :
    Spent 5 5 (get (text "c1") (fail_times 7 (text "c1") 120 5 one_challenge).records)
unfolding get nap.Text.text_discrete
fail_times-Spent_example =
    fail_times-Spent 7 (text "c1") 120 5 0 one_challenge (ground arith) (refl, refl)

create-keeps_example : get (text "c1") (create second one_challenge).records ≡ some first
unfolding get nap.Text.text_discrete
create-keeps_example =
    create-keeps (text "c1") second first one_challenge one_challenge-IsMap refl refl
      (inl (refl, ground arith))

abbrev alice : OutstandingChallengeFilter
alice = record { npub = some (text "npub1alice"); client_ip = none; now = 120 }

count_outstanding-create_example : count_outstanding alice (create second one_challenge) ≡ 2
unfolding count_outstanding Challenges.count_records get nap.Text.text_discrete
count_outstanding-create_example =
    count_outstanding-create alice second one_challenge one_challenge-IsMap (refl, tt) refl
      (ground arith)
