-- ===== src/Examples/WaitingTests.antt =====
-- The theorems about the examples that wait, retry or crash, at concrete runs.
use text.Mathlib.Text.{◌==◌ as str_eq}
use temporal_mistakes.Base.{
  ℕ, ◌≤◌, ◌≡◌, refl, ◌↔◌, inr, Option, none, some, true, false, String, List, [], ◌∷◌, ◌++◌, Until,
  if◌then◌else◌,
}
use temporal_mistakes.Errors.{Err, node, nil, other}
use temporal_mistakes.Examples.RecordRetries.{Fate, returns, lost_after, Covers, retries}
use temporal_mistakes.Examples.RecordsLaws.{retries_process_in_order}
use temporal_mistakes.Examples.Records.{process_from, process_records_activity}
use temporal_mistakes.Examples.Waiting.{Round, completed, subscription_workflow}
use temporal_mistakes.Examples.WaitingLaws.{GoesOn, Stops, subscription_workflow_iff}
use temporal_mistakes.Examples.Requests.{
  Record, Effect, started, start_v2, handle_request, handle_request_v2,
}
use temporal_mistakes.Examples.RequestsLaws.{IsOrphaned, CrashesAt, handlers-IsOrphaned}

abbrev broken : Err
broken = node (other "broken") nil

-- The first attempt fails on the second record, and the second is lost before its heartbeat for it.
abbrev attempts : List ((String → Option Err) × Fate)
attempts =
    ((λ id. if str_eq id "b" then some broken else none), returns)
    ∷ ((λ id. none), lost_after 1)
    ∷ ((λ id. none), returns)
    ∷ []

retries_process_in_order_example :
    let r = retries none attempts ("a" ∷ "b" ∷ []) in
    (repeats : ℕ) × (left : List String) × Covers repeats r.records ("a" ∷ "b" ∷ []) left
    × (repeats ≤ r.lost)
    × ((r.success ≡ true) → left ≡ [])
    × ((r.lost ≡ 0) → r.records ++ left ≡ "a" ∷ "b" ∷ [])
retries_process_in_order_example = retries_process_in_order attempts ("a" ∷ "b" ∷ [])

-- The second record is processed twice.
retries-records : (retries none attempts ("a" ∷ "b" ∷ [])).records ≡ "a" ∷ "b" ∷ "b" ∷ []
unfolding process_records_activity process_from
retries-records = refl

-- A start at which only the timer waits.
abbrev fresh : List Round
fresh =
    (record { has_pending = false; timer_fires = false; continue_as_new_suggested = false }) ∷ []

abbrev state : String
state = "s"

subscription_workflow_iff_example :
    (subscription_workflow state fresh ≡ some completed)
    ↔ Until GoesOn (Stops state) fresh completed
subscription_workflow_iff_example = subscription_workflow_iff state fresh completed

abbrev input : String
input = "d"

abbrev foo : Record
foo = record { id = "foo" }

handlers-IsOrphaned_example :
    ((before : List (Effect String)) × CrashesAt
        (handle_request (λ d. inr foo) (λ start. none) input).0
        before
      × IsOrphaned before)
    × (¬ IsOrphaned (started (start_v2 input) ∷ []))
unfolding handle_request_v2
handlers-IsOrphaned_example =
    handlers-IsOrphaned (λ d. inr foo) (λ start. none) input foo (inr foo)
      (started (start_v2 input) ∷ []) refl (record { lost = _; split = refl })
