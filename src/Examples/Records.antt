-- ===== src/Examples/Records.antt =====
-- src/not_using_activity_heartbeat_details/activity.go and
-- src/not_sending_heartbeats_for_cancellation/activity.go: activities that go through a list and
-- record a heartbeat after each element. `processRecord`, of which the source has a stub, is a
-- parameter.
use temporal_mistakes.Base.{ℕ, zero, suc, Option, none, some, ◌⊎◌, inl, inr, String, List, [], ◌∷◌}
use temporal_mistakes.Errors.{Err}

-- What an attempt of `ProcessRecordsActivity` does, in order: a record whose processing succeeds, and
-- a heartbeat.
pub data Effect : Type 0 where
  processed : String → Effect
  heartbeat : ℕ → Effect

-- An attempt that runs to its end: what it does, and the error that it returns.
pub record Attempt : Type 0 where
  pub effects : List Effect
  pub err : Option Err

-- The details of the last heartbeat, or the error of reading them; `none` if there are none. They are
-- an index that an attempt recorded, so not negative.
abbrev pub start_index : Option (Err ⊎ ℕ) → ℕ
start_index none = 0
start_index (some (inl err)) = 0
start_index (some (inr last_processed)) = suc last_processed

abbrev pub drop {ℓ} : {A : Type ℓ} → ℕ → List A → List A
drop zero xs = xs
drop (suc n) [] = []
drop (suc n) (x ∷ xs) = drop n xs

-- The body of the loop, by the result of `processRecord`, before the rest of the loop.
abbrev pub after_record : Option Err → ℕ → String → Attempt → Attempt
after_record (some err) i id rest = record { effects = []; err = some err }
after_record none i id rest = record {
  effects = processed id ∷ heartbeat i ∷ rest.effects;
  err = rest.err;
}

module _ (process_record : String → Option Err) where
  -- The loop from the index `i`, with the records from there on.
  unfoldable pub process_from : ℕ → List String → Attempt
  process_from i [] = record { effects = []; err = none }
  process_from i (id ∷ ids) = after_record (process_record id) i id (process_from (suc i) ids)

  unfoldable pub process_records_activity : Option (Err ⊎ ℕ) → List String → Attempt
  process_records_activity details record_ids =
      process_from (start_index details) (drop (start_index details) record_ids)

-- `LongRunningActivity`, where `context_err` is the error of the context before each element, which
-- the heartbeats bring up to date.
-- Its items are effects too.
abbrev pub after_check : Option Err → ℕ → String → Attempt → Attempt
after_check (some err) i item rest = record { effects = []; err = some err }
after_check none i item rest = record {
  effects = processed item ∷ heartbeat i ∷ rest.effects;
  err = rest.err;
}

unfoldable pub run_from : (context_err : ℕ → Option Err) → ℕ → List String → Attempt
run_from context_err i [] = record { effects = []; err = none }
run_from context_err i (item ∷ items) =
    after_check (context_err i) i item (run_from context_err (suc i) items)

unfoldable pub long_running_activity : (context_err : ℕ → Option Err) → List String → Attempt
unfolding run_from
long_running_activity context_err items = run_from context_err 0 items
