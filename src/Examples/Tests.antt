-- ===== src/Examples/Tests.antt =====
-- The theorems about the example workflows at concrete runs.
use temporal_mistakes.Base.{◌⊎◌, String, ℤ, pos, ◌≤ℤ◌, ◌<ℤ◌}
use temporal_mistakes.Errors.{Err, node, nil, canceled, other}
use temporal_mistakes.Sdk.{minute}
use temporal_mistakes.Examples.SoftTimeout.{
  WorkflowInfo, soft_timeout_fired, effective_timeout, timeout_too_small, select_err,
  run_with_soft_timeout,
}
use temporal_mistakes.Examples.SoftTimeoutLaws.{
  Refuses, EndsInTime, run_with_soft_timeout_compensates,
}

abbrev hourly : WorkflowInfo
hourly = record { workflow_run_timeout = pos 0; workflow_execution_timeout = pos 3_600_000_000_000 }

abbrev show_duration : ℤ → String
show_duration d = "d"

abbrev context_err : Err
context_err = node canceled nil

abbrev deadline_exceeded : Err
deadline_exceeded = node (other "deadline exceeded") nil

run_with_soft_timeout_compensates_example :
    ((effective_timeout hourly ≤ℤ minute)
      × Refuses (timeout_too_small show_duration minute) (
          run_with_soft_timeout show_duration context_err deadline_exceeded hourly
            soft_timeout_fired))
    ⊎ ((minute <ℤ effective_timeout hourly)
        × EndsInTime
            (effective_timeout hourly)
            minute
            (select_err show_duration context_err deadline_exceeded soft_timeout_fired)
            (run_with_soft_timeout show_duration context_err deadline_exceeded hourly
              soft_timeout_fired))
run_with_soft_timeout_compensates_example =
    run_with_soft_timeout_compensates show_duration context_err deadline_exceeded hourly
      soft_timeout_fired
