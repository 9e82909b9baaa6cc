-- ===== src/Composed/DetectionTests.antt =====
-- The theorems of Policy/Detection and Policy/Retries at the wait of the Kubernetes example.
use temporal_mistakes.Base.{ℕ, ◌≡◌, ◌≢◌, refl, ◌⊎◌, none, List, [], ◌∷◌, pos, arith, ◌≤◌, ◌↔◌, Memᴰ}
use temporal_mistakes.Runtime.{whole, whole-IsLawful}
use temporal_mistakes.Sdk.{ActivityInfo, WorkflowExecution}
use temporal_mistakes.Policy.Config.{
  required_retries, severity_for, lookup, timeouts_permit_retries,
}
use temporal_mistakes.Policy.Timing.{detection_delay}
use temporal_mistakes.Policy.Requirement.{
  set_or, documented_initial, documented_coefficient, documented_maximum, at_most,
  documented_interval, interval_sum,
}
use temporal_mistakes.Policy.Outbound.{apply_default_heartbeat}
use temporal_mistakes.Policy.Rules.{Call, policies_of, by_heartbeat}
use temporal_mistakes.Policy.Agreement.{InRange}
use temporal_mistakes.Policy.Enforcement.{regular_call}
use temporal_mistakes.Policy.Retries.{
  CanRunOut, retry_start, evaluate_policies-CanRunOut, execute_activity-InTime,
}
use temporal_mistakes.Policy.Inbound.{Completion, returned}
use temporal_mistakes.Policy.Detection.{IsMonitored, execute_activity-IsMonitored}
use temporal_mistakes.Helpers.{zero_policy_options}
use temporal_mistakes.Kubernetes.Workflow.{await_options}
use temporal_mistakes.Composed.Accepted.{scheduled_options_pass}

abbrev execution : WorkflowExecution
execution = record { id = "w"; run_id = "r" }

abbrev info : ActivityInfo ℕ
info = record {
  workflow_id = 119 ∷ [];
  run_id = 114 ∷ [];
  activity_id = 49 ∷ [];
  attempt = pos 1;
  heartbeat_timeout = pos 30_000_000_000;
  retry_policy = none;
}

abbrev own : ℕ
own = 30_000_000_000

abbrev completion : Completion ℕ
completion = returned 7 none

execute_activity-IsMonitored_example :
    (timeout : ℕ) × ((await_options whole).heartbeat_timeout ≡ pos timeout)
    × (((own ≡ 0) × (timeout ≡ 30_000_000_000)) ⊎ ((own ≢ 0) × (timeout ≡ own)))
    × IsMonitored zero_policy_options info completion timeout
unfolding required_retries
execute_activity-IsMonitored_example =
    execute_activity-IsMonitored whole (λ x. x) zero_policy_options "AwaitKubernetesJob" execution
      (await_options whole) (await_options whole) info completion own
      (scheduled_options_pass whole (λ x. x) zero_policy_options "AwaitKubernetesJob" execution 2
        whole-IsLawful refl (omega arith)).1.1.0.1
      refl refl (omega arith) refl (λ e. absurd (ground arith))

abbrev wait : Call whole
wait = regular_call whole zero_policy_options (await_options whole)

wait-InRange : InRange whole wait
unfolding apply_default_heartbeat required_retries detection_delay set_or documented_initial
    documented_coefficient documented_maximum at_most documented_interval interval_sum
wait-InRange = record { exact = omega arith; fits = omega arith }

-- Two workers are lost after 10 seconds each.
abbrev failures : List ℕ
failures = 10_000_000_000 ∷ 10_000_000_000 ∷ []

abbrev noticed : ℕ
noticed = 30_000_000_000

abbrev an_hour : ℕ
an_hour = 3_600_000_000_000

execute_activity-InTime_example : retry_start whole wait.retry_policy 0 failures ≤ an_hour
unfolding required_retries severity_for lookup apply_default_heartbeat
execute_activity-InTime_example =
    execute_activity-InTime whole (λ x. x) zero_policy_options "AwaitKubernetesJob" execution
      whole-IsLawful (await_options whole) (await_options whole) 2 noticed an_hour failures
      wait-InRange refl refl (omega arith) (by_heartbeat (omega arith) refl) refl (omega arith)
      (scheduled_options_pass whole (λ x. x) zero_policy_options "AwaitKubernetesJob" execution 2
        whole-IsLawful refl (omega arith)).1.1.0.1
      refl (omega arith, (omega arith, tt))

evaluate_policies-CanRunOut_example :
    Memᴰ timeouts_permit_retries (policies_of whole wait)
    ↔ CanRunOut whole wait whole-IsLawful wait-InRange 2 noticed an_hour
unfolding required_retries apply_default_heartbeat
evaluate_policies-CanRunOut_example =
    evaluate_policies-CanRunOut whole wait whole-IsLawful wait-InRange 2 noticed an_hour refl
      (omega arith) (by_heartbeat (omega arith) refl) refl (omega arith)
