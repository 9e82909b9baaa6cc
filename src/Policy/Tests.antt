-- ===== src/Policy/Tests.antt =====
-- The theorems about the activity policy interceptor at concrete calls, and runs of its functions.
use temporal_mistakes.Base.{
  ◌≡◌, refl, ◌↔◌, none, some, false, [], pos, Memᴰ, arith, add64, mul64, wrap64, ◌+ℤ◌, ◌-ℤ◌, ◌*ℤ◌,
}
use temporal_mistakes.Errors.{Err}
use temporal_mistakes.Runtime.{whole, whole-IsLawful}
use temporal_mistakes.Sdk.{ActivityOptions, LocalActivityOptions, WorkflowExecution}
use temporal_mistakes.Policy.Config.{
  Options, severity_for, required_retries, timeouts_permit_retries,
}
use temporal_mistakes.Policy.Timing.{
  retry_interval, max_interval_of, detection_delay, min_schedule_to_close, initial_of, backoff_of,
  cap_interval, configured_max_of,
}
use temporal_mistakes.Policy.Requirement.{
  set_or, documented_initial, documented_coefficient, documented_maximum, at_most,
  documented_interval, interval_sum,
}
use temporal_mistakes.Policy.Interval.{retry_interval-documented}
use temporal_mistakes.Policy.Evaluate.{canonicalize, rank, evaluate_policies}
use temporal_mistakes.Policy.Rules.{Call, policies_of, Violates, by_heartbeat}
use temporal_mistakes.Policy.Agreement.{InRange, evaluate_policies_iff}
use temporal_mistakes.Policy.Overflow.{overflow_unreported}
use temporal_mistakes.Policy.Outbound.{
  rejected, execute_activity, execute_local_activity, apply_default_heartbeat,
}
use temporal_mistakes.Policy.Enforcement.{
  regular_call, local_call, IsRefused, execute_activity_rejects_iff,
  execute_local_activity_rejects_iff,
}
use temporal_mistakes.Policy.Handle.{handle_violations, is_error, is_ignore}
use temporal_mistakes.Policy.Payload.{IsViolationReport, handle_violations_report, built}

abbrev strict : Options
strict = record {
  severities = [];
  auto_heartbeat = none;
  required_retries = none;
  has_logger = false;
}

abbrev run : WorkflowExecution
run = record { id = "wf"; run_id = "run" }

-- 25 seconds of budget, a start-to-close timeout of 30 seconds and two attempts.
abbrev tight : ActivityOptions whole.Float
tight = record {
  task_queue = "q";
  schedule_to_close_timeout = pos 25_000_000_000;
  schedule_to_start_timeout = pos 0;
  start_to_close_timeout = pos 30_000_000_000;
  heartbeat_timeout = pos 0;
  retry_policy = some (record {
    initial_interval = pos 1_000_000_000;
    backoff_coefficient = 2;
    maximum_interval = pos 60_000_000_000;
    maximum_attempts = pos 2;
  });
}

abbrev tight_call : Call whole
tight_call = regular_call whole strict tight

tight_InRange : InRange whole tight_call
unfolding apply_default_heartbeat required_retries detection_delay set_or documented_initial
    documented_coefficient documented_maximum at_most documented_interval interval_sum
tight_InRange = record { exact = omega arith; fits = omega arith }

evaluate_policies_iff_example :
    Memᴰ timeouts_permit_retries (policies_of whole tight_call)
    ↔ Violates whole tight_call timeouts_permit_retries
evaluate_policies_iff_example =
    evaluate_policies_iff whole tight_call whole-IsLawful tight_InRange timeouts_permit_retries

execute_activity_rejects_iff_example :
    ((e : Err) × ((execute_activity whole (λ x. x) strict "a" run tight).1 ≡ rejected e))
    ↔ IsRefused whole (λ x. x) strict "a" run tight_call
execute_activity_rejects_iff_example =
    execute_activity_rejects_iff whole (λ x. x) strict "a" run whole-IsLawful tight tight_InRange

-- A local activity without a start-to-close timeout.
abbrev unset_local : LocalActivityOptions whole.Float
unset_local = record {
  schedule_to_close_timeout = pos 5_000_000_000;
  start_to_close_timeout = pos 0;
  retry_policy = none;
}

unset_local_InRange : InRange whole (local_call whole strict unset_local)
unfolding required_retries detection_delay set_or documented_initial documented_coefficient
    documented_maximum at_most documented_interval interval_sum
unset_local_InRange = record { exact = omega arith; fits = omega arith }

execute_local_activity_rejects_iff_example :
    ((e : Err) × ((execute_local_activity whole (λ x. x) strict "a" run unset_local).1
        ≡ rejected e))
    ↔ IsRefused whole (λ x. x) strict "a" run (local_call whole strict unset_local)
execute_local_activity_rejects_iff_example =
    execute_local_activity_rejects_iff whole (λ x. x) strict "a" run whole-IsLawful unset_local
      unset_local_InRange

handle_violations_report_example :
    IsViolationReport whole
      (λ x. x)
      strict
      "a"
      run
      tight_call
      (built whole (λ x. x) strict "a" run tight_call)
unfolding handle_violations severity_for is_error is_ignore apply_default_heartbeat required_retries
    evaluate_policies canonicalize rank detection_delay min_schedule_to_close retry_interval
    cap_interval initial_of backoff_of max_interval_of configured_max_of add64 mul64 wrap64 ◌+ℤ◌
    ◌-ℤ◌ ◌*ℤ◌
handle_violations_report_example =
    handle_violations_report whole (λ x. x) strict "a" run whole-IsLawful tight_call
      (built whole (λ x. x) strict "a" run tight_call) tight_InRange refl

-- A heartbeat timeout of 2 ^ 62 nanoseconds, some 146 years.
abbrev distant : Call whole
distant = record {
  schedule_to_close = pos 3_600_000_000_000;
  start_to_close = pos 0;
  heartbeat = pos 4_611_686_018_427_387_904;
  retry_policy = none;
  is_local = false;
  required_retries = pos 2;
}

overflow_unreported_example :
    Violates whole distant timeouts_permit_retries
    × (¬ Memᴰ timeouts_permit_retries (policies_of whole distant))
unfolding set_or documented_initial documented_coefficient documented_maximum at_most
    documented_interval interval_sum
overflow_unreported_example =
    overflow_unreported whole distant whole-IsLawful 4_611_686_018_427_387_904 2 3_600_000_000_000
      (omega arith) (by_heartbeat (omega arith) refl) refl (omega arith) refl (omega arith)
      (omega arith) (omega arith) (omega arith)

-- The third interval of a policy without any field.
retry_interval-documented_example :
    retry_interval whole (pos 3) none ≡ pos (documented_interval whole none 2)
unfolding documented_maximum documented_initial
retry_interval-documented_example =
    retry_interval-documented whole whole-IsLawful none (omega arith, omega arith) 2
