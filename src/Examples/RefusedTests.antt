-- ===== src/Examples/RefusedTests.antt =====
-- Activities of the examples under the policies of
-- examples/go/activitypolicyinterceptor/interceptor.go, with the defaults, and as the tests of
-- src/fallible_local_activities relax them.
use temporal_mistakes.Base.{◌≡◌, refl, String, List, [], ◌∷◌, All, length}
use temporal_mistakes.Errors.{Err}
use temporal_mistakes.Runtime.{Runtime}
use temporal_mistakes.Sdk.{ActivityOptions, LocalActivityOptions, WorkflowExecution}
use temporal_mistakes.Policy.Config.{
  warn, lookup, severity_for, required_retries, local_activity_start_to_close_too_long,
}
use temporal_mistakes.Policy.Timing.{detection_delay}
use temporal_mistakes.Policy.Evaluate.{
  Value, canonicalize, insert_by_rank, check_schedule_to_close, check_max_attempts,
  check_local_start_to_close, check_retries, evaluate_policies,
}
use temporal_mistakes.Policy.Handle.{is_ignore, is_error, select_violations, handle_violations}
use temporal_mistakes.Policy.Outbound.{
  rejected, forwarded, apply_default_heartbeat, execute_activity, execute_local_activity,
}
use temporal_mistakes.Helpers.{
  zero_policy_options, assign, new_helper_config, with_activity_policy_severity,
  activity_policy_options,
}
use temporal_mistakes.Helpers.Laws.{Setting, severity, configured}
use temporal_mistakes.Examples.Refused.{local_options, open_ended_options}

-- `allowLongLocalActivity`
abbrev allow_long_local_activity : Setting
allow_long_local_activity = severity local_activity_start_to_close_too_long warn

module _ (rt : Runtime) (visit : List (String × Value) → List (String × Value))
    (activity_type : String) (execution : WorkflowExecution) where
  -- With the defaults the call is refused; with the policy on long local activities at Warn it is
  -- passed on as it is, after one log entry.
  abbrev NeedsRelaxing : LocalActivityOptions rt.Float → Type 0
  NeedsRelaxing opts =
      ((e : Err) × ((execute_local_activity rt visit zero_policy_options activity_type execution
            opts).1
          ≡ rejected e))
      × ((execute_local_activity rt visit (configured (allow_long_local_activity ∷ []))
            activity_type execution opts).1
          ≡ forwarded opts)
      × (length
            (execute_local_activity rt visit (configured (allow_long_local_activity ∷ []))
              activity_type execution opts).0
          ≡ 1)

  abbrev IsRefusedByDefault : ActivityOptions rt.Float → Type 0
  IsRefusedByDefault opts =
      (e : Err) × ((execute_activity rt visit zero_policy_options activity_type execution opts).1
        ≡ rejected e)

  -- Each of the local activities is refused with the defaults and passed on with the policy relaxed,
  -- and each of the activities without a schedule-to-close timeout is refused with the defaults.
  examples_refused :
      All NeedsRelaxing (local_options rt) × All IsRefusedByDefault (open_ended_options rt)
  unfolding execute_activity apply_default_heartbeat execute_local_activity evaluate_policies
      canonicalize insert_by_rank check_schedule_to_close check_max_attempts
      check_local_start_to_close check_retries detection_delay handle_violations select_violations
      is_ignore is_error severity_for lookup required_retries assign new_helper_config
      with_activity_policy_severity activity_policy_options
  examples_refused = (
    (((_, refl), refl, refl), (((_, refl), refl, refl), (((_, refl), refl, refl), tt))),
    ((_, refl), ((_, refl), ((_, refl), ((_, refl), tt)))),
  )
