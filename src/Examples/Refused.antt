-- ===== src/Examples/Refused.antt =====
-- The options with which short examples under src schedule activities: the local activities of
-- using_local_activities/activity.go and fallible_local_activities/activity.go, and the activities of
-- performing_expensive_computation_in_workflow_code/workflow.go,
-- not_using_workflow_replay_for_debugging/workflow.go and
-- assuming_workflow_timeouts_allow_graceful_cleanup/workflow.go.
use temporal_mistakes.Base.{none, some, List, [], ◌∷◌, pos}
use temporal_mistakes.Runtime.{Runtime}
use temporal_mistakes.Sdk.{second, minute, ActivityOptions, zero_options, LocalActivityOptions}

module _ (rt : Runtime) where
  -- `LocalActivityExample`
  abbrev pub quick_lookup_options : LocalActivityOptions rt.Float
  quick_lookup_options = record {
    schedule_to_close_timeout = pos 5_000_000_000;
    start_to_close_timeout = pos 0;
    retry_policy = none;
  }

  -- `MyWorkflowV2`
  abbrev pub validate_input_options : LocalActivityOptions rt.Float
  validate_input_options = record {
    schedule_to_close_timeout = pos 2_000_000_000;
    start_to_close_timeout = pos 0;
    retry_policy = none;
  }

  -- `MyWorkflowV1`
  abbrev pub call_external_api_options : LocalActivityOptions rt.Float
  call_external_api_options = record {
    schedule_to_close_timeout = pos 30_000_000_000;
    start_to_close_timeout = pos 0;
    retry_policy = some (record {
      initial_interval = second;
      backoff_coefficient = rt.of_int (pos 0);
      maximum_interval = pos 0;
      maximum_attempts = pos 10;
    });
  }

  abbrev pub local_options : List (LocalActivityOptions rt.Float)
  local_options = quick_lookup_options ∷ validate_input_options ∷ call_external_api_options ∷ []

  -- `MyWorkflowV2` of performing_expensive_computation_in_workflow_code.
  abbrev pub transform_options : ActivityOptions rt.Float
  transform_options = record zero_options {
    start_to_close_timeout = pos 600_000_000_000;
    heartbeat_timeout = pos 30_000_000_000;
  }

  -- not_using_workflow_replay_for_debugging
  abbrev pub greet_options : ActivityOptions rt.Float
  greet_options = record zero_options { start_to_close_timeout = pos 10_000_000_000 }

  -- The compensations of both versions of assuming_workflow_timeouts_allow_graceful_cleanup.
  abbrev pub compensate_options_v1 : ActivityOptions rt.Float
  compensate_options_v1 = record zero_options { start_to_close_timeout = minute }

  abbrev pub compensate_options_v2 : ActivityOptions rt.Float
  compensate_options_v2 = record zero_options { start_to_close_timeout = pos 30_000_000_000 }

  abbrev pub open_ended_options : List (ActivityOptions rt.Float)
  open_ended_options =
      transform_options ∷ greet_options ∷ compensate_options_v1 ∷ compensate_options_v2 ∷ []
