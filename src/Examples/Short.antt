-- ===== src/Examples/Short.antt =====
-- Workflows of the short examples that schedule an activity: using_local_activities/activity.go,
-- fallible_local_activities/activity.go, performing_expensive_computation_in_workflow_code/workflow.go
-- and not_using_workflow_replay_for_debugging/workflow.go under src. The execution of activities is a
-- parameter.
use Prim.Native.String
use temporal_mistakes.Base.{Option, none, some, ◌⊎◌, inl, inr, String}
use temporal_mistakes.Errors.{Err}
use temporal_mistakes.Runtime.{Runtime}
use temporal_mistakes.Sdk.{ActivityOptions, LocalActivityOptions}
use temporal_mistakes.Examples.Refused.{
  quick_lookup_options, validate_input_options, call_external_api_options, transform_options,
  greet_options,
}

-- The error, nil if there is none.
abbrev pub error_of : {A : Type 0} → Err ⊎ A → Option Err
error_of (inl err) = some err
error_of (inr x) = none

module _ (rt : Runtime) where
  -- `Any` is the type `any` of inputs and results.
  module _ {Any : Type 0} (execute : LocalActivityOptions rt.Float → Any → Err ⊎ Any) where
    unfoldable pub local_activity_example : Any → Err ⊎ Any
    local_activity_example input = execute (quick_lookup_options rt) input

    -- `MyWorkflowV2` and `MyWorkflowV1` of fallible_local_activities.
    unfoldable pub validating_workflow : Any → Err ⊎ Any
    validating_workflow input = execute (validate_input_options rt) input

    unfoldable pub fallible_workflow : Any → Option Err
    fallible_workflow request = error_of (execute (call_external_api_options rt) request)

  module _ {Records Result Unused : Type 0} (transform : Records → Result)
      (execute_transform : ActivityOptions rt.Float → Records → Err ⊎ Result)
      (execute_store : ActivityOptions rt.Float → Result → Err ⊎ Unused) where
    -- `MyWorkflowV1` of performing_expensive_computation_in_workflow_code, whose options are those of
    -- its context.
    unfoldable pub computing_workflow : ActivityOptions rt.Float → Records → Option Err
    computing_workflow options records = error_of (execute_store options (transform records))

    -- TransformActivity
    unfoldable pub transform_activity : Records → Err ⊎ Result
    transform_activity records = inr (transform records)

    abbrev pub with_result : Err ⊎ Result → Option Err
    with_result (inl err) = some err
    with_result (inr result) = error_of (execute_store (transform_options rt) result)

    -- `MyWorkflowV2`
    unfoldable pub delegating_workflow : Records → Option Err
    delegating_workflow records = with_result (execute_transform (transform_options rt) records)

  -- `MyWorkflow` of not_using_workflow_replay_for_debugging.
  unfoldable pub greeting_workflow :
      (execute : ActivityOptions rt.Float → String → Err ⊎ String) → String → Err ⊎ String
  greeting_workflow execute name = execute (greet_options rt) name

-- GreetActivity
unfoldable pub greet_activity : String → Err ⊎ String
greet_activity name = inr (String.◌++◌ "Hello, " (String.◌++◌ name "!"))
