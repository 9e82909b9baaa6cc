-- ===== src/Examples/Validated.antt =====
-- src/not_validating_replay_safety_before_deployments/workflow.go. The UUID, the SDK's side effects
-- and the execution of the activity are parameters.
use temporal_mistakes.Base.{Option, some, ◌⊎◌, inl, inr, String, pos}
use temporal_mistakes.Errors.{Err}
use temporal_mistakes.Sdk.{ActivityOptions, zero_options, minute}
use temporal_mistakes.Workflow.SideEffects.{Converter, Run, SideEffects, side_effect}
use temporal_mistakes.Workflow.Activities.{await_activity}
use temporal_mistakes.Examples.Short.{error_of}

pub record MyActivityRequest : Type 0 where
  pub request_id : String

abbrev pub activity_options : {F : Type 0} → ActivityOptions F
activity_options = record zero_options {
  start_to_close_timeout = pos 30_000_000_000;
  schedule_to_close_timeout = minute;
}

module _ {F Response Payload : Type 0} (sdk : SideEffects Payload)
    (texts : Converter Payload String)
    (activity : ActivityOptions F → MyActivityRequest → Err ⊎ Response) where
  abbrev pub with_request_id : Err ⊎ String → Option Err
  with_request_id (inl err) = some err
  with_request_id (inr request_id) =
      error_of (await_activity activity activity_options (record { request_id = request_id }))

  -- `MyWorkflow`, with the UUID that uuid.NewString would give.
  unfoldable pub my_workflow : Run Payload → (uuid : String) → Option Err
  my_workflow run uuid = with_request_id (side_effect sdk texts run uuid)
