-- ===== src/Examples/Starting.antt =====
-- Workflows that others start: src/not_waiting_for_child_workflows_to_start/workflow.go,
-- src/not_using_parent_close_policy/workflow.go, src/starting_workflows_from_activities/workflow.go,
-- src/wrapping_a_queue_with_a_workflow/workflow.go and src/polling_workflow_results/workflow.go. The
-- SDK's client and child workflows are parameters.
use temporal_mistakes.Base.{Option, none, some, ◌⊎◌, inl, inr, String, [], ◌∷◌}
use temporal_mistakes.Base.Text.{concat}
use temporal_mistakes.Errors.{Err, node, other, cons, nil}
use temporal_mistakes.Workflow.Children.{
  ChildWorkflowOptions, Contexts, ChildStart, unspecified, request_cancel,
}
use temporal_mistakes.Examples.Short.{error_of}
use temporal_mistakes.Payments.Purchase.{Call, panics, returns}

abbrev pub not_started : Option Err → Option Err
not_started none = none
not_started (some err) = some (node (other "failed to start cleanup workflow") (cons err nil))

-- The options of a context without any.
abbrev pub no_child_options : ChildWorkflowOptions
no_child_options = record { workflow_id = ""; parent_close_policy = unspecified }

-- `MyWorkflow` of not_waiting_for_child_workflows_to_start: the child that it starts, with the options
-- of its context, and its error.
unfoldable pub cleaning_workflow :
    {Input : Type 0}
    → (sdk : Contexts Input) → sdk.Context
    → ChildWorkflowOptions
    → Input
    → ChildStart sdk.Context Input × Option Err
cleaning_workflow sdk ctx options input = (
  record { context = ctx; options = options; request = input },
  not_started (sdk.start_child ctx options input),
)

-- `MyWorkflow` of not_using_parent_close_policy; `run_child` is ExecuteChildWorkflow with the Get of
-- its future.
unfoldable pub parent_workflow :
    {Input : Type 0} → (run_child : ChildWorkflowOptions → Input → Option Err) → Input → Option Err
parent_workflow run_child input =
    run_child (record no_child_options { parent_close_policy = request_cancel }) input

-- `MyWorkflowV2` of starting_workflows_from_activities.
unfoldable pub child_result_workflow :
    {Input Result : Type 0} → (run_child : Input → Err ⊎ Result) → Input → Err ⊎ Result
child_result_workflow run_child input = run_child input

-- `MyActivity`, after client.Dial, whose error it drops: then the client is nil.
module _ {Client Input Run : Type 0} (execute_workflow : Client → Input → Err ⊎ Run) where
  unfoldable pub starting_activity : (dialed : Err ⊎ Client) → Input → Call (Option Err)
  starting_activity (inl err) input = panics
  starting_activity (inr client) input = returns (error_of (execute_workflow client input))

module _ {Task Run : Type 0} (execute_workflow : (workflow_id : String) → Task → Err ⊎ Run) where
  abbrev pub task_workflow_id : String → String
  task_workflow_id task_id = concat ("task-" ∷ task_id ∷ [])

  -- `StartTask`
  unfoldable pub start_task : String → Task → Option Err
  start_task task_id task = error_of (execute_workflow (task_workflow_id task_id) task)

-- `GetWorkflowResult`; `get` is GetWorkflow with the Get of its run.
unfoldable pub get_workflow_result :
    {Result : Type 0}
    → (get : (workflow_id run_id : String) → Err ⊎ Result) → (workflow_id run_id : String)
    → Err ⊎ Result
get_workflow_result get workflow_id run_id = get workflow_id run_id
