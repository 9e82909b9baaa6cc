-- ===== src/Workflow/Children.antt =====
-- internal/workflowhelpers/disconnected_child.go.
use temporal_mistakes.Base.{◌≡◌, Option, none, String}
use temporal_mistakes.Errors.{Err}

-- enums.ParentClosePolicy
pub data ParentClosePolicy : Type 0 where
  unspecified terminate abandon request_cancel : ParentClosePolicy

-- The fields of workflow.ChildWorkflowOptions that are set.
pub record ChildWorkflowOptions : Type 0 where
  pub workflow_id : String
  pub parent_close_policy : ParentClosePolicy

-- What the SDK does with contexts: their Err, workflow.NewDisconnectedContext, and the error of
-- waiting for the start of a child workflow.
pub record Contexts (Req : Type 0) : Type 1 where
  pub Context : Type 0
  pub err_of : Context → Option Err
  pub disconnect : Context → Context
  pub start_child : Context → ChildWorkflowOptions → Req → Option Err

-- The documented behaviour: the cancellation of the parent does not reach a disconnected context.
abbrev pub IsDisconnecting : {Req : Type 0} → Contexts Req → Type 0
IsDisconnecting sdk = (c : sdk.Context) → sdk.err_of (sdk.disconnect c) ≡ none

-- A command to start a child workflow.
pub record ChildStart (Context Req : Type 0) : Type 0 where
  pub context : Context
  pub options : ChildWorkflowOptions
  pub request : Req

module _ {Req : Type 0} (sdk : Contexts Req) where
  -- The command, and the error if the start fails.
  unfoldable pub start_disconnected_child_workflow :
      sdk.Context → Req → ChildWorkflowOptions → ChildStart sdk.Context Req × Option Err
  start_disconnected_child_workflow ctx req opts =
      let opts = record opts { parent_close_policy = abandon } in
      let disconnected_ctx = sdk.disconnect ctx in
      (
        record { context = disconnected_ctx; options = opts; request = req },
        sdk.start_child disconnected_ctx opts req,
      )
