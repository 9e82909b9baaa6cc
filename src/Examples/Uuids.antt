-- ===== src/Examples/Uuids.antt =====
-- src/not_using_return_value_in_side_effect/workflow.go: the value of `myUUID` and the error, over the
-- SDK's side effects.
use temporal_mistakes.Base.{Option, none, some, ◌⊎◌, inl, inr, String, if◌then◌else◌}
use temporal_mistakes.Errors.{Err}
use temporal_mistakes.Workflow.SideEffects.{Converter, Run, SideEffects}

-- `made` is what uuid.New().String() gives at the call.
module _ {Payload : Type 0} (sdk : SideEffects Payload) (texts : Converter Payload String) where
  -- The function of the side effect sets the variable, if it is called.
  unfoldable pub my_workflow_v1 : Run Payload → (made : String) → String × Option Err
  my_workflow_v1 run made = (if sdk.executes run then made else "", none)

  abbrev pub got : Err ⊎ String → String × Option Err
  got (inl err) = ("", some err)
  got (inr uuid) = (uuid, none)

  unfoldable pub my_workflow_v2 : Run Payload → (made : String) → String × Option Err
  my_workflow_v2 run made = got (texts.decode (sdk.side_effect texts run made))
