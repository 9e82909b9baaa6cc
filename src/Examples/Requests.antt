-- ===== src/Examples/Requests.antt =====
-- src/doing_work_outside_of_the_workflow/workflow.go: the two request handlers and their workflows, by
-- the effects that they have, in order. The database and the client are parameters.
use temporal_mistakes.Base.{Option, none, some, ◌⊎◌, inl, inr, String, List, [], ◌∷◌, ◌++◌}
use temporal_mistakes.Errors.{Err}

pub record Record : Type 0 where
  pub id : String

-- What a handler starts: the first workflow with an ID, or the second with the data.
pub data Start (Data : Type 0) : Type 0 where
  start_v1 : String → Start Data
  start_v2 : Data → Start Data

-- What outlives the process: a record in the database, or a workflow that the service runs.
pub data Effect (Data : Type 0) : Type 0 where
  inserted : Record → Effect Data
  started : Start Data → Effect Data

module _ {Data : Type 0} where
  -- After ExecuteWorkflow; an error stands for a workflow that is not started.
  abbrev pub after_start : Start Data → Option Err → List (Effect Data) × Option Err
  after_start start (some err) = ([], some err)
  after_start start none = (started start ∷ [], none)

  module _ (insert : Data → Err ⊎ Record) (execute_workflow : Start Data → Option Err) where
    abbrev pub after_insert : Err ⊎ Record → List (Effect Data) × Option Err
    after_insert (inl err) = ([], some err)
    after_insert (inr record_) =
        let start = start_v1 record_.id in
        let (effects, err) = after_start start (execute_workflow start) in
        (inserted record_ ∷ effects, err)

    -- `HandleRequest`
    unfoldable pub handle_request : Data → List (Effect Data) × Option Err
    handle_request d = after_insert (insert d)

    -- `HandleRequestV2`
    unfoldable pub handle_request_v2 : Data → List (Effect Data) × Option Err
    handle_request_v2 d = after_start (start_v2 d) (execute_workflow (start_v2 d))

  -- `MyWorkflowV2`, over the result of its activity.
  unfoldable pub my_workflow_v2 : Err ⊎ Record → List (Effect Data) × Option Err
  my_workflow_v2 (inl err) = ([], some err)
  my_workflow_v2 (inr record_) = (inserted record_ ∷ [], none)

  -- The second handler, and then its workflow if it was started.
  abbrev pub then_workflow : Option Err → List (Effect Data) → Err ⊎ Record → List (Effect Data)
  then_workflow (some err) effects activity = effects
  then_workflow none effects activity = effects ++ (my_workflow_v2 activity).0
