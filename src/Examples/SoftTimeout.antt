-- ===== src/Examples/SoftTimeout.antt =====
-- src/assuming_workflow_timeouts_allow_graceful_cleanup/workflow.go: `getSoftTimeout` and the second
-- version of the workflow, from the branch that its selector takes. The text of a duration and the
-- SDK's errors for cancellation and for a deadline are parameters.
use temporal_mistakes.Base.{
  Option, none, some, Bool, true, false, ◌⊎◌, inl, inr, String, [], ◌∷◌, ℤ, pos, ◌-ℤ◌, ltb_ℤ, eqb_ℤ,
  if◌then◌else◌,
}
use temporal_mistakes.Sdk.{minute}
use temporal_mistakes.Errors.{Err, min_timeout, application_error_only}

-- The fields of workflow.Info that are read.
pub record WorkflowInfo : Type 0 where
  pub workflow_run_timeout : ℤ
  pub workflow_execution_timeout : ℤ

abbrev pub effective_timeout : WorkflowInfo → ℤ
effective_timeout info =
    if eqb_ℤ info.workflow_run_timeout (pos 0)
    then info.workflow_execution_timeout
    else info.workflow_run_timeout

-- The branch of the selector that runs: the child's result, the cancellation, or the timer.
pub data Branch : Type 0 where
  child_completed : Option Err → Branch
  workflow_canceled soft_timeout_fired : Branch

-- What a run does: the duration of its timer if it starts one, whether the compensating activity
-- runs, and its error.
pub record Run : Type 0 where
  pub timer : Option ℤ
  pub compensated : Bool
  pub result : Option Err

abbrev pub after_select : ℤ → Option Err → Run
after_select timer none = record { timer = some timer; compensated = false; result = none }
after_select timer (some err) = record { timer = some timer; compensated = true; result = some err }

module _ (show_duration : ℤ → String) where
  abbrev pub timeout_too_small : (padding : ℤ) → Err
  timeout_too_small padding = application_error_only (record {
    message = "workflow timeout is too small";
    type_name = "wf_timeout_too_small";
    non_retryable = true;
    next_retry_delay = pos 0;
    details = min_timeout (show_duration padding) ∷ [];
  })

  -- The duration of the timer, or the error.
  abbrev pub soft_timeout : (timeout padding : ℤ) → Err ⊎ ℤ
  soft_timeout timeout padding =
      if ltb_ℤ padding timeout then inr (timeout -ℤ padding) else inl (timeout_too_small padding)

  unfoldable pub get_soft_timeout : WorkflowInfo → (padding : ℤ) → Err ⊎ ℤ
  get_soft_timeout info padding = soft_timeout (effective_timeout info) padding

module _ (show_duration : ℤ → String) (context_err deadline_exceeded : Err) where
  abbrev pub select_err : Branch → Option Err
  select_err (child_completed err) = err
  select_err workflow_canceled = some context_err
  select_err soft_timeout_fired = some deadline_exceeded

  abbrev pub with_timeout : Err ⊎ ℤ → Branch → Run
  with_timeout (inl err) branch = record { timer = none; compensated = false; result = some err }
  with_timeout (inr timer) branch = after_select timer (select_err branch)

  unfoldable pub run_with_soft_timeout : WorkflowInfo → Branch → Run
  run_with_soft_timeout info branch =
      with_timeout (get_soft_timeout show_duration info minute) branch

-- `MyWorkflowV1`, once the child has ended; the service may terminate the workflow before that.
abbrev after_child : Option Err → Run
after_child none = record { timer = none; compensated = false; result = none }
after_child (some err) = record { timer = none; compensated = true; result = some err }

unfoldable pub my_workflow_v1 : Option (Option Err) → Option Run
my_workflow_v1 none = none
my_workflow_v1 (some err) = some (after_child err)
