-- ===== src/Examples/Versions.antt =====
-- Workflows whose commands may differ between an execution and its replay:
-- src/not_using_workflow_versioning/workflow.go and
-- src/modifying_shared_state_in_workflow_code/workflow.go. The SDK's versions and the execution of
-- activities are parameters.
use temporal_mistakes.Base.{
  Option, none, ◌⊎◌, String, List, [], ◌∷◌, ℤ, pos, negsuc, add64, ltb_ℤ, eqb_ℤ, if◌then◌else◌,
}
use temporal_mistakes.Errors.{Err}
use temporal_mistakes.Examples.Short.{error_of}

-- workflow.DefaultVersion
abbrev pub default_version : ℤ
default_version = negsuc 0

-- Where a call of workflow.GetVersion stands: it is executed, or replayed with the version that its
-- marker in the history holds, if there is one.
pub data VersionRun : Type 0 where
  executing : VersionRun
  replaying : Option ℤ → VersionRun

-- workflow.GetVersion
abbrev pub GetVersion : Type 0
GetVersion = VersionRun → (change_id : String) → (min_supported max_supported : ℤ) → ℤ

module _ {Input Result : Type 0} (get_version : GetVersion)
    (old_activity new_activity : Input → Err ⊎ Result) where
  -- `MyWorkflow` of not_using_workflow_versioning.
  unfoldable pub versioned_workflow : VersionRun → Input → Option Err
  versioned_workflow run input =
      if eqb_ℤ (get_version run "change-id" default_version (pos 1)) default_version
      then error_of (old_activity input)
      else error_of (new_activity input)

pub data Command : Type 0 where
  alert_activity : Command

module _ (alert : Option Err) where
  -- `MyWorkflowV1` of modifying_shared_state_in_workflow_code: the counter of the process after it, its
  -- commands, and its error.
  unfoldable pub counting_workflow : (processed_count : ℤ) → ℤ × (List Command × Option Err)
  counting_workflow processed_count =
      let count = add64 processed_count (pos 1) in
      if ltb_ℤ (pos 100) count then (count, (alert_activity ∷ [], alert)) else (count, ([], none))

  -- `MyWorkflowV2`, whose counter is its own.
  unfoldable pub local_counting_workflow : (processed_count : ℤ) → ℤ × (List Command × Option Err)
  local_counting_workflow processed_count = (processed_count, ([], none))
