-- ===== src/Helpers/Replay.antt =====
-- internal/testhelpers/replay.go: the replay of recorded histories. The SDK's replayer is a
-- parameter, with the files that it reads.
use temporal_mistakes.Base.{
  Option, none, some, ◌⊎◌, inl, inr, Bool, true, String, List, [], ◌∷◌, map,
}
use temporal_mistakes.Errors.{Err}
use temporal_mistakes.Policy.Evaluate.{Value}
use temporal_mistakes.Policy.Handle.{WorkflowLine}
use temporal_mistakes.Policy.Wiring.{ActivityPolicyInterceptor, new}
use temporal_mistakes.Helpers.{HelperOption, new_helper_config, activity_policy_options, t_logger}

-- worker.WorkflowReplayerOptions, without the data converter.
pub record ReplayerOptions : Type 0 where
  pub enable_logging_in_replay : Bool
  pub interceptors : List ActivityPolicyInterceptor

-- worker.NewWorkflowReplayerWithOptions, RegisterWorkflow and the replay of a file.
pub record Replays (Replayer Workflow : Type 0) : Type 0 where
  pub new_replayer : ReplayerOptions → Err ⊎ Replayer
  pub register_workflow : Replayer → Workflow → Replayer
  pub replay : Replayer → (logger : WorkflowLine → List Value) → String → Option Err

-- What a helper does to its test: t.Fatal ends it, or the helper returns.
pub data Call (A : Type 0) : Type 0 where
  fatal : Err → Call A
  returns : A → Call A

-- How a subtest ends.
pub data Verdict : Type 0 where
  passes : Verdict
  fails : Err → Verdict

module _ {Replayer Workflow : Type 0} (sdk : Replays Replayer Workflow) where
  unfoldable pub replayer_options : List HelperOption → ReplayerOptions
  replayer_options opts =
      let cfg = new_helper_config opts in
      record {
        enable_logging_in_replay = true;
        interceptors = new (activity_policy_options cfg) ∷ [];
      }

  abbrev pub with_replayer : Workflow → Err ⊎ Replayer → Call Replayer
  with_replayer workflow (inl err) = fatal err
  with_replayer workflow (inr replayer) = returns (sdk.register_workflow replayer workflow)

  unfoldable pub new_workflow_history_replayer : Workflow → List HelperOption → Call Replayer
  new_workflow_history_replayer workflow opts =
      with_replayer workflow (sdk.new_replayer (replayer_options opts))

  abbrev pub replay_with : String → Call Replayer → Call (Option Err)
  replay_with path (fatal err) = fatal err
  replay_with path (returns replayer) = returns (sdk.replay replayer t_logger path)

  unfoldable pub replay_workflow_history_from_json_file :
      Workflow → String → List HelperOption → Call (Option Err)
  replay_workflow_history_from_json_file workflow path opts =
      replay_with path (new_workflow_history_replayer workflow opts)

  abbrev pub verdict_of : Call (Option Err) → Verdict
  verdict_of (fatal err) = fails err
  verdict_of (returns (some err)) = fails err
  verdict_of (returns none) = passes

  -- The subtests, by their names.
  unfoldable pub assert_workflow_replay_from_json_files :
      Workflow → List String → List HelperOption → List (String × Verdict)
  assert_workflow_replay_from_json_files workflow files opts =
      map (λ file. (file, verdict_of (replay_workflow_history_from_json_file workflow file opts)))
        files
