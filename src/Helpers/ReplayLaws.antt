-- ===== src/Helpers/ReplayLaws.antt =====
-- What `AssertWorkflowReplayFromJSONFiles` of internal/testhelpers/replay.go asserts.
use temporal_mistakes.Base.{
  true, subst, sym, ◌++◌, ◌≡◌, refl, ap, ◌∙◌, ◌↔◌, Option, none, some, ◌⊎◌, inl, inr, String, List,
  [], ◌∷◌, map, All, arith,
}
use temporal_mistakes.Errors.{Err}
use temporal_mistakes.Policy.Config.{Severity, ignore, Options, severity_for}
use temporal_mistakes.Policy.Wiring.{new}
use temporal_mistakes.Helpers.{HelperOption, zero_policy_options, t_logger}
use temporal_mistakes.Helpers.Laws.{
  Setting, severity, option_of, Leaves, configured, configured-severity_for,
}
use temporal_mistakes.Helpers.Replay.{
  ReplayerOptions, Replays, returns, Verdict, passes, replayer_options, with_replayer,
  new_workflow_history_replayer, replay_with, replay_workflow_history_from_json_file, verdict_of,
  assert_workflow_replay_from_json_files,
}

-- What a replayer is made with: the logs of replays, and one interceptor, with the severity of the last
-- setting on each policy, or the default of a policy without one.
pub record HasPolicies (settings : List Setting) (o : ReplayerOptions) : Type 0 where
  pub policies : Options
  pub logs : o.enable_logging_in_replay ≡ true
  pub installed : o.interceptors ≡ new policies ∷ []
  pub set :
      (p : String) (s : Severity) (before after : List Setting)
      → settings ≡ before ++ severity p s ∷ after
      → All (Leaves p) after
      → severity_for policies p ≡ s
  pub unset :
      (p : String)
      → All (Leaves p) settings
      → severity_for policies p ≡ severity_for zero_policy_options p

module _ {Replayer Workflow : Type 0} (sdk : Replays Replayer Workflow) (workflow : Workflow)
    (settings : List Setting) where
  abbrev opts : List HelperOption
  opts = map option_of settings

  replayer_options-HasPolicies : HasPolicies settings (replayer_options sdk opts)
  unfolding replayer_options
  replayer_options-HasPolicies = record {
    policies = configured settings;
    logs = refl;
    installed = refl;
    set = λ p s before after e h.
        subst (λ l. severity_for (configured l) p ≡ s) (sym e)
          (configured-severity_for p s before after h).0;
    unset = λ p h. (configured-severity_for p ignore [] settings h).1;
  }

  -- A replayer with the options `o` can be made, and replays the file without an error.
  abbrev pub IsReplayable : ReplayerOptions → String → Type 0
  IsReplayable o file =
      (replayer : Replayer) × (sdk.new_replayer o ≡ inr replayer)
      × (sdk.replay (sdk.register_workflow replayer workflow) t_logger file ≡ none)

  abbrev pub Passed : String × Verdict → Type 0
  Passed (file, verdict) = verdict ≡ passes

  returned_passes : (o : Option Err) → (verdict_of sdk (returns o) ≡ passes) ↔ (o ≡ none)
  returned_passes none = (λ e. refl, λ e. refl)
  returned_passes (some err) = (λ e. absurd (ground arith), λ e. absurd (ground arith))

  verdict_of_iff :
      (file : String) (r : Err ⊎ Replayer)
      → (verdict_of sdk (replay_with sdk file (with_replayer sdk workflow r)) ≡ passes) ↔ (
          (replayer : Replayer) × (r ≡ inr replayer)
          × (sdk.replay (sdk.register_workflow replayer workflow) t_logger file ≡ none))
  verdict_of_iff file r = (
    forth r,
    λ (replayer, e, k).
        ap (λ x. verdict_of sdk (replay_with sdk file (with_replayer sdk workflow x))) e
        ∙ (returned_passes (sdk.replay (sdk.register_workflow replayer workflow) t_logger file)).1
            k,
  )
    where
      forth :
          (r : Err ⊎ Replayer)
          → verdict_of sdk (replay_with sdk file (with_replayer sdk workflow r)) ≡ passes
          → (replayer : Replayer) × (r ≡ inr replayer)
            × (sdk.replay (sdk.register_workflow replayer workflow) t_logger file ≡ none)
      forth (inl err) e = absurd (ground arith)
      forth (inr replayer) e = (
        replayer,
        refl,
        (returned_passes (sdk.replay (sdk.register_workflow replayer workflow) t_logger file)).0 e,
      )

  each_file :
      (files : List String)
      → let o = replayer_options sdk opts in
        (map (λ r. r.0) (assert_workflow_replay_from_json_files sdk workflow files opts) ≡ files)
        × (All Passed (assert_workflow_replay_from_json_files sdk workflow files opts)
            ↔ All (IsReplayable o) files)
  unfolding assert_workflow_replay_from_json_files replay_workflow_history_from_json_file
      new_workflow_history_replayer
  each_file [] = (refl, (λ _. tt, λ _. tt))
  each_file (file ∷ files) =
      let (names, verdicts) = each_file files in
      let here = verdict_of_iff file (sdk.new_replayer (replayer_options sdk opts)) in
      (
        ap (λ fs. file ∷ fs) names,
        (λ (p, ps). (here.0 p, verdicts.0 ps), λ (p, ps). (here.1 p, verdicts.1 ps)),
      )

  -- Each file has one subtest of its name, in order, and all of them pass exactly if every file
  -- replays without an error in a replayer that logs and has the activity policy interceptor alone,
  -- with the severity of the last option on each policy, and the default of a policy without one: the
  -- failure of one subtest keeps no other from running.
  pub assert_workflow_replay_iff :
      (files : List String)
      → (o : ReplayerOptions) × HasPolicies settings o
        × (map (λ r. r.0) (assert_workflow_replay_from_json_files sdk workflow files opts) ≡ files)
        × (All Passed (assert_workflow_replay_from_json_files sdk workflow files opts)
            ↔ All (IsReplayable o) files)
  assert_workflow_replay_iff files =
      let (names, verdicts) = each_file files in
      (replayer_options sdk opts, replayer_options-HasPolicies, names, verdicts)
