-- ===== src/Helpers/ServerTests.antt =====
-- The theorems about the servers and replays of internal/testhelpers at concrete tests.
use text.Mathlib.Text.{◌==◌ as str_eq}
use temporal_mistakes.Base.{if◌then◌else◌, ◌≡◌, ◌↔◌, none, some, inr, ℕ, List, [], ◌∷◌, All, map}
use temporal_mistakes.Errors.{Err, node, nil, other}
use temporal_mistakes.Helpers.{HelperOption}
use temporal_mistakes.Helpers.Laws.{Setting, severity, option_of}
use temporal_mistakes.Policy.Config.{timeouts_permit_retries, warn}
use temporal_mistakes.Helpers.DevServer.{Sdk, finish, start_all}
use temporal_mistakes.Helpers.DevServerLaws.{Runs, start_all-Runs}
use temporal_mistakes.Helpers.Replay.{
  ReplayerOptions, Replays, assert_workflow_replay_from_json_files,
}
use temporal_mistakes.Helpers.ReplayLaws.{
  HasPolicies, IsReplayable, Passed, assert_workflow_replay_iff,
}

abbrev unreachable : Err
unreachable = node (other "unreachable") nil

abbrev working : Sdk ℕ ℕ
working = record {
  start_dev_server = λ args. inr 1;
  client_of = λ s. s;
  start_worker = λ c q is. none;
  temp_dir = "a";
}

-- The server starts, and the worker does not.
abbrev failing : Sdk ℕ ℕ
failing = record working { start_worker = λ c q is. some unreachable; temp_dir = "b" }

abbrev calls : List (Sdk ℕ ℕ × List HelperOption)
calls = (working, []) ∷ (failing, []) ∷ (working, []) ∷ []

start_all-Runs_example :
    Runs [] (finish (start_all "t" calls (record { events = []; cleanups = [] }))) []
start_all-Runs_example = start_all-Runs "t" calls

-- Only the file `a` can be replayed.
abbrev replays : Replays ℕ ℕ
replays = record {
  new_replayer = λ o. inr 0;
  register_workflow = λ r w. w;
  replay = λ r logger path. if str_eq path "a" then none else some unreachable;
}

-- timeouts_permit_retries is at Warn.
abbrev settings : List Setting
settings = severity timeouts_permit_retries warn ∷ []

assert_workflow_replay_iff_example :
    let results =
      assert_workflow_replay_from_json_files replays 3 ("a" ∷ "b" ∷ []) (map option_of settings) in
    (o : ReplayerOptions) × HasPolicies settings o
    × (map (λ r. r.0) results ≡ "a" ∷ "b" ∷ [])
    × (All (Passed replays 3 settings) results
        ↔ All (IsReplayable replays 3 settings o) ("a" ∷ "b" ∷ []))
assert_workflow_replay_iff_example = assert_workflow_replay_iff replays 3 settings ("a" ∷ "b" ∷ [])
