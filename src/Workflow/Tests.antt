-- ===== src/Workflow/Tests.antt =====
-- The theorems about internal/workflowhelpers at concrete calls.
use temporal_mistakes.Base.{◌≡◌, Option, none, some, true, false, String}
use temporal_mistakes.Workflow.SideEffects.{executing, replaying}
use temporal_mistakes.Workflow.Values.{LookupEnvResult, lookup_env}
use temporal_mistakes.Workflow.Replay.{lookup_env_recorded}
use temporal_mistakes.Workflow.History.{history, history-IsLawful, plain, plain-IsFaithful}

abbrev us_east : String → Option String
us_east key = some "us-east-1"

abbrev unset : String → Option String
unset key = none

abbrev found_east : LookupEnvResult
found_east = record { value = "us-east-1"; found = true }

abbrev nothing_found : LookupEnvResult
nothing_found = record { value = ""; found = false }

-- The variable is set when the call is executed, and no longer when it is replayed.
lookup_env_recorded_example :
    (lookup_env history plain (executing (some nothing_found)) us_east "AWS_REGION"
      ≡ (none, ("us-east-1", true)))
    × (lookup_env history plain (replaying found_east) unset "AWS_REGION"
        ≡ (none, ("us-east-1", true)))
lookup_env_recorded_example =
    lookup_env_recorded history history-IsLawful plain plain-IsFaithful (some nothing_found) us_east
      unset "AWS_REGION"
