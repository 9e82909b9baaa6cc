-- ===== src/Helpers.antt =====
-- internal/testhelpers/options.go and internal/testhelpers/testenv.go: the options of the helpers, and
-- the interceptors and the logger of a test environment.
use text.Mathlib.Text.{◌==◌ as str_eq}
use temporal_mistakes.Base.{Option, none, some, String, List, [], ◌∷◌, ◌++◌, false, if◌then◌else◌}
use temporal_mistakes.Policy.Config.{Severity, Options}
use temporal_mistakes.Policy.Evaluate.{Value, str}
use temporal_mistakes.Policy.Handle.{
  Method, debug_line, info_line, warn_line, error_line, WorkflowLine,
}
use temporal_mistakes.Policy.Wiring.{ActivityPolicyInterceptor, new}
pub mod Laws
pub mod Strict
pub mod DevServer
pub mod DevServerLaws
pub mod Replay
pub mod ReplayLaws
pub mod ServerTests
pub mod Tests

-- An entry of a map is set in its place, or added.
unfoldable pub assign : String → Severity → List (String × Severity) → List (String × Severity)
assign k s [] = (k, s) ∷ []
assign k s ((j, t) ∷ m) =
    let rest = assign k s m in if str_eq j k then (j, s) ∷ m else (j, t) ∷ rest

-- A nil map is `none`.
pub record HelperConfig : Type 0 where
  pub policy_severities : Option (List (String × Severity))
  pub dev_server_extra_args : List String

abbrev pub zero_config : HelperConfig
zero_config = record { policy_severities = none; dev_server_extra_args = [] }

abbrev pub HelperOption : Type 0
HelperOption = HelperConfig → HelperConfig

-- The loop of `newHelperConfig`.
abbrev pub apply_options : List HelperOption → HelperConfig → HelperConfig
apply_options [] c = c
apply_options (opt ∷ opts) c = apply_options opts (opt c)

unfoldable pub new_helper_config : List HelperOption → HelperConfig
new_helper_config opts = apply_options opts zero_config

-- A nil map reads as an empty one.
abbrev pub entries : Option (List (String × Severity)) → List (String × Severity)
entries none = []
entries (some m) = m

unfoldable pub with_activity_policy_severity : String → Severity → HelperOption
unfolding assign
with_activity_policy_severity policy severity c = record c {
  policy_severities = some (assign policy severity (entries c.policy_severities));
}

unfoldable pub with_dev_server_extra_args : List String → HelperOption
with_dev_server_extra_args args c = record c { dev_server_extra_args = args }

unfoldable pub activity_policy_options : HelperConfig → Options
activity_policy_options c = record {
  severities = entries c.policy_severities;
  auto_heartbeat = none;
  required_retries = none;
  has_logger = false;
}

-- activitypolicy.Options{}
abbrev pub zero_policy_options : Options
zero_policy_options = record {
  severities = [];
  auto_heartbeat = none;
  required_retries = none;
  has_logger = false;
}

-- The worker options that `NewTestWorkflowEnvironment` sets.
unfoldable pub test_interceptors : List ActivityPolicyInterceptor
test_interceptors = new zero_policy_options ∷ []

-- The values that a method of `tLogger` passes to t.Log.
abbrev level_text : Method → String
level_text debug_line = "DEBUG"
level_text info_line = "INFO"
level_text warn_line = "WARN"
level_text error_line = "ERROR"

unfoldable pub t_logger : WorkflowLine → List Value
t_logger line = str (level_text line.method) ∷ str line.message ∷ line.keyvals
