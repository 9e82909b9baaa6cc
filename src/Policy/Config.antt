-- ===== src/Policy/Config.antt =====
-- examples/go/activitypolicyinterceptor/interceptor.go: the policy identifiers, `Severity`, and
-- `Options` with its defaults.
use text.Mathlib.Text.{◌==◌ as str_eq}
use temporal_mistakes.Base.{
  Option, none, some, Bool, true, String, List, [], ◌∷◌, ℤ, pos, if◌then◌else◌,
}
use temporal_mistakes.Base.Text.{concat}
use temporal_mistakes.Runtime.{Runtime}
use temporal_mistakes.Sdk.{second}

abbrev pub schedule_to_close_required : String
schedule_to_close_required = "schedule_to_close_required"

abbrev pub max_attempts_too_low : String
max_attempts_too_low = "max_attempts_too_low"

abbrev pub local_activity_start_to_close_too_long : String
local_activity_start_to_close_too_long = "local_activity_start_to_close_too_long"

abbrev pub timeouts_permit_retries : String
timeouts_permit_retries = "timeouts_permit_retries"

abbrev pub violation_error_type : String
violation_error_type = "PolicyViolationError"

abbrev pub canonical_order : List String
canonical_order =
    schedule_to_close_required ∷ max_attempts_too_low ∷ local_activity_start_to_close_too_long
    ∷ timeouts_permit_retries ∷ []

abbrev pub default_heartbeat_timeout : ℤ
default_heartbeat_timeout = pos 30_000_000_000

abbrev pub local_activity_max_start_to_close : ℤ
local_activity_max_start_to_close = pos 10_000_000_000

abbrev pub default_required_retries : ℤ
default_required_retries = pos 2

abbrev pub default_retry_initial_interval : ℤ
default_retry_initial_interval = second

abbrev pub default_retry_backoff_coefficient : ℤ
default_retry_backoff_coefficient = pos 2

abbrev pub default_max_interval_multiplier : ℤ
default_max_interval_multiplier = pos 100

-- `type Severity int`: the three named values, and any other `int`.
pub data Severity : Type 0 where
  ignore warn error : Severity
  unnamed : ℤ → Severity

pub severity_string : Runtime → Severity → String
severity_string rt ignore = "Ignore"
severity_string rt warn = "Warn"
severity_string rt error = "Error"
severity_string rt (unnamed n) = concat ("Severity(" ∷ rt.show_int n ∷ ")" ∷ [])

-- A read of a Go map from texts; `none` is `ok == false`.
unfoldable pub lookup {ℓ} : {V : Type ℓ} → String → List (String × V) → Option V
lookup k [] = none
lookup k ((j, v) ∷ m) = if str_eq j k then some v else lookup k m

abbrev pub default_severities : List (String × Severity)
default_severities =
    (schedule_to_close_required, error)
    ∷ (max_attempts_too_low, error)
    ∷ (local_activity_start_to_close_too_long, error)
    ∷ (timeouts_permit_retries, error)
    ∷ []

-- The `Logger` field: whether the caller set one.
pub record Options : Type 0 where
  pub severities : List (String × Severity)
  pub auto_heartbeat : Option Bool
  pub required_retries : Option ℤ
  pub has_logger : Bool

-- The zero value of a missing entry is `SeverityIgnore`.
abbrev severity_or_zero : Option Severity → Severity
severity_or_zero (some s) = s
severity_or_zero none = ignore

unfoldable pub severity_for : Options → String → Severity
unfolding lookup
severity_for o policy = elim (lookup policy o.severities) [
  | some s ↦ s
  | none ↦ severity_or_zero (lookup policy default_severities)
]

unfoldable pub auto_heartbeat : Options → Bool
auto_heartbeat o = elim (o.auto_heartbeat) [ some b ↦ b | none ↦ true ]

unfoldable pub required_retries : Options → ℤ
required_retries o = elim (o.required_retries) [ some n ↦ n | none ↦ default_required_retries ]
