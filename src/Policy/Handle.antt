-- ===== src/Policy/Handle.antt =====
-- examples/go/activitypolicyinterceptor/interceptor.go: `handleViolations`, its log entries and
-- `buildPolicyViolationError`, and the adapter `workflowLogHandler`.
use temporal_mistakes.Base.{
  Option, none, some, Bool, true, false, ◌||◌, String, List, [], ◌∷◌, ◌++◌, map, ℤ, pos, leb_ℤ,
  if◌then◌else◌,
}
use temporal_mistakes.Base.Text.{concat, join}
use temporal_mistakes.Errors.{Err, violation, application_error_only}
use temporal_mistakes.Sdk.{WorkflowExecution}
use temporal_mistakes.Policy.Config.{
  Severity, ignore, error, Options, severity_for, violation_error_type,
}
use temporal_mistakes.Policy.Evaluate.{Violation, Value, str}

-- slog.LevelInfo, slog.LevelWarn and slog.LevelError, and a record.
abbrev pub level_info : ℤ
level_info = pos 0

abbrev pub level_warn : ℤ
level_warn = pos 4

abbrev pub level_error : ℤ
level_error = pos 8

pub record Record : Type 0 where
  pub level : ℤ
  pub message : String
  pub attrs : List (String × Value)

-- The methods of the workflow logger.
pub data Method : Type 0 where
  debug_line info_line warn_line error_line : Method

-- A line of the workflow logger: the method that is called, the message, and `keyvals`.
pub record WorkflowLine : Type 0 where
  pub method : Method
  pub message : String
  pub keyvals : List Value

-- An entry at one of the two destinations.
pub data Entry : Type 0 where
  to_logger : Record → Entry
  to_workflow : WorkflowLine → Entry

-- The `attrs` and `group` fields of `workflowLogHandler`.
pub record WorkflowLogHandler : Type 0 where
  pub attrs : List (String × Value)
  pub group : String

abbrev pub flatten_attrs : List (String × Value) → List Value
flatten_attrs [] = []
flatten_attrs ((k, v) ∷ rest) = str k ∷ v ∷ flatten_attrs rest

method_for : ℤ → Method
method_for level =
    if leb_ℤ level_error level
    then error_line
    else if leb_ℤ level_warn level
    then warn_line
    else if leb_ℤ level_info level
    then info_line
    else debug_line

unfoldable pub handle : WorkflowLogHandler → Record → WorkflowLine
unfolding method_for
handle h r = record {
  method = method_for r.level;
  message = r.message;
  keyvals = flatten_attrs h.attrs ++ flatten_attrs r.attrs;
}

pub with_attrs : WorkflowLogHandler → List (String × Value) → WorkflowLogHandler
with_attrs h more = record h { attrs = h.attrs ++ more }

pub with_group : WorkflowLogHandler → String → WorkflowLogHandler
with_group h name = record h { group = name }

unfoldable pub is_ignore : Severity → Bool
is_ignore ignore = true
is_ignore _ = false

unfoldable pub is_error : Severity → Bool
is_error error = true
is_error _ = false

-- The first loop: the violations that are not ignored, and whether one of them is an error.
unfoldable pub select_violations : Options → List Violation → List Violation × Bool
select_violations o [] = ([], false)
select_violations o (v ∷ vs) =
    let (rest, has_error) = select_violations o vs in
    let sev = severity_for o v.policy in
    if is_ignore sev then (rest, has_error) else (v ∷ rest, is_error sev || has_error)

module _
    -- The order in which `range` visits the entries of `extra`, which Go leaves open.
    (visit : List (String × Value) → List (String × Value)) (o : Options) (activity_type : String)
    (execution : WorkflowExecution) where
  unfoldable pub log_record : Violation → Record
  log_record v = record {
    level = level_warn;
    message = concat ("activity policy violation: " ∷ v.policy ∷ []);
    attrs =
        ("policy", str v.policy)
        ∷ ("activity_type", str activity_type)
        ∷ ("workflow_id", str execution.id)
        ∷ ("run_id", str execution.run_id)
        ∷ ("mode", str (if is_error (severity_for o v.policy) then "fail" else "warn"))
        ∷ visit v.extra;
  }

  unfoldable pub emit : Record → Entry
  unfolding handle
  emit r =
      if o.has_logger
      then to_logger r
      else to_workflow (handle (record { attrs = []; group = "" }) r)

  unfoldable pub build_policy_violation_error : List Violation → Err
  build_policy_violation_error vs =
      let policies = map (λ v. v.policy) vs in
      let explanation = join "; " (map (λ v. v.explanation) vs) in
      application_error_only (record {
        message =
            concat ("activity policy violation: " ∷ join "," policies ∷ ": " ∷ explanation ∷ []);
        type_name = violation_error_type;
        non_retryable = true;
        next_retry_delay = pos 0;
        details =
            violation (record {
              policies = policies;
              activity_type = activity_type;
              workflow_id = execution.id;
              run_id = execution.run_id;
              explanation = explanation;
            })
            ∷ [];
      })

  -- The log entries, and the error or nil.
  unfoldable pub handle_violations : List Violation → List Entry × Option Err
  unfolding select_violations
  handle_violations vs =
      let (non_ignored, has_error) = select_violations o vs in
      (
        map (λ v. emit (log_record v)) non_ignored,
        if has_error then some (build_policy_violation_error non_ignored) else none,
      )
