-- ===== src/Policy/Logged.antt =====
-- The log entries of `handleViolations` in examples/go/activitypolicyinterceptor/interceptor.go,
-- against requirements 4 and 5 of specs/activitypolicyinterceptor/README.md.
use text.Mathlib.Text.{◌==◌ as str_eq}
use temporal_mistakes.Base.{
  ◌≡◌, refl, ap, ◌∙◌, inl, inr, Option, none, some, String, List, [], ◌∷◌, map, keep, Bool-cases,
  if◌then◌else◌,
}
use temporal_mistakes.Sdk.{WorkflowExecution}
use temporal_mistakes.Policy.Config.{Options, lookup}
use temporal_mistakes.Policy.Evaluate.{Violation, Value, str}
use temporal_mistakes.Policy.Handle.{
  Entry, to_logger, to_workflow, emit, log_record, handle_violations,
}
use temporal_mistakes.Policy.Selection.{
  is_reported, is_enforced, kept, map-keep, handle_violations-logs,
}

-- Reading a field of an entry: an attribute by its key, or the value after a key in `keyvals`.
find_key : String → List Value → Option Value
find_key k (str j ∷ v ∷ rest) = if str_eq j k then some v else find_key k rest
find_key k _ = none

pub field_of : String → Entry → Option Value
field_of k (to_logger r) = lookup k r.attrs
field_of k (to_workflow l) = find_key k l.keyvals

module _ (visit : List (String × Value) → List (String × Value)) (o : Options)
    (activity_type : String) (execution : WorkflowExecution) where
  abbrev pub view : Entry → Option Value × Option Value
  view x = (field_of "policy" x, field_of "mode" x)

  abbrev pub mode_of : String → Option Value × Option Value
  mode_of q = (some (str q), some (str (if is_enforced o q then "fail" else "warn")))

  entry_of : Violation → Entry
  entry_of v = emit visit o activity_type execution (log_record visit o activity_type execution v)

  view-entry_of : (v : Violation) → view (entry_of v) ≡ mode_of v.policy
  unfolding entry_of emit log_record field_of find_key lookup
  view-entry_of v = elim (Bool-cases o.has_logger) [ inl e ↦ rw e | inr e ↦ rw e ]

  logged_list :
      (vs : List Violation) → map view (map entry_of vs) ≡ map mode_of (map (λ v. v.policy) vs)
  logged_list [] = refl
  logged_list (v ∷ vs) = rw (view-entry_of v, logged_list vs)

  -- Each reported violation has one log entry, in the same order, with the policy and the mode
  -- "fail" or "warn" for its severity.
  handle_violations_logged :
      (vs : List Violation)
      → map view (handle_violations visit o activity_type execution vs).0
        ≡ map mode_of (keep (is_reported o) (map (λ v. v.policy) vs))
  unfolding entry_of
  handle_violations_logged vs =
      rw (handle_violations-logs visit o activity_type execution vs)
        (logged_list (kept visit o activity_type execution vs) ∙ ap (map mode_of) (map-keep o vs))
