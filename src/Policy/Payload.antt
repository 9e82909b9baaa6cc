-- ===== src/Policy/Payload.antt =====
-- The error and the log entries of a call, against requirements 4, 5, 21 and 27 to 30 of
-- specs/activitypolicyinterceptor/README.md.
use mathlib.Core.List.{Sublistᴰ}
use mathlib.Core.List.Memᴰ
use temporal_mistakes.Base.{
  ◌≡◌, refl, sym, subst, ◌∙◌, ◌↔◌, ◌≢◌, inl, inr, Option, none, some, Bool, true, false, not,
  String, List, [], ◌∷◌, ◌++◌, map, pos, Memᴰ, keep, Bool-cases, arith, if◌then◌else◌,
}
use temporal_mistakes.Base.Text.{concat, join}
use temporal_mistakes.Errors.{Err, violation, ViolationDetails, application_error_only}
use temporal_mistakes.Runtime.{Runtime, IsLawful}
use temporal_mistakes.Sdk.{WorkflowExecution}
use temporal_mistakes.Policy.Config.{Options, Severity, ignore, severity_for, canonical_order}
use temporal_mistakes.Policy.Evaluate.{Violation, Value}
use temporal_mistakes.Policy.Handle.{
  Entry, is_ignore, build_policy_violation_error, handle_violations,
}
use temporal_mistakes.Policy.Report.{name_when, evaluate_policies-names}
use temporal_mistakes.Policy.Rules.{Call, evaluate, policies_of, Violates}
use temporal_mistakes.Policy.Agreement.{InRange, evaluate_policies_iff}
use temporal_mistakes.Policy.Selection.{is_reported, kept, map-keep, handle_violations-error}

some_of_if : {A : Type 0} (b : Bool) (x e : A) → (if b then some x else none) ≡ some e → x ≡ e
some_of_if true x e h = cc
some_of_if false x e h = cc

Sublistᴰ-name_when :
    (b : Bool) (p : String) {xs ys : List String}
    → Sublistᴰ xs ys
    → Sublistᴰ (name_when b p ++ xs) (p ∷ ys)
Sublistᴰ-name_when true p s = Sublistᴰ.cons-cons refl s
Sublistᴰ-name_when false p s = Sublistᴰ.cons s

Sublistᴰ-keep : (f : String → Bool) {xs ys : List String} → Sublistᴰ xs ys → Sublistᴰ (keep f xs) ys
Sublistᴰ-keep f Sublistᴰ.slnil = Sublistᴰ.slnil
Sublistᴰ-keep f (Sublistᴰ.cons s) = Sublistᴰ.cons (Sublistᴰ-keep f s)
Sublistᴰ-keep f (Sublistᴰ.cons-cons {a = x} e s) = elim (Bool-cases (f x)) [
  | inl h ↦ rw h (Sublistᴰ.cons-cons e (Sublistᴰ-keep f s))
  | inr h ↦ rw h (Sublistᴰ.cons (Sublistᴰ-keep f s))
]

Sublistᴰ-name_when_last : (b : Bool) (p : String) → Sublistᴰ (name_when b p) (p ∷ [])
Sublistᴰ-name_when_last true p = Sublistᴰ.cons-cons refl Sublistᴰ.slnil
Sublistᴰ-name_when_last false p = Sublistᴰ.cons Sublistᴰ.slnil

-- The reported policies stand in the canonical order, each at most once.
policies_of-order : (rt : Runtime) (c : Call rt) → Sublistᴰ (policies_of rt c) canonical_order
policies_of-order rt c =
    rw
      (evaluate_policies-names rt c.schedule_to_close c.start_to_close c.heartbeat c.retry_policy
        c.is_local c.required_retries)
      (Sublistᴰ-name_when _ _
        (Sublistᴰ-name_when _ _ (Sublistᴰ-name_when _ _ (Sublistᴰ-name_when_last _ _))))

mem-keep_sound :
    (f : String → Bool) (q : String) (qs : List String)
    → Memᴰ q (keep f qs)
    → Memᴰ q qs × (f q ≡ true)
mem-keep_sound f q [] m = elim m [ ]
mem-keep_sound f q (x ∷ xs) m = elim (Bool-cases (f x)) [
  | inr h ↦ let (n, t) = mem-keep_sound f q xs (rw h at m) in (Memᴰ.tail n, t)
  | inl h ↦ elim (Memᴰ.cases_cons (rw h at m)) [
    | inl e ↦ (Memᴰ.head e, rw e h)
    | inr k ↦ let (n, t) = mem-keep_sound f q xs k in (Memᴰ.tail n, t)
  ]
]

mem-keep_complete :
    (f : String → Bool) (q : String) (qs : List String)
    → Memᴰ q qs
    → f q ≡ true
    → Memᴰ q (keep f qs)
mem-keep_complete f q [] m h = elim m [ ]
mem-keep_complete f q (x ∷ xs) (Memᴰ.head e) h =
    let k : f x ≡ true = subst (λ y. f y ≡ true) e h in rw k (Memᴰ.head e)
mem-keep_complete f q (x ∷ xs) (Memᴰ.tail m) h =
    let n = mem-keep_complete f q xs m h in
    elim (Bool-cases (f x)) [ inl k ↦ rw k (Memᴰ.tail n) | inr k ↦ rw k n ]

is_reported_iff : (s : Severity) → (not (is_ignore s) ≡ true) ↔ (s ≢ ignore)
unfolding is_ignore
is_reported_iff s = ground arith

module _ (rt : Runtime) (visit : List (String × Value) → List (String × Value)) (o : Options)
    (activity_type : String) (execution : WorkflowExecution) where
  abbrev pub handled : List Violation → List Entry × Option Err
  handled = handle_violations visit o activity_type execution

  -- The shape of the error, and the policies that it names.
  pub record IsViolationReport (c : Call rt) (e : Err) : Type 0 where
    pub details : ViolationDetails
    pub shape :
        e
        ≡ application_error_only (record {
          message = concat (
              "activity policy violation: "
              ∷ join "," details.policies
              ∷ ": "
              ∷ details.explanation
              ∷ []);
          type_name = "PolicyViolationError";
          non_retryable = true;
          next_retry_delay = pos 0;
          details = violation details ∷ [];
        })
    pub activity : details.activity_type ≡ activity_type
    pub workflow : details.workflow_id ≡ execution.id
    pub run : details.run_id ≡ execution.run_id
    pub members :
        (q : String) → Memᴰ q details.policies ↔ (Violates rt c q × (severity_for o q ≢ ignore))
    pub order : Sublistᴰ details.policies canonical_order

  reported_iff :
      IsLawful rt
      → (c : Call rt) → InRange rt c
      → (q : String)
      → Memᴰ q (keep (is_reported o) (policies_of rt c))
        ↔ (Violates rt c q × (severity_for o q ≢ ignore))
  reported_iff laws c r q = (
    λ m.
        let (n, h) = mem-keep_sound (is_reported o) q (policies_of rt c) m in
        ((evaluate_policies_iff rt c laws r q).0 n, (is_reported_iff (severity_for o q)).0 h),
    λ v.
        mem-keep_complete (is_reported o) q (policies_of rt c)
          ((evaluate_policies_iff rt c laws r q).1 v.0)
          ((is_reported_iff (severity_for o q)).1 v.1),
  )

  abbrev pub built : Call rt → Err
  built c =
      build_policy_violation_error visit o activity_type execution
        (kept visit o activity_type execution (evaluate rt c))

  built_report : IsLawful rt → (c : Call rt) → InRange rt c → IsViolationReport c (built c)
  unfolding build_policy_violation_error
  built_report laws c r = record {
    details = record {
      policies = map (λ v. v.policy) (kept visit o activity_type execution (evaluate rt c));
      activity_type = activity_type;
      workflow_id = execution.id;
      run_id = execution.run_id;
      explanation =
          join "; "
            (map (λ v. v.explanation) (kept visit o activity_type execution (evaluate rt c)));
    };
    shape = refl;
    activity = refl;
    workflow = refl;
    run = refl;
    members = λ q. rw (map-keep o (evaluate rt c)) (reported_iff laws c r q);
    order =
        rw (map-keep o (evaluate rt c)) (Sublistᴰ-keep (is_reported o) (policies_of-order rt c));
  }

  -- An error of `handleViolations` for a call whose retry arithmetic stays in range is one
  -- non-retryable PolicyViolationError without a cause. It names, in the canonical order, exactly the policies that the call violates and whose
  -- severity is not Ignore.
  pub handle_violations_report :
      IsLawful rt
      → (c : Call rt) (e : Err) → InRange rt c
      → (handled (evaluate rt c)).1 ≡ some e
      → IsViolationReport c e
  handle_violations_report laws c e r h =
      subst (IsViolationReport c)
        (some_of_if _ _ e
          (sym (handle_violations-error visit o activity_type execution (evaluate rt c)) ∙ h))
        (built_report laws c r)
