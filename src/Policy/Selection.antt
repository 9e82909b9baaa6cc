-- ===== src/Policy/Selection.antt =====
-- What `handleViolations` keeps, logs and refuses, for any list of violations.
use temporal_mistakes.Base.{
  ◌≡◌, refl, subst, ◌↔◌, inl, inr, none, some, Bool, true, not, ◌||◌, String, List, [], ◌∷◌, map,
  Memᴰ, keep, any_of, Bool-cases, arith, ap, if◌then◌else◌,
}
use temporal_mistakes.Sdk.{WorkflowExecution}
use temporal_mistakes.Policy.Config.{Severity, error, Options, severity_for}
use temporal_mistakes.Policy.Evaluate.{Violation, Value}
use temporal_mistakes.Policy.Handle.{
  is_ignore, is_error, select_violations, handle_violations, build_policy_violation_error, emit,
  log_record,
}

module _ (o : Options) where
  -- The policy is reported: its severity is not Ignore.
  abbrev pub is_reported : String → Bool
  is_reported q = not (is_ignore (severity_for o q))

  abbrev pub is_enforced : String → Bool
  is_enforced q = is_error (severity_for o q)

  select_violations-kept :
      (vs : List Violation) → (select_violations o vs).0 ≡ keep (λ v. is_reported v.policy) vs
  unfolding select_violations
  select_violations-kept [] = refl
  select_violations-kept (v ∷ vs) = ground (arith, select_violations-kept vs)

  select_violations-enforced :
      (vs : List Violation) → (select_violations o vs).1 ≡ any_of (λ v. is_enforced v.policy) vs
  unfolding select_violations is_ignore is_error
  select_violations-enforced [] = refl
  select_violations-enforced (v ∷ vs) = ground (arith, select_violations-enforced vs)

  pub map-keep :
      (vs : List Violation)
      → map (λ v. v.policy) (keep (λ v. is_reported v.policy) vs)
        ≡ keep is_reported (map (λ v. v.policy) vs)
  map-keep [] = refl
  map-keep (v ∷ vs) = ground (arith, map-keep vs)

  is_error_iff : (s : Severity) → (is_error s ≡ true) ↔ (s ≡ error)
  unfolding is_error
  is_error_iff s = ground arith

  any_of-map :
      (vs : List Violation)
      → any_of (λ v. is_enforced v.policy) vs ≡ any_of is_enforced (map (λ v. v.policy) vs)
  any_of-map [] = refl
  any_of-map (v ∷ vs) = ap (λ b. is_enforced v.policy || b) (any_of-map vs)

  pub any_of-enforced_sound :
      (qs : List String)
      → any_of is_enforced qs ≡ true
      → (q : String) × Memᴰ q qs × (severity_for o q ≡ error)
  any_of-enforced_sound [] h = cc
  any_of-enforced_sound (q ∷ qs) h = elim (Bool-cases (is_enforced q)) [
    | inl e ↦ (q, Memᴰ.head refl, (is_error_iff (severity_for o q)).0 e)
    | inr e ↦ let (r, m, s) = any_of-enforced_sound qs (rw e at h) in (r, Memᴰ.tail m, s)
  ]

  pub any_of-enforced_complete :
      (q : String) (qs : List String)
      → Memᴰ q qs
      → severity_for o q ≡ error
      → any_of is_enforced qs ≡ true
  any_of-enforced_complete q [] m s = elim m [ ]
  any_of-enforced_complete q (p ∷ qs) (Memᴰ.head e) s =
      let h : is_enforced p ≡ true =
        (is_error_iff (severity_for o p)).1 (subst (λ x. severity_for o x ≡ error) e s) in
      rw h
  any_of-enforced_complete q (p ∷ qs) (Memᴰ.tail m) s =
      ground (arith, any_of-enforced_complete q qs m s)

module _ (visit : List (String × Value) → List (String × Value)) (o : Options)
    (activity_type : String) (execution : WorkflowExecution) where
  abbrev pub kept : List Violation → List Violation
  kept = keep (λ v. is_reported o v.policy)

  pub handle_violations-logs :
      (vs : List Violation)
      → (handle_violations visit o activity_type execution vs).0
        ≡ map
            (λ v.
              emit visit o activity_type execution (log_record visit o activity_type execution v))
            (kept vs)
  unfolding handle_violations
  handle_violations-logs vs = rw (select_violations-kept o vs)

  pub handle_violations-error :
      (vs : List Violation)
      → (handle_violations visit o activity_type execution vs).1 ≡ (
          if any_of (is_enforced o) (map (λ v. v.policy) vs)
          then some (build_policy_violation_error visit o activity_type execution (kept vs))
          else none)
  unfolding handle_violations
  handle_violations-error vs =
      rw (select_violations-kept o vs, select_violations-enforced o vs, any_of-map o vs)
