-- ===== src/Kubernetes/Conditions.antt =====
-- What `terminalStatus` of examples/go/kubernetes/activity.go reads off the conditions of a job.
use temporal_mistakes.Base.{
  ◌≡◌, refl, sym, ap, subst, ◌∙◌, ◌↔◌, inl, inr, Option, none, some, Option-cases, Bool, true,
  false, not, String, List, [], ◌∷◌, All, or_else, first, Until, first-Until, first-none-All, arith,
  if◌then◌else◌,
}
use temporal_mistakes.Kubernetes.Jobs.{
  ConditionType, job_complete, job_failed, other_condition, Condition,
}
use temporal_mistakes.Kubernetes.Activities.{status_of, terminal_status}

-- A condition that holds and ends the job, with the status it stands for.
pub data Ends (cond : Condition) (status : String) : Type 0 where
  complete :
      cond.is_true ≡ true → cond.kind ≡ job_complete → status ≡ "completed" → Ends cond status
  failed : cond.is_true ≡ true → cond.kind ≡ job_failed → status ≡ "failed" → Ends cond status

abbrev pub EndsNothing : Condition → Type 0
EndsNothing cond = (status : String) → ¬ Ends cond status

-- The first condition that ends the job stands for the status.
abbrev pub Finished : List Condition → String → Type 0
Finished = Until EndsNothing Ends

abbrev pub Unfinished : List Condition → Type 0
Unfinished conds = All EndsNothing conds

abbrev status_if : ConditionType → Bool → Option String
status_if job_complete true = some "completed"
status_if job_failed true = some "failed"
status_if (other_condition t) true = none
status_if t false = none

abbrev ending_status : Condition → Option String
ending_status cond = status_if cond.kind cond.is_true

ending_status_sound :
    (k : ConditionType) (b : Bool) (s : String)
    → status_if k b ≡ some s
    → Ends (record { kind = k; is_true = b }) s
ending_status_sound job_complete true s e = complete refl refl (ground arith)
ending_status_sound job_failed true s e = failed refl refl (ground arith)
ending_status_sound (other_condition t) true s e = absurd (ground arith)
ending_status_sound job_complete false s e = absurd (ground arith)
ending_status_sound job_failed false s e = absurd (ground arith)
ending_status_sound (other_condition t) false s e = absurd (ground arith)

ending_status_complete : (cond : Condition) (s : String) → Ends cond s → ending_status cond ≡ some s
ending_status_complete cond s (complete h k e) = rw (h, k, e) refl
ending_status_complete cond s (failed h k e) = rw (h, k, e) refl

ending_status-none : (cond : Condition) → ending_status cond ≡ none → EndsNothing cond
ending_status-none cond e s h = absurd (ground (arith, ending_status_complete cond s h))

EndsNothing-ending_status : (cond : Condition) → EndsNothing cond → ending_status cond ≡ none
EndsNothing-ending_status cond h = elim (Option-cases (ending_status cond)) [
  | inl e ↦ e
  | inr (s, e) ↦ absurd (h s (ending_status_sound cond.kind cond.is_true s e))
]

one_condition :
    (k : ConditionType) (b : Bool) (rest : Option String)
    → (if not b then rest else or_else (status_of k) rest) ≡ or_else (status_if k b) rest
one_condition job_complete true rest = refl
one_condition job_failed true rest = refl
one_condition (other_condition t) true rest = refl
one_condition job_complete false rest = refl
one_condition job_failed false rest = refl
one_condition (other_condition t) false rest = refl

terminal_status-first : (conds : List Condition) → terminal_status conds ≡ first ending_status conds
unfolding terminal_status
terminal_status-first [] = refl
terminal_status-first (cond ∷ conds) =
    one_condition cond.kind cond.is_true (terminal_status conds)
    ∙ ap (or_else (ending_status cond)) (terminal_status-first conds)

ending_status-none_iff : (cond : Condition) → (ending_status cond ≡ none) ↔ EndsNothing cond
ending_status-none_iff cond = (ending_status-none cond, EndsNothing-ending_status cond)

ending_status_iff : (cond : Condition) (s : String) → (ending_status cond ≡ some s) ↔ Ends cond s
ending_status_iff cond s =
    (ending_status_sound cond.kind cond.is_true s, ending_status_complete cond s)

-- The status is that of the first condition that holds and is Complete or Failed, and there is none
-- exactly when no condition is such.
pub terminal_status_iff :
    (conds : List Condition)
    → ((s : String) → (terminal_status conds ≡ some s) ↔ Finished conds s)
      × ((terminal_status conds ≡ none) ↔ Unfinished conds)
terminal_status_iff conds =
    subst (λ o. ((s : String) → (o ≡ some s) ↔ Finished conds s) × ((o ≡ none) ↔ Unfinished conds))
      (sym (terminal_status-first conds))
      (
        first-Until ending_status ending_status-none_iff ending_status_iff conds,
        first-none-All ending_status ending_status-none_iff ending_status_iff conds,
      )
