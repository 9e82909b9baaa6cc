-- ===== src/Policy/Report.antt =====
-- The list that `evaluatePolicies` returns, by its four tests.
use temporal_mistakes.Base.{
  ◌≡◌, Option, none, some, Bool, false, String, List, [], ◌∷◌, ◌++◌, map, ℤ, arith, if◌then◌else◌,
}
use temporal_mistakes.Runtime.{Runtime}
use temporal_mistakes.Sdk.{RetryPolicy}
use temporal_mistakes.Policy.Config.{
  schedule_to_close_required, max_attempts_too_low, local_activity_start_to_close_too_long,
  timeouts_permit_retries,
}
use temporal_mistakes.Policy.Timing.{detection_delay}
use temporal_mistakes.Policy.Evaluate.{
  Violation, Value, when, rank, canonicalize, schedule_to_close_missing, attempts_too_low,
  local_too_long, no_room_for_retries, evaluate_policies,
}

abbrev violation : String → String → List (String × Value) → Violation
violation p e x = record { policy = p; explanation = e; extra = x }

abbrev pub name_when : Bool → String → List String
name_when b p = if b then p ∷ [] else []

-- Four violations in the canonical order, of which any may be absent, stay as they are.
canonicalize-when :
    (a b c d : Bool) (e f g h : String) (s t u v : List (String × Value))
    → map
        (λ w. w.policy)
        (canonicalize (
          when a (violation schedule_to_close_required e s)
          ++ (when b (violation max_attempts_too_low f t)
              ++ (when c (violation local_activity_start_to_close_too_long g u)
                  ++ when d (violation timeouts_permit_retries h v)))))
      ≡ name_when a schedule_to_close_required
        ++ (name_when b max_attempts_too_low
            ++ (name_when c local_activity_start_to_close_too_long
                ++ name_when d timeouts_permit_retries))
unfolding canonicalize rank
canonicalize-when a b c d e f g h s t u v = ground arith

abbrev pub low_attempts : {F : Type 0} → Option (RetryPolicy F) → Bool
low_attempts none = false
low_attempts (some p) = attempts_too_low p

module _ (rt : Runtime) where
  -- The policies reported are those whose test holds, in the canonical order.
  pub evaluate_policies-names :
      (schedule_to_close start_to_close heartbeat : ℤ) (p : Option (RetryPolicy rt.Float))
      (is_local : Bool) (required_retries : ℤ)
      → map
          (λ w. w.policy)
          (evaluate_policies rt schedule_to_close start_to_close heartbeat p is_local
            required_retries)
        ≡ name_when (schedule_to_close_missing schedule_to_close) schedule_to_close_required
          ++ (name_when (low_attempts p) max_attempts_too_low
              ++ (name_when
                    (local_too_long is_local start_to_close)
                    local_activity_start_to_close_too_long
                  ++ name_when
                      (no_room_for_retries rt schedule_to_close
                        (detection_delay heartbeat start_to_close)
                        p
                        required_retries)
                      timeouts_permit_retries))
  unfolding evaluate_policies
  evaluate_policies-names s t h none l n =
      canonicalize-when (schedule_to_close_missing s) false (local_too_long l t)
        (no_room_for_retries rt s (detection_delay h t) none n) _ "" _ _ _ [] _ _
  evaluate_policies-names s t h (some p) l n =
      canonicalize-when (schedule_to_close_missing s) (attempts_too_low p) (local_too_long l t)
        (no_room_for_retries rt s (detection_delay h t) (some p) n) _ _ _ _ _ _ _ _
