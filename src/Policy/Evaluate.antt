-- ===== src/Policy/Evaluate.antt =====
-- examples/go/activitypolicyinterceptor/interceptor.go: `violation`, `evaluatePolicies` and
-- `canonicalize`.
use text.Mathlib.Text.{◌==◌ as str_eq}
use temporal_mistakes.Base.{
  ℕ, ◌+◌, Option, none, some, Bool, ◌&&◌, ◌||◌, String, List, [], ◌∷◌, ◌++◌, ℤ, pos, leb_ℤ, ltb_ℤ,
  ltb, if◌then◌else◌,
}
use temporal_mistakes.Base.Text.{concat}
use temporal_mistakes.Runtime.{Runtime}
use temporal_mistakes.Sdk.{RetryPolicy}
use temporal_mistakes.Policy.Config.{
  schedule_to_close_required, max_attempts_too_low, local_activity_start_to_close_too_long,
  timeouts_permit_retries, canonical_order, local_activity_max_start_to_close,
}
use temporal_mistakes.Policy.Timing.{detection_delay, min_schedule_to_close}

-- A value of the `any` in `extra`: an integer, or the float64 that `Seconds` gives for a duration,
-- kept as that duration.
pub data Value : Type 0 where
  int : ℤ → Value
  seconds : ℤ → Value
  str : String → Value

pub record Violation : Type 0 where
  pub policy : String
  pub explanation : String
  pub extra : List (String × Value)

-- The rank of each policy: its place in `canonicalOrder`; a missing key reads as 0.
rank_from : ℕ → List String → String → ℕ
rank_from i [] p = 0
rank_from i (q ∷ qs) p = if str_eq q p then i else rank_from (i + 1) qs p

unfoldable pub rank : String → ℕ
unfolding rank_from
rank = rank_from 0 canonical_order

-- sort.SliceStable, as an insertion sort: an element goes before those of its own rank that come
-- after it.
unfoldable pub insert_by_rank : Violation → List Violation → List Violation
insert_by_rank v [] = v ∷ []
insert_by_rank v (w ∷ ws) =
    if ltb (rank w.policy) (rank v.policy) then w ∷ insert_by_rank v ws else v ∷ w ∷ ws

unfoldable pub canonicalize : List Violation → List Violation
unfolding insert_by_rank
canonicalize [] = []
canonicalize (v ∷ vs) = insert_by_rank v (canonicalize vs)

-- An `append` under an `if`.
abbrev pub when : Bool → Violation → List Violation
when b v = if b then v ∷ [] else []

abbrev pub schedule_to_close_missing : ℤ → Bool
schedule_to_close_missing schedule_to_close = leb_ℤ schedule_to_close (pos 0)

unfoldable pub check_schedule_to_close : ℤ → List Violation
check_schedule_to_close schedule_to_close =
    when (schedule_to_close_missing schedule_to_close) (record {
      policy = schedule_to_close_required;
      explanation = "ScheduleToCloseTimeout must be set to a positive value";
      extra = [];
    })

abbrev pub attempts_too_low : {F : Type 0} → RetryPolicy F → Bool
attempts_too_low p = ltb_ℤ (pos 0) p.maximum_attempts && ltb_ℤ p.maximum_attempts (pos 3)

unfoldable pub check_max_attempts : {F : Type 0} → Option (RetryPolicy F) → List Violation
check_max_attempts none = []
check_max_attempts (some p) = when (attempts_too_low p) (record {
  policy = max_attempts_too_low;
  explanation = "RetryPolicy.MaximumAttempts must be 0 (unlimited) or >= 3";
  extra = ("max_attempts", int p.maximum_attempts) ∷ [];
})

abbrev pub local_too_long : Bool → ℤ → Bool
local_too_long is_local start_to_close =
    is_local
    && (leb_ℤ start_to_close (pos 0) || leb_ℤ local_activity_max_start_to_close start_to_close)

unfoldable pub check_local_start_to_close : Bool → ℤ → List Violation
check_local_start_to_close is_local start_to_close =
    when (local_too_long is_local start_to_close) (record {
      policy = local_activity_start_to_close_too_long;
      explanation = "local activity StartToCloseTimeout must be set and < 10s";
      extra = ("start_to_close_seconds", seconds start_to_close) ∷ [];
    })

module _ (rt : Runtime) where
  retries_violation : (min_required detect required_retries : ℤ) → Violation
  retries_violation min_required detect required_retries = record {
    policy = timeouts_permit_retries;
    explanation = concat (
        "ScheduleToCloseTimeout must be >= "
        ∷ rt.show_duration min_required
        ∷ " to permit "
        ∷ rt.show_int required_retries
        ∷ " retries (detection_delay="
        ∷ rt.show_duration detect
        ∷ ")"
        ∷ []);
    extra =
        ("required_retries", int required_retries)
        ∷ ("detection_delay_seconds", seconds detect)
        ∷ ("min_schedule_to_close_seconds", seconds min_required)
        ∷ [];
  }

  abbrev pub no_room_for_retries :
      (schedule_to_close detect : ℤ) → Option (RetryPolicy rt.Float) → ℤ → Bool
  no_room_for_retries schedule_to_close detect p required_retries =
      (ltb_ℤ (pos 0) required_retries && ltb_ℤ (pos 0) schedule_to_close)
      && (ltb_ℤ (pos 0) detect
          && ltb_ℤ schedule_to_close (min_schedule_to_close rt detect p required_retries))

  unfoldable pub check_retries :
      (schedule_to_close detect : ℤ) → Option (RetryPolicy rt.Float) → ℤ → List Violation
  unfolding retries_violation
  check_retries schedule_to_close detect p required_retries =
      when (no_room_for_retries schedule_to_close detect p required_retries) (
        retries_violation (min_schedule_to_close rt detect p required_retries) detect
          required_retries)

  unfoldable pub evaluate_policies :
      (schedule_to_close start_to_close heartbeat : ℤ)
      → Option (RetryPolicy rt.Float)
      → (is_local : Bool) (required_retries : ℤ) → List Violation
  unfolding check_schedule_to_close check_max_attempts check_local_start_to_close check_retries
  evaluate_policies schedule_to_close start_to_close heartbeat p is_local required_retries =
      canonicalize (
        check_schedule_to_close schedule_to_close
        ++ (check_max_attempts p
            ++ (check_local_start_to_close is_local start_to_close
                ++ check_retries schedule_to_close (detection_delay heartbeat start_to_close) p
                    required_retries)))
