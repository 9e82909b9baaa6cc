-- ===== src/Policy/Budget.antt =====
-- What `minScheduleToClose` computes: the sum of the specification, as a 64-bit value.
use temporal_mistakes.Base.{
  ℕ, zero, suc, ◌+◌, ◌*◌, ◌^◌, ◌<◌, ◌≡◌, refl, Option, ap, ◌∙◌, pos, ◌+ℤ◌, wrap64, add64,
  wrap64_of_IsInt64, arith,
}
use temporal_mistakes.Runtime.{Runtime, IsLawful, IsExact}
use temporal_mistakes.Sdk.{RetryPolicy}
use temporal_mistakes.Policy.Timing.{retry_interval, add_intervals, min_schedule_to_close}
use temporal_mistakes.Policy.Requirement.{
  documented_maximum, documented_interval, interval_sum, required_time,
}
use temporal_mistakes.Policy.Interval.{mul64_wrap, retry_interval-documented}

add64_wrap : (m r : ℕ) → add64 (wrap64 (pos m)) (pos r) ≡ wrap64 (pos (m + r))
unfolding add64 wrap64 ◌+ℤ◌
add64_wrap m r = ground arith

module _ (rt : Runtime) (p : Option (RetryPolicy rt.Float)) where
  module _ (laws : IsLawful rt) (exact : IsExact (pos (documented_maximum rt p))) where
    add_intervals-wrap :
        (rounds i k s : ℕ)
        → i ≡ suc k
        → add_intervals rt rounds i p (wrap64 (pos s))
          ≡ wrap64 (pos (s + interval_sum rt p rounds k))
    unfolding add_intervals interval_sum
    add_intervals-wrap zero i k s at_k = ap (λ t. wrap64 (pos t)) (omega arith)
    add_intervals-wrap (suc rounds) i k s at_k =
        let r = documented_interval rt p k in
        let same : retry_interval rt (pos i) p ≡ pos r =
          ap (λ n. retry_interval rt (pos n) p) at_k
          ∙ retry_interval-documented rt laws p exact k in
        rw (ap (add64 (wrap64 (pos s))) same ∙ add64_wrap s r) (
          add_intervals-wrap rounds (i + 1) (suc k) (s + r) (omega (arith, at_k))
          ∙ ap (λ t. wrap64 (pos t)) (omega arith))

    -- `minScheduleToClose` is the required time of the specification, wrapped to 64 bits.
    pub min_schedule_to_close_wraps :
        (detect n : ℕ)
        → min_schedule_to_close rt (pos detect) p (pos n)
          ≡ wrap64 (pos (required_time rt p detect n))
    unfolding min_schedule_to_close
    min_schedule_to_close_wraps detect n =
        rw (mul64_wrap n detect) (add_intervals-wrap n 1 0 (n * detect) refl)

    -- So it is exact as long as the required time fits an int64.
    pub min_schedule_to_close_exact :
        (detect n : ℕ)
        → required_time rt p detect n < 2 ^ 63
        → min_schedule_to_close rt (pos detect) p (pos n) ≡ pos (required_time rt p detect n)
    min_schedule_to_close_exact detect n h =
        min_schedule_to_close_wraps detect n
        ∙ wrap64_of_IsInt64 (pos (required_time rt p detect n)) (omega arith)
