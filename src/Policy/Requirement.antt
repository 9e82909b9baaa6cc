-- ===== src/Policy/Requirement.antt =====
-- Requirement 16 of specs/activitypolicyinterceptor/README.md: the retry intervals that Temporal
-- documents, and the time that the required retries need. Retries are counted from 0 here, so the
-- interval before retry `k` is `retry_interval(k + 1)` of the requirement.
use temporal_mistakes.Base.{
  ℕ, zero, suc, ◌+◌, ◌*◌, Option, none, some, pos, pos_part, if◌then◌else◌,
}
use temporal_mistakes.Runtime.{Runtime}
use temporal_mistakes.Sdk.{RetryPolicy}

-- A number that is set, or what it is by default.
unfoldable pub set_or : (number otherwise : ℕ) → ℕ
set_or zero otherwise = otherwise
set_or (suc n) otherwise = suc n

module _ (rt : Runtime) where
  open rt use {Float, of_int, times, pow, gtb, truncate}

  -- `initial_interval`: 1 second where it is unset.
  unfoldable pub documented_initial : Option (RetryPolicy Float) → ℕ
  documented_initial none = 1_000_000_000
  documented_initial (some p) = set_or (pos_part p.initial_interval) 1_000_000_000

  -- `backoff_coefficient`: 2.0 where it is unset.
  unfoldable pub documented_coefficient : Option (RetryPolicy Float) → Float
  documented_coefficient none = of_int (pos 2)
  documented_coefficient (some p) =
      if gtb p.backoff_coefficient (of_int (pos 0)) then p.backoff_coefficient else of_int (pos 2)

  -- `M`: the maximum interval, or 100 times the initial interval where it is unset.
  unfoldable pub documented_maximum : Option (RetryPolicy Float) → ℕ
  documented_maximum none = 100 * documented_initial none
  documented_maximum (some p) =
      set_or (pos_part p.maximum_interval) (100 * documented_initial (some p))

  -- `initial_interval × backoff_coefficient ^ k`
  abbrev pub grown_interval : Option (RetryPolicy Float) → ℕ → Float
  grown_interval p k =
      times (of_int (pos (documented_initial p))) (pow (documented_coefficient p) (of_int (pos k)))

  -- The smaller of an interval and its maximum, in whole nanoseconds.
  unfoldable pub at_most : (maximum : ℕ) → Float → ℕ
  at_most maximum interval =
      if gtb interval (of_int (pos maximum)) then maximum else pos_part (truncate interval)

  -- `min(M, initial_interval × backoff_coefficient ^ k)`
  unfoldable pub documented_interval : Option (RetryPolicy Float) → ℕ → ℕ
  documented_interval p k = at_most (documented_maximum p) (grown_interval p k)

  -- The sum of `rounds` intervals, from the one before retry `k` on.
  unfoldable pub interval_sum : Option (RetryPolicy Float) → (rounds k : ℕ) → ℕ
  interval_sum p zero k = 0
  interval_sum p (suc rounds) k = documented_interval p k + interval_sum p rounds (suc k)

  -- `N × detection_delay + Σ retry_interval(n)`, over the integers.
  abbrev pub required_time : Option (RetryPolicy Float) → (detect n : ℕ) → ℕ
  required_time p detect n = n * detect + interval_sum p n 0
