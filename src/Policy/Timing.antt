-- ===== src/Policy/Timing.antt =====
-- examples/go/activitypolicyinterceptor/interceptor.go: `detectionDelay`, `retryInterval` and
-- `minScheduleToClose`.
use temporal_mistakes.Base.{
  ℕ, zero, suc, ◌+◌, Option, none, some, ℤ, pos, pos_part, ◌-ℤ◌, ltb_ℤ, eqb_ℤ, add64, mul64,
  if◌then◌else◌,
}
use temporal_mistakes.Runtime.{Runtime}
use temporal_mistakes.Sdk.{RetryPolicy}
use temporal_mistakes.Policy.Config.{
  default_retry_initial_interval, default_retry_backoff_coefficient,
  default_max_interval_multiplier,
}

unfoldable pub detection_delay : (heartbeat start_to_close : ℤ) → ℤ
detection_delay heartbeat start_to_close =
    if ltb_ℤ (pos 0) heartbeat then heartbeat else start_to_close

module _ (rt : Runtime) where
  open rt use {Float, of_int, times, pow, gtb, truncate}

  -- The first block of `retryInterval`: the policy's fields, or Temporal's defaults.
  unfoldable pub initial_of : Option (RetryPolicy Float) → ℤ
  initial_of none = default_retry_initial_interval
  initial_of (some p) =
      if ltb_ℤ (pos 0) p.initial_interval
      then p.initial_interval
      else default_retry_initial_interval

  unfoldable pub backoff_of : Option (RetryPolicy Float) → Float
  backoff_of none = of_int default_retry_backoff_coefficient
  backoff_of (some p) =
      if gtb p.backoff_coefficient (of_int (pos 0))
      then p.backoff_coefficient
      else of_int default_retry_backoff_coefficient

  unfoldable pub configured_max_of : Option (RetryPolicy Float) → ℤ
  configured_max_of none = pos 0
  configured_max_of (some p) =
      if ltb_ℤ (pos 0) p.maximum_interval then p.maximum_interval else pos 0

  unfoldable pub max_interval_of : Option (RetryPolicy Float) → ℤ
  max_interval_of p =
      if eqb_ℤ (configured_max_of p) (pos 0)
      then mul64 default_max_interval_multiplier (initial_of p)
      else configured_max_of p

  -- `scaled`
  abbrev pub scaled_interval : ℤ → Float → ℤ → Float
  scaled_interval initial backoff n = times (of_int initial) (pow backoff (of_int (n -ℤ pos 1)))

  -- The capping at the end of `retryInterval`.
  unfoldable pub cap_interval : Float → ℤ → ℤ
  cap_interval scaled max_interval =
      if gtb scaled (of_int max_interval) then max_interval else truncate scaled

  unfoldable pub retry_interval : ℤ → Option (RetryPolicy Float) → ℤ
  retry_interval n p =
      cap_interval (scaled_interval (initial_of p) (backoff_of p) n) (max_interval_of p)

  -- The loop of `minScheduleToClose`, with the rounds that are left.
  unfoldable pub add_intervals : ℕ → ℕ → Option (RetryPolicy Float) → ℤ → ℤ
  add_intervals zero i p sum = sum
  add_intervals (suc rounds) i p sum =
      add_intervals rounds (i + 1) p (add64 sum (retry_interval (pos i) p))

  unfoldable pub min_schedule_to_close : ℤ → Option (RetryPolicy Float) → ℤ → ℤ
  unfolding add_intervals
  min_schedule_to_close detect p n = add_intervals (pos_part n) 1 p (mul64 n detect)
