-- ===== src/Activity/Retry.antt =====
-- internal/activityhelpers/retry.go: how long the service waits before the next attempt.
use temporal_mistakes.Base.{Option, none, some, ◌&&◌, ℤ, pos, ◌-ℤ◌, leb_ℤ, ltb_ℤ, if◌then◌else◌}
use temporal_mistakes.Runtime.{Runtime}
use temporal_mistakes.Sdk.{second, hour, RetryPolicy, ActivityInfo}

abbrev pub default_initial_interval : ℤ
default_initial_interval = second

module _ (rt : Runtime) where
  open rt use {Float, of_int, times, pow, larger, same, truncate}

  -- `initial` and `coeff` of `calculateNewRetryDelay`.
  unfoldable pub initial_interval : RetryPolicy Float → ℤ
  initial_interval p =
      if leb_ℤ p.initial_interval (pos 0) then default_initial_interval else p.initial_interval

  unfoldable pub effective_coefficient : RetryPolicy Float → Float → Float
  effective_coefficient p min_backoff = larger min_backoff (
      if same p.backoff_coefficient (of_int (pos 0)) then of_int (pos 2) else p.backoff_coefficient)

  -- The end of `calculateNewRetryDelay`: the guard against overflow, and the cap.
  unfoldable pub cap_delay : (delay maximum : ℤ) → ℤ
  cap_delay delay maximum =
      if leb_ℤ delay (pos 0)
      then (if ltb_ℤ (pos 0) maximum then maximum else hour)
      else if ltb_ℤ (pos 0) maximum && ltb_ℤ maximum delay
      then maximum
      else delay

  unfoldable pub calculate_new_retry_delay : RetryPolicy Float → (attempt : ℤ) → Float → ℤ
  calculate_new_retry_delay p attempt min_backoff =
      cap_delay
        (truncate (
          times (of_int (initial_interval p))
            (pow (effective_coefficient p min_backoff) (of_int (attempt -ℤ pos 1)))))
        p.maximum_interval

  -- `getNextRetryDelay`, from the two fields that it reads.
  unfoldable pub retry_delay : Option (RetryPolicy Float) → (attempt : ℤ) → Float → ℤ
  retry_delay none attempt min_backoff = pos 0
  retry_delay (some p) attempt min_backoff =
      if ltb_ℤ (pos 0) p.maximum_attempts && leb_ℤ p.maximum_attempts attempt
      then pos 0
      else calculate_new_retry_delay p attempt min_backoff

  -- `GetNextRetryDelay`; `none` is a context that is not an activity's.
  unfoldable pub get_next_retry_delay : Option (ActivityInfo Float) → Float → ℤ
  get_next_retry_delay none min_backoff = pos 0
  get_next_retry_delay (some info) min_backoff =
      retry_delay info.retry_policy info.attempt min_backoff
