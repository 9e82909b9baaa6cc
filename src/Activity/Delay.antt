-- ===== src/Activity/Delay.antt =====
-- The delays of internal/activityhelpers/retry.go.
use Prim.Native.Nat.{min}
use temporal_mistakes.Base.{
  ℕ, zero, suc, ◌*◌, ◌^◌, ◌≤◌, ◌<◌, ◌≡◌, refl, ◌↔◌, ◌⊎◌, Option, none, some, ℤ, pos, ◌≤ℤ◌, ◌<ℤ◌,
  arith,
}
use temporal_mistakes.Runtime.{Runtime, IsLawful, max_exact}
use temporal_mistakes.Base.Int.{suc-minus-one}
use temporal_mistakes.Sdk.{RetryPolicy, ActivityInfo}
use temporal_mistakes.Activity.Retry.{
  initial_interval, effective_coefficient, cap_delay, calculate_new_retry_delay, retry_delay,
  get_next_retry_delay,
}

two-pow-pos : (e : ℕ) → 0 < 2 ^ e
two-pow-pos zero = omega arith
two-pow-pos (suc e) = omega (arith, two-pow-pos e)

mul_pos : (a e : ℕ) → 0 < a → 0 < a * 2 ^ e
mul_pos a e h = grind (arith, two-pow-pos e)

module _ (rt : Runtime) where
  open rt use {Float, of_int, times, pow, truncate}

  cap_delay_bounds :
      (d m : ℤ) → (pos 0 <ℤ cap_delay rt d m) × ((m ≤ℤ pos 0) ⊎ (cap_delay rt d m ≤ℤ m))
  unfolding cap_delay
  cap_delay_bounds d m = ground arith

  cap_delay-min : (d m : ℕ) → 0 < d → 0 < m → cap_delay rt (pos d) (pos m) ≡ pos (min m d)
  unfolding cap_delay
  cap_delay-min d m p q = ground arith

  -- Whatever the floating-point arithmetic gives, overflow included, the delay is positive, and a
  -- positive maximum interval bounds it.
  calculate_new_retry_delay_bounds :
      (p : RetryPolicy Float) (attempt : ℤ) (min_backoff : Float)
      → (pos 0 <ℤ calculate_new_retry_delay rt p attempt min_backoff)
        × ((p.maximum_interval ≤ℤ pos 0)
            ⊎ (calculate_new_retry_delay rt p attempt min_backoff ≤ℤ p.maximum_interval))
  unfolding calculate_new_retry_delay
  calculate_new_retry_delay_bounds p attempt min_backoff = cap_delay_bounds _ p.maximum_interval

  -- The retry policy has attempts left.
  abbrev HasAttempts : Option (RetryPolicy Float) → ℤ → Type 0
  HasAttempts none attempt = ⊥
  HasAttempts (some p) attempt = (p.maximum_attempts ≤ℤ pos 0) ⊎ (attempt <ℤ p.maximum_attempts)

  abbrev pub HasRetry : Option (ActivityInfo Float) → Type 0
  HasRetry none = ⊥
  HasRetry (some info) = HasAttempts info.retry_policy info.attempt

  retry_delay_iff :
      (o : Option (RetryPolicy Float)) (attempt : ℤ) (min_backoff : Float)
      → ((pos 0 <ℤ retry_delay rt o attempt min_backoff) ↔ HasAttempts o attempt)
        × ((retry_delay rt o attempt min_backoff ≡ pos 0) ↔ (¬ HasAttempts o attempt))
  unfolding retry_delay
  retry_delay_iff none attempt min_backoff =
      ((λ h. absurd (omega arith), λ h. absurd h), (λ _ x. x, λ _. refl))
  retry_delay_iff (some p) attempt min_backoff =
      ground (arith, calculate_new_retry_delay_bounds p attempt min_backoff)

  -- The delay is positive exactly when there is a retry policy with attempts left, and 0 otherwise.
  pub get_next_retry_delay_iff :
      (ctx : Option (ActivityInfo Float)) (min_backoff : Float)
      → ((pos 0 <ℤ get_next_retry_delay rt ctx min_backoff) ↔ HasRetry ctx)
        × ((get_next_retry_delay rt ctx min_backoff ≡ pos 0) ↔ (¬ HasRetry ctx))
  unfolding get_next_retry_delay
  get_next_retry_delay_iff none min_backoff =
      ((λ h. absurd (omega arith), λ h. absurd h), (λ _ x. x, λ _. refl))
  get_next_retry_delay_iff (some info) min_backoff =
      retry_delay_iff info.retry_policy info.attempt min_backoff

  retry_delay_nonneg :
      (o : Option (RetryPolicy Float)) (attempt : ℤ) (min_backoff : Float)
      → pos 0 ≤ℤ retry_delay rt o attempt min_backoff
  unfolding retry_delay
  retry_delay_nonneg none attempt min_backoff = omega arith
  retry_delay_nonneg (some p) attempt min_backoff =
      ground (arith, calculate_new_retry_delay_bounds p attempt min_backoff)

  get_next_retry_delay_nonneg :
      (ctx : Option (ActivityInfo Float)) (min_backoff : Float)
      → pos 0 ≤ℤ get_next_retry_delay rt ctx min_backoff
  unfolding get_next_retry_delay
  get_next_retry_delay_nonneg none min_backoff = omega arith
  get_next_retry_delay_nonneg (some info) min_backoff =
      retry_delay_nonneg info.retry_policy info.attempt min_backoff

  -- With an effective coefficient of 2, an exactly representable initial interval and a positive,
  -- exactly representable maximum, the delay after attempt e + 1 is the smaller of the maximum and
  -- the initial interval doubled e times.
  calculate_new_retry_delay_doubling :
      IsLawful rt
      → (p : RetryPolicy Float) (min_backoff : Float) (a m e : ℕ)
      → effective_coefficient rt p min_backoff ≡ of_int (pos 2)
      → initial_interval rt p ≡ pos a
      → 0 < a
      → p.maximum_interval ≡ pos m
      → 0 < m
      → a * 2 ^ e ≤ max_exact
      → e ≤ 1023
      → calculate_new_retry_delay rt p (pos (suc e)) min_backoff ≡ pos (min m (a * 2 ^ e))
  unfolding calculate_new_retry_delay
  calculate_new_retry_delay_doubling laws p min_backoff a m e hc ha pa hm pm exact finite =
      rw (hc, ha, hm, suc-minus-one e, laws.doubling_exact a e exact finite)
        (cap_delay-min (a * 2 ^ e) m (mul_pos a e pa) pm)
