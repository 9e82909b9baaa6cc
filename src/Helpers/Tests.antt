-- ===== src/Helpers/Tests.antt =====
-- The theorems about internal/testhelpers at concrete settings and calls.
use text.Mathlib.TextEquality.{eq_iff}
use temporal_mistakes.Base.{◌≡◌, ◌≢◌, [], ◌∷◌, ◌++◌, arith}
use temporal_mistakes.Policy.Config.{
  ignore, warn, severity_for, max_attempts_too_low, timeouts_permit_retries,
}
use temporal_mistakes.Helpers.{zero_policy_options}
use temporal_mistakes.Helpers.Laws.{severity, extra_args, configured, configured-severity_for}

other_policy : max_attempts_too_low ≢ timeouts_permit_retries
other_policy e = absurd (ground (arith, (eq_iff max_attempts_too_low timeouts_permit_retries).1 e))

-- The severity of a policy is set twice, and that of another one in between.
configured-severity_for_example :
    (severity_for
        (configured (
          (severity timeouts_permit_retries ignore ∷ [])
          ++ severity timeouts_permit_retries warn
            ∷ severity max_attempts_too_low ignore
            ∷ extra_args ("--headless" ∷ [])
            ∷ []))
        timeouts_permit_retries
      ≡ warn)
    × (severity_for
          (configured (severity max_attempts_too_low ignore ∷ extra_args ("--headless" ∷ []) ∷ []))
          timeouts_permit_retries
        ≡ severity_for zero_policy_options timeouts_permit_retries)
configured-severity_for_example =
    configured-severity_for timeouts_permit_retries warn
      (severity timeouts_permit_retries ignore ∷ [])
      (severity max_attempts_too_low ignore ∷ extra_args ("--headless" ∷ []) ∷ [])
      (other_policy, (tt, tt))
