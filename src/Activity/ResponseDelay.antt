-- ===== src/Activity/ResponseDelay.antt =====
-- When a response that `HTTPResponseError` of internal/activityhelpers/http.go finds retryable is
-- retried.
use temporal_mistakes.Base.{
  ℕ, ◌*◌, ◌≤◌, ◌<◌, ◌≡◌, sym, ap, subst, ◌∙◌, ◌↔◌, Option, Bool, true, String, List, ◌∷◌, ◌++◌, ℤ,
  pos, ◌<ℤ◌, arith, eqb_ℤ, leb, ◌&&◌, if◌then◌else◌,
}
use temporal_mistakes.Runtime.{Runtime}
use temporal_mistakes.Sdk.{ActivityInfo}
use temporal_mistakes.Activity.Retry.{get_next_retry_delay}
use temporal_mistakes.Activity.Delay.{HasRetry, get_next_retry_delay_iff}
use temporal_mistakes.Activity.RetryAfter.{parse_date, parse_retry_after, max_uint32}
use temporal_mistakes.Activity.RetryAfterLaws.{
  IsBlank, IsDigits, show_digits, place_value, parse_retry_after-digits,
}
use temporal_mistakes.Activity.Http.{Response, too_many_requests, response_delay}
use temporal_mistakes.Activity.Statuses.{IsSuccess, IsRejection, delay_of, outcome, outcome-retry}

module _ (rt : Runtime) (status_text : ℕ → String) (trimmed_text : List ℕ → String) {Time : Type 0}
    (parse_time : List ℕ → Option Time) (sub : Time → Time → ℤ)
    (ctx : Option (ActivityInfo rt.Float)) (r : Response) (now : Time) where
  delay_floor :
      (d fallback : ℤ) → d ≡ pos 0 → (if eqb_ℤ d (pos 0) && true then fallback else d) ≡ fallback
  delay_floor d fallback e = rw e

  delay_given :
      (d : ℤ) (b : Bool) (fallback : ℤ)
      → pos 0 <ℤ d
      → (if eqb_ℤ d (pos 0) && b then fallback else d) ≡ d
  delay_given d b fallback h = ground arith

  header_delay :
      (v : ℕ)
      → 0 < v
      → parse_retry_after parse_time sub r.retry_after now ≡ pos (v * 1_000_000_000)
      → response_delay rt parse_time sub ctx r now ≡ pos (v * 1_000_000_000)
  unfolding response_delay
  header_delay v h e = rw e (delay_given _ _ _ (omega arith))

  floor_delay :
      r.status_code ≡ too_many_requests
      → parse_retry_after parse_time sub r.retry_after now ≡ pos 0
      → response_delay rt parse_time sub ctx r now ≡ get_next_retry_delay rt ctx (rt.of_int (pos 3))
  unfolding response_delay
  floor_delay s e = rw (s, e)

  header_seconds :
      (left right : List ℕ) (d : ℕ) (ds : List ℕ)
      → r.retry_after ≡ left ++ (show_digits (d ∷ ds) ++ right)
      → IsBlank left
      → IsDigits (d ∷ ds)
      → IsBlank right
      → place_value (d ∷ ds) ≤ max_uint32
      → parse_retry_after parse_time sub r.retry_after now
        ≡ pos (place_value (d ∷ ds) * 1_000_000_000)
  header_seconds left right d ds e hl hd hr q =
      let in_range : leb (place_value (d ∷ ds)) max_uint32 ≡ true = ground arith in
      ap (λ s. parse_retry_after parse_time sub s now) e
      ∙ parse_retry_after-digits parse_time sub left right d ds now hl hd hr
      ∙ ap
          (λ b.
            if b
            then pos (place_value (d ∷ ds) * 1_000_000_000)
            else parse_date parse_time sub (show_digits (d ∷ ds)) now)
          in_range

  -- A retryable response whose Retry-After header is a positive number of seconds below 2 ^ 32,
  -- with white space around it, is retried after that number of seconds.
  pub http_response_error-retry_after :
      (left right : List ℕ) (d : ℕ) (ds : List ℕ)
      → ¬ IsSuccess r.status_code
      → ¬ IsRejection r.status_code
      → r.retry_after ≡ left ++ (show_digits (d ∷ ds) ++ right)
      → IsBlank left
      → IsDigits (d ∷ ds)
      → IsBlank right
      → 0 < place_value (d ∷ ds)
      → place_value (d ∷ ds) ≤ max_uint32
      → delay_of (outcome rt status_text trimmed_text parse_time sub ctx r now)
        ≡ pos (place_value (d ∷ ds) * 1_000_000_000)
  http_response_error-retry_after left right d ds h k e hl hd hr p q =
      (outcome-retry rt status_text trimmed_text parse_time sub ctx r now h k).1
      ∙ header_delay (place_value (d ∷ ds)) p (header_seconds left right d ds e hl hd hr q)

  -- A 429 without a usable Retry-After header has a positive delay exactly when the retry policy of
  -- the activity has attempts left.
  http_response_error-throttled :
      r.status_code ≡ too_many_requests
      → parse_retry_after parse_time sub r.retry_after now ≡ pos 0
      → (pos 0 <ℤ delay_of (outcome rt status_text trimmed_text parse_time sub ctx r now))
        ↔ HasRetry rt ctx
  http_response_error-throttled s e =
      let delay =
        (outcome-retry rt status_text trimmed_text parse_time sub ctx r now
          (subst (λ c. ¬ IsSuccess c) (sym s) (ground arith))
          (subst (λ c. ¬ IsRejection c) (sym s) (ground arith))).1
        ∙ floor_delay s e in
      subst (λ z. (pos 0 <ℤ z) ↔ HasRetry rt ctx) (sym delay)
        (get_next_retry_delay_iff rt ctx (rt.of_int (pos 3))).0
