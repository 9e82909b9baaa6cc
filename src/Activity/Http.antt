-- ===== src/Activity/Http.antt =====
-- internal/activityhelpers/http.go: `HTTPResponseError`, `httpErrorType` and `httpBodySnippet`.
-- http.StatusText and the text of trimmed bytes are parameters. A status code is a natural number.
use text.Mathlib.Text.{◌==◌ as str_eq}
use temporal_mistakes.Base.{
  ℕ, zero, suc, Option, none, some, Bool, true, false, ◌&&◌, String, List, [], ◌∷◌, ℤ, pos, eqb_ℤ,
  ltb, leb, ◌==◌, if◌then◌else◌, any_of,
}
use temporal_mistakes.Base.Text.{concat, remove_spaces}
use temporal_mistakes.Errors.{Err, application_error_only}
use temporal_mistakes.Runtime.{Runtime}
use temporal_mistakes.Sdk.{ActivityInfo}
use temporal_mistakes.Activity.Retry.{get_next_retry_delay}
use temporal_mistakes.Activity.RetryAfter.{parse_retry_after}

-- The parts of *http.Response that are read. `retry_after` is the header's value, or empty; `body`
-- is what reading it gives, and `none` is a nil body.
pub record Response : Type 0 where
  pub status_code : ℕ
  pub status : String
  pub retry_after : List ℕ
  pub body : Option (List ℕ)

-- The codes of the switch, from StatusBadRequest to StatusUnavailableForLegalReasons.
abbrev pub rejected_codes : List ℕ
rejected_codes =
    400 ∷ 401 ∷ 402 ∷ 403 ∷ 404 ∷ 405 ∷ 406 ∷ 407 ∷ 409 ∷ 410 ∷ 411 ∷ 412 ∷ 413 ∷ 414 ∷ 415 ∷ 416
    ∷ 417 ∷ 418 ∷ 421 ∷ 422 ∷ 423 ∷ 424 ∷ 426 ∷ 428 ∷ 431 ∷ 451 ∷ []

unfoldable pub is_rejected : ℕ → Bool
is_rejected status = any_of (λ c. status == c) rejected_codes

abbrev pub too_many_requests : ℕ
too_many_requests = 429

-- io.LimitReader
pub limit : ℕ → List ℕ → List ℕ
limit zero s = []
limit (suc n) [] = []
limit (suc n) (b ∷ s) = b ∷ limit n s

-- The delay of a retryable response: the header's, or the floor for 429.
module _ (rt : Runtime) {Time : Type 0} (parse_time : List ℕ → Option Time)
    (sub : Time → Time → ℤ) where
  unfoldable pub response_delay : Option (ActivityInfo rt.Float) → Response → Time → ℤ
  response_delay ctx r now =
      let delay = parse_retry_after parse_time sub r.retry_after now in
      if eqb_ℤ delay (pos 0) && r.status_code == too_many_requests
      then get_next_retry_delay rt ctx (rt.of_int (pos 3))
      else delay

module _ (rt : Runtime) (status_text : ℕ → String) (trimmed_text : List ℕ → String) where
  pub http_error_type : ℕ → String
  http_error_type status =
      if str_eq (status_text status) ""
      then concat ("http_" ∷ rt.show_int (pos status) ∷ [])
      else remove_spaces (status_text status)

  pub http_body_snippet : Option (List ℕ) → String
  http_body_snippet none = ""
  http_body_snippet (some body) = trimmed_text (limit 256 body)

  pub response_message : Response → String
  response_message r = concat (r.status ∷ ": " ∷ http_body_snippet r.body ∷ [])

  module _ {Time : Type 0} (parse_time : List ℕ → Option Time) (sub : Time → Time → ℤ) where
    -- `now` is what time.Now answers.
    unfoldable pub http_response_error :
        Option (ActivityInfo rt.Float) → Response → Time → Option Err
    http_response_error ctx r now =
        if leb 200 r.status_code && ltb r.status_code 400
        then none
        else if is_rejected r.status_code
        then some (
            application_error_only (record {
              message = response_message r;
              type_name = http_error_type r.status_code;
              non_retryable = true;
              next_retry_delay = pos 0;
              details = [];
            }))
        else some (
            application_error_only (record {
              message = response_message r;
              type_name = http_error_type r.status_code;
              non_retryable = false;
              next_retry_delay = response_delay rt parse_time sub ctx r now;
              details = [];
            }))
