-- ===== src/Activity/Tests.antt =====
-- The theorems about internal/activityhelpers at concrete inputs.
use Prim.Native.String
use temporal_mistakes.Base.{
  ℕ, ◌≡◌, refl, ◌↔◌, ◌⊎◌, inr, Option, none, some, true, false, String, List, [], ◌∷◌, ℤ, pos, ◌<ℤ◌,
  arith,
}
use temporal_mistakes.Errors.{Err}
use temporal_mistakes.Runtime.{whole}
use temporal_mistakes.Sdk.{RetryPolicy, ActivityInfo}
use temporal_mistakes.Activity.Retry.{get_next_retry_delay}
use temporal_mistakes.Activity.Delay.{HasRetry, get_next_retry_delay_iff}
use temporal_mistakes.Activity.Idempotency.{preimage, get_idempotency_token}
use temporal_mistakes.Activity.RetryAfter.{is_space}
use temporal_mistakes.Activity.Http.{Response, http_response_error}
use temporal_mistakes.Activity.Statuses.{
  IsSuccess, IsRejection, verdict, delay_of, http_response_error_classifies,
}
use temporal_mistakes.Activity.ResponseDelay.{http_response_error-retry_after}
use temporal_mistakes.Activity.Transport.{get, header_name, lookup, HttpClient, Request}
use temporal_mistakes.Activity.RequestLaws.{sent, do_request_key_iff}

abbrev policy : RetryPolicy ℕ
policy = record {
  initial_interval = pos 1_000;
  backoff_coefficient = 2;
  maximum_interval = pos 5_000;
  maximum_attempts = pos 4;
}

abbrev first_attempt : ActivityInfo ℕ
first_attempt = record {
  workflow_id = 119 ∷ [];
  run_id = 114 ∷ [];
  activity_id = 49 ∷ [];
  attempt = pos 1;
  heartbeat_timeout = pos 0;
  retry_policy = some policy;
}

abbrev second_attempt : ActivityInfo ℕ
second_attempt = record first_attempt { attempt = pos 2 }

get_next_retry_delay_iff_example :
    ((pos 0 <ℤ get_next_retry_delay whole (some second_attempt) 3)
      ↔ HasRetry whole (some second_attempt))
    × ((get_next_retry_delay whole (some second_attempt) 3 ≡ pos 0)
        ↔ (¬ HasRetry whole (some second_attempt)))
get_next_retry_delay_iff_example = get_next_retry_delay_iff whole (some second_attempt) 3

-- A digest that tells its inputs' lengths apart.
abbrev digest : List ℕ → String
digest [] = ""
digest (b ∷ s) = String.◌++◌ "x" (digest s)

-- A date parser that knows no date.
abbrev no_date : List ℕ → Option ℕ
no_date s = none

abbrev no_span : ℕ → ℕ → ℤ
no_span a b = pos 0

abbrev answer : ℕ → List ℕ → Response
answer status retry_after = record {
  status_code = status;
  status = "status";
  retry_after = retry_after;
  body = none;
}

abbrev no_text : ℕ → String
no_text s = ""

abbrev no_body : List ℕ → String
no_body s = ""

abbrev answered : Response → Option Err
answered r = http_response_error whole no_text no_body no_date no_span (some second_attempt) r 0

http_response_error_classifies_example :
    ((answered (answer 404 []) ≡ none) ↔ IsSuccess 404)
    × ((verdict (answered (answer 404 [])) ≡ some true) ↔ IsRejection 404)
    × ((verdict (answered (answer 404 [])) ≡ some false)
        ↔ ((¬ IsSuccess 404) × (¬ IsRejection 404)))
http_response_error_classifies_example =
    http_response_error_classifies whole no_text no_body no_date no_span (some second_attempt)
      (answer 404 []) 0

http_response_error-retry_after_example :
    delay_of (answered (answer 503 (b'1' ∷ b'2' ∷ 32 ∷ []))) ≡ pos 12_000_000_000
unfolding is_space
http_response_error-retry_after_example =
    http_response_error-retry_after whole no_text no_body no_date no_span (some second_attempt)
      (answer 503 (b'1' ∷ b'2' ∷ 32 ∷ [])) 0 [] (32 ∷ []) 1 (2 ∷ []) (ground arith) (ground arith)
      refl tt (omega arith, (omega arith, tt)) (refl, tt) (omega arith) (omega arith)

-- An exchange that answers the request itself, a client without settings, and a request with one header.
abbrev echo : ℕ → Request ℕ → Err ⊎ Request ℕ
echo c req = inr req

abbrev client : HttpClient ℕ
client = record { client = none; idempotency_header = "" }

abbrev request : Request ℕ
request = record { header = ("Accept", "text") ∷ []; content = 5 }

abbrev sent_by : String → Request ℕ
sent_by token = sent (λ k. k) (λ e. "e") (λ u. "u") 0 echo client token request

do_request_key_iff_example :
    (get
        (λ k. k)
        (sent_by (get_idempotency_token digest (some first_attempt))).header
        (header_name client.idempotency_header)
      ≡ get
          (λ k. k)
          (sent_by (get_idempotency_token digest (some second_attempt))).header
          (header_name client.idempotency_header))
    ↔ ((first_attempt.workflow_id ≡ second_attempt.workflow_id)
        × (first_attempt.run_id ≡ second_attempt.run_id)
        × (first_attempt.activity_id ≡ second_attempt.activity_id))
unfolding preimage header_name get lookup
do_request_key_iff_example =
    do_request_key_iff (λ k. k) (λ e. "e") (λ u. "u") 0 echo client digest first_attempt
      second_attempt request refl (ground arith) (ground arith) (λ _. refl)
