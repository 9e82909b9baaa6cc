-- ===== src/Payments/Charge.antt =====
-- examples/go/payments/activity.go: `ChargePayment` over the HTTP helpers of
-- internal/activityhelpers. Encoding and decoding of JSON, http.NewRequestWithContext and what
-- internal/activityhelpers takes from elsewhere are parameters.
use temporal_mistakes.Base.{
  ℕ, Option, none, some, Bool, true, ◌⊎◌, inl, inr, String, List, [], ℤ, pos,
}
use temporal_mistakes.Errors.{
  Err, UrlError, node, other, cons, nil, application_error, matches, is_json_unmarshal_type,
}
use temporal_mistakes.Runtime.{Runtime}
use temporal_mistakes.Sdk.{ActivityInfo}
use temporal_mistakes.Activity.Idempotency.{get_idempotency_token}
use temporal_mistakes.Activity.Http.{Response, http_response_error}
use temporal_mistakes.Activity.Transport.{
  HttpClient, Request, set, do_request, default_idempotency_header,
}

pub record ChargePaymentRequest : Type 0 where
  pub customer_id : String
  pub amount_cents : ℤ
  pub currency : String

pub record ChargePaymentResponse : Type 0 where
  pub charge_id : String
  pub status : String

-- fmt.Errorf("…: %w", err)
abbrev pub wrap_error : String → Err → Err
wrap_error what err = node (other what) (cons err nil)

-- What the activity takes from other packages, `Float` being the type of `float64` and `Time` that of
-- time.Time.
pub record Services (Time Client Content : Type 0) : Type 0 where
  pub status_text : ℕ → String
  pub trimmed_text : List ℕ → String
  pub parse_time : List ℕ → Option Time
  pub time_sub : Time → Time → ℤ
  pub canonical : String → String
  pub error_text : Err → String
  pub url_text : UrlError → String
  pub default_client : Client
  pub send : Client → Request Content → Err ⊎ Response
  pub digest : List ℕ → String
  pub marshal : ChargePaymentRequest → Err ⊎ Content
  pub new_request : Content → Err ⊎ Request Content
  pub decode : Response → Err ⊎ ChargePaymentResponse

module _ (rt : Runtime) {Time Client Content : Type 0} (via : Services Time Client Content) where
  open via use {
    status_text, trimmed_text, parse_time, time_sub, canonical, error_text, url_text,
    default_client, send, digest, marshal, new_request, decode,
  }

  abbrev pub with_content_type : Err ⊎ Request Content → Err ⊎ Request Content
  with_content_type (inl err) = inl (wrap_error "build http request" err)
  with_content_type (inr req) =
      inr (record req { header = set canonical req.header "Content-Type" "application/json" })

  abbrev pub request_for : Err ⊎ Content → Err ⊎ Request Content
  request_for (inl err) = inl (wrap_error "marshal request" err)
  request_for (inr body) = with_content_type (new_request body)

  unfoldable pub build_charge_request : ChargePaymentRequest → Err ⊎ Request Content
  build_charge_request req = request_for (marshal req)

  -- DefaultHTTPClient
  abbrev pub default_http_client : HttpClient Client
  default_http_client = record {
    client = some default_client;
    idempotency_header = default_idempotency_header;
  }

  abbrev pub failure :
      (message : Err → String) (type_name : String) (non_retryable : Bool) → Err → Err
  failure message type_name non_retryable err =
      application_error
        (record {
          message = message err;
          type_name = type_name;
          non_retryable = non_retryable;
          next_retry_delay = pos 0;
          details = [];
        })
        err

  abbrev pub decoded : Err ⊎ ChargePaymentResponse → Err ⊎ ChargePaymentResponse
  decoded (inl err) = inl (
      failure (λ e. error_text (wrap_error "decode response" e)) "DecodeResponse"
        (matches is_json_unmarshal_type err) err)
  decoded (inr out) = inr out

  abbrev pub unless_rejected : Option Err → Response → Err ⊎ ChargePaymentResponse
  unless_rejected (some err) resp = inl err
  unless_rejected none resp = decoded (decode resp)

  -- From the result of Do.
  abbrev pub with_response :
      Option (ActivityInfo rt.Float) → Time → Err ⊎ Response → Err ⊎ ChargePaymentResponse
  with_response ctx now (inl err) = inl err
  with_response ctx now (inr resp) =
      unless_rejected
        (http_response_error rt status_text trimmed_text parse_time time_sub ctx resp now) resp

  abbrev pub exchange : Option (ActivityInfo rt.Float) → Request Content → Err ⊎ Response
  exchange ctx req =
      (do_request canonical error_text url_text default_client send default_http_client
        (get_idempotency_token digest ctx) req).1

  abbrev pub with_request :
      Option (ActivityInfo rt.Float) → Time → Err ⊎ Request Content → Err ⊎ ChargePaymentResponse
  with_request ctx now (inl err) = inl (failure error_text "BuildRequest" true err)
  with_request ctx now (inr req) = with_response ctx now (exchange ctx req)

  unfoldable pub charge_payment :
      Option (ActivityInfo rt.Float) → Time → ChargePaymentRequest → Err ⊎ ChargePaymentResponse
  charge_payment ctx now req = with_request ctx now (build_charge_request req)
