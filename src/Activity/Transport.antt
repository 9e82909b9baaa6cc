-- ===== src/Activity/Transport.antt =====
-- internal/activityhelpers/http.go: `httpClient.Do` and `classifyHTTPTransportError`. The exchange
-- of net/http, the texts of errors and the canonical spelling of header names are parameters.
use text.Mathlib.Text.{◌==◌ as str_eq}
use temporal_mistakes.Base.{
  Option, none, some, Bool, true, false, ◌⊎◌, inl, inr, String, List, [], ◌∷◌, pos, if◌then◌else◌,
}
use temporal_mistakes.Errors.{
  Err, node, url, dns, UrlError, Detail, http_transport, ApplicationError, application_error,
  errors_as, is_url, is_dns,
}

abbrev pub http_transport_error_type : String
http_transport_error_type = "Transport"

-- HTTPTransportErrorDetails
pub record TransportDetails : Type 0 where
  pub op : String
  pub url : String
  pub reason : String

abbrev to_detail : TransportDetails → Detail
to_detail d = http_transport d.op d.url d.reason

abbrev pub found_url : Option Err → Option UrlError
found_url (some (node (url u) es)) = some u
found_url _ = none

-- errors.As(err, &urlErr)
unfoldable pub as_url : Err → Option UrlError
as_url e = found_url (errors_as is_url e)

abbrev pub found_missing : Option Err → Bool
found_missing (some (node (dns d) es)) = d.is_not_found
found_missing _ = false

-- errors.As(err, &dnsErr) && dnsErr.IsNotFound
unfoldable pub is_dns_not_found : Err → Bool
is_dns_not_found e = found_missing (errors_as is_dns e)

-- `text` is the Error method of an error, and `url_text` that of a *url.Error.
module _ (text : Err → String) (url_text : UrlError → String) where
  abbrev transport_error : UrlError → (reason : String) (non_retryable : Bool) → ApplicationError
  transport_error u reason non_retryable = record {
    message = url_text u;
    type_name = http_transport_error_type;
    non_retryable = non_retryable;
    next_retry_delay = pos 0;
    details = to_detail (record { op = u.op; url = u.url; reason = reason }) ∷ [];
  }

  -- The body after `urlErr` is found, or is not.
  unfoldable pub classify_found : Option UrlError → Err → ApplicationError
  classify_found none err = record {
    message = text err;
    type_name = http_transport_error_type;
    non_retryable = false;
    next_retry_delay = pos 0;
    details = [];
  }
  classify_found (some u) err =
      if is_dns_not_found err
      then transport_error u "dns-not-found" true
      else if u.timeout
      then transport_error u "timeout" false
      else transport_error u "transport" false

  unfoldable pub classify_http_transport_error : Err → Err
  classify_http_transport_error err = application_error (classify_found (as_url err) err) err

-- http.Header, whose names are looked up by their canonical spelling.
abbrev pub Header : Type 0
Header = List (String × String)

abbrev pub default_idempotency_header : String
default_idempotency_header = "Idempotency-Key"

unfoldable pub lookup : Header → String → String
lookup [] key = ""
lookup ((name, value) ∷ h) key = let rest = lookup h key in if str_eq name key then value else rest

unfoldable pub remove : Header → String → Header
remove [] key = []
remove ((name, value) ∷ h) key =
    let rest = remove h key in if str_eq name key then rest else (name, value) ∷ rest

module _ (canonical : String → String) where
  -- Header.Get and Header.Set
  unfoldable pub get : Header → String → String
  get h key = lookup h (canonical key)

  unfoldable pub set : Header → String → String → Header
  set h key value = (canonical key, value) ∷ remove h (canonical key)

-- httpClient
pub record HttpClient (Client : Type 0) : Type 0 where
  pub client : Option Client
  pub idempotency_header : String

-- A request: its headers, and the rest, which `Do` leaves alone.
pub record Request (Content : Type 0) : Type 0 where
  pub header : Header
  pub content : Content

unfoldable pub header_name : String → String
header_name name = if str_eq name "" then default_idempotency_header else name

module _ (canonical : String → String) where
  -- The header after the lines that populate it.
  unfoldable pub populate : (token name : String) → Header → Header
  populate token name h =
      if str_eq (get canonical h name) ""
      then (if str_eq token "" then h else set canonical h name token)
      else h

module _ (canonical : String → String) (text : Err → String) (url_text : UrlError → String)
    {Client Content Response : Type 0} (default_client : Client)
    (send : Client → Request Content → Err ⊎ Response) where
  unfoldable pub transport_result : Err ⊎ Response → Err ⊎ Response
  transport_result (inl err) = inl (classify_http_transport_error text url_text err)
  transport_result (inr resp) = inr resp

  abbrev client_or_default : Option Client → Client
  client_or_default (some c) = c
  client_or_default none = default_client

  unfoldable pub prepare : HttpClient Client → (token : String) → Request Content → Request Content
  prepare c token req = record {
    header = populate canonical token (header_name c.idempotency_header) req.header;
    content = req.content;
  }

  -- `Do`: the request as it is left, and its result. `token` is what GetIdempotencyToken answers
  -- for the request's context.
  unfoldable pub do_request :
      HttpClient Client → (token : String) → Request Content → Request Content × (Err ⊎ Response)
  do_request c token req = (
    prepare c token req,
    transport_result (send (client_or_default c.client) (prepare c token req)),
  )
