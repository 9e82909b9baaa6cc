-- ===== src/Errors.antt =====
-- Go's `error` values as trees: an error's own layer, and the errors that its `Unwrap` gives. The
-- layers are the concrete types that the program tells apart. `errors.As` is the standard library's
-- depth-first search.
pub mod Search
use temporal_mistakes.Base.{
  ℕ, Option, none, some, Bool, true, false, String, List, ℤ, if◌then◌else◌,
}

-- The payload at details[0] of a PolicyViolationError.
pub record ViolationDetails : Type 0 where
  pub policies : List String
  pub activity_type : String
  pub workflow_id : String
  pub run_id : String
  pub explanation : String

-- A message in the details of a gRPC status: a google.rpc.RetryInfo, whose delay may be unset, or
-- anything else.
pub data StatusDetail : Type 0 where
  retry_info : Option ℤ → StatusDetail
  other_detail : StatusDetail

pub record Status : Type 0 where
  pub code : ℕ
  pub message : String
  pub details : List StatusDetail

-- What the program puts into the details of an ApplicationError.
pub data Detail : Type 0 where
  violation : ViolationDetails → Detail
  http_transport : (op url reason : String) → Detail
  dns_not_found : (name : String) → Detail
  transport : (op url : String) → Detail
  status_proto : Status → Detail
  min_timeout : String → Detail

-- *temporal.ApplicationError, its cause aside.
pub record ApplicationError : Type 0 where
  pub message : String
  pub type_name : String
  pub non_retryable : Bool
  pub next_retry_delay : ℤ
  pub details : List Detail

-- *net.DNSError
pub record DnsError : Type 0 where
  pub name : String
  pub is_not_found : Bool

-- *url.Error; `timeout` is what its Timeout method answers
pub record UrlError : Type 0 where
  pub op : String
  pub url : String
  pub timeout : Bool

pub data Layer : Type 0 where
  application : ApplicationError → Layer
  canceled timed_out terminated : Layer
  json_unmarshal_type json_syntax : Layer
  dns : DnsError → Layer
  url : UrlError → Layer
  grpc_status : Status → Layer
  other : String → Layer

mutual
  pub data Err : Type 0 where
    node : Layer → Errs → Err

  pub data Errs : Type 0 where
    nil : Errs
    cons : Err → Errs → Errs

abbrev pub layer : Err → Layer
layer (node l es) = l

abbrev pub first_some : Option Err → Option Err → Option Err
first_some (some e) o = some e
first_some none o = o

-- errors.As: the first error of the tree whose own layer has the type.
unfoldable mutual
  pub errors_as : (Layer → Bool) → Err → Option Err
  errors_as p (node l es) = if p l then some (node l es) else errors_as_any p es

  pub errors_as_any : (Layer → Bool) → Errs → Option Err
  errors_as_any p nil = none
  errors_as_any p (cons e es) = first_some (errors_as p e) (errors_as_any p es)

abbrev pub matches : (Layer → Bool) → Err → Bool
matches p e = elim (errors_as p e) [ some _ ↦ true | none ↦ false ]

abbrev pub is_application : Layer → Bool
is_application (application _) = true
is_application _ = false

abbrev pub is_canceled : Layer → Bool
is_canceled canceled = true
is_canceled _ = false

abbrev pub is_timeout : Layer → Bool
is_timeout timed_out = true
is_timeout _ = false

abbrev pub is_terminated : Layer → Bool
is_terminated terminated = true
is_terminated _ = false

abbrev pub is_json_unmarshal_type : Layer → Bool
is_json_unmarshal_type json_unmarshal_type = true
is_json_unmarshal_type _ = false

abbrev pub is_json_syntax : Layer → Bool
is_json_syntax json_syntax = true
is_json_syntax _ = false

abbrev pub is_dns : Layer → Bool
is_dns (dns _) = true
is_dns _ = false

abbrev pub is_url : Layer → Bool
is_url (url _) = true
is_url _ = false

-- temporal.NewApplicationErrorWithOptions with a cause, and without one.
abbrev pub application_error : ApplicationError → Err → Err
application_error a cause = node (application a) (cons cause nil)

abbrev pub application_error_only : ApplicationError → Err
application_error_only a = node (application a) nil
