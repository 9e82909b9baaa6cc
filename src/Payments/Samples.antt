-- ===== src/Payments/Samples.antt =====
-- Concrete values of the types of the payment and Kubernetes examples, for tests.
use temporal_mistakes.Base.{ℕ, inl, inr, none, false, [], pos}
use temporal_mistakes.Errors.{Err, node, nil, other}
use temporal_mistakes.Activity.Http.{Response}
use temporal_mistakes.Payments.Charge.{ChargePaymentRequest, ChargePaymentResponse, Services}
use temporal_mistakes.Kubernetes.Jobs.{Jobs}

abbrev pub charge_request : ChargePaymentRequest
charge_request = record { customer_id = "c"; amount_cents = pos 100; currency = "USD" }

abbrev pub charged : ChargePaymentResponse
charged = record { charge_id = "ch"; status = "ok" }

abbrev pub answer : ℕ → Response
answer status_code = record {
  status_code = status_code;
  status = "";
  retry_after = [];
  body = none;
}

abbrev pub unreachable : Err
unreachable = node (other "unreachable") nil

-- A service that accepts every charge.
abbrev pub services : Services ℕ ℕ ℕ
services = record {
  status_text = λ s. "";
  trimmed_text = λ b. "";
  parse_time = λ s. none;
  time_sub = λ a b. pos 0;
  canonical = λ k. k;
  error_text = λ e. "e";
  url_text = λ u. "u";
  default_client = 0;
  send = λ c req. inr (answer 200);
  digest = λ b. "token";
  marshal = λ req. inr 5;
  new_request = λ body. inr (record { header = []; content = body });
  decode = λ resp. inr charged;
}

-- A cluster that no request reaches.
abbrev pub no_cluster : Jobs
no_cluster = record {
  Cluster = Unit;
  Spec = Unit;
  create = λ c namespace name spec. (tt, inl unreachable);
  get = λ c namespace name. inl unreachable;
  is_already_exists = λ err. false;
  uid_of = λ c namespace name. none;
}
