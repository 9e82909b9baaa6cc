-- ===== src/Examples/Results.antt =====
-- What activities of the short examples return: src/returning_both_payload_and_error/activity.go,
-- src/passing_too_much_information_from_activities/activity.go and
-- src/performing_network_calls_in_workflow_code/workflow.go. The database, the network and the
-- execution of activities are parameters.
use temporal_mistakes.Base.{Option, none, some, Bool, ◌⊎◌, inl, inr, String, List, [], ◌∷◌}
use temporal_mistakes.Errors.{Err, node, other, cons, nil}
use temporal_mistakes.Payments.Purchase.{Call, panics, returns}
use temporal_mistakes.Examples.Short.{error_of}

-- `Result` of returning_both_payload_and_error.
pub record Result (SomeData : Type 0) : Type 0 where
  pub payload : SomeData
  pub partial_err : String

-- `no_data` is the zero value, which doWork may return beside an error. A Go pair of a result and an
-- error is a pair.
module _ {Input SomeData : Type 0} (no_data : SomeData) (do_work : Input → SomeData × Option Err)
    (text : Err → String) where
  abbrev pub my_result : SomeData × Option Err → Result SomeData × Option Err
  my_result (payload, some err) = (
    record { payload = no_data; partial_err = "" },
    some (node (other "failed to process") (cons err nil)),
  )
  my_result (payload, none) = (record { payload = payload; partial_err = "" }, none)

  unfoldable pub my_activity : Input → Result SomeData × Option Err
  my_activity input = my_result (do_work input)

  abbrev pub partial_result : SomeData × Option Err → Result SomeData × Option Err
  partial_result (payload, some err) = (record { payload = payload; partial_err = text err }, none)
  partial_result (payload, none) = (record { payload = payload; partial_err = "" }, none)

  unfoldable pub my_activity_partial : Input → Result SomeData × Option Err
  my_activity_partial input = partial_result (do_work input)

-- `Customer`, with its other fields.
pub record Customer (Others : Type 0) : Type 0 where
  pub id : String
  pub subscription_tier : String
  pub is_active : Bool
  pub others : Others

pub record CustomerSummary : Type 0 where
  pub id : String
  pub subscription_tier : String
  pub is_active : Bool

-- A nil pointer is `none`.
module _ {Others : Type 0} (get_customer : String → Err ⊎ Option (Customer Others)) where
  unfoldable pub lookup_customer_bad : String → Err ⊎ Option (Customer Others)
  lookup_customer_bad customer_id = get_customer customer_id

  abbrev pub summarized : Err ⊎ Option (Customer Others) → Call (Err ⊎ Option CustomerSummary)
  summarized (inl err) = returns (inl err)
  summarized (inr none) = panics
  summarized (inr (some customer)) = returns (
      inr (
        some (record {
          id = customer.id;
          subscription_tier = customer.subscription_tier;
          is_active = customer.is_active;
        })))

  unfoldable pub lookup_customer_good : String → Call (Err ⊎ Option CustomerSummary)
  lookup_customer_good customer_id = summarized (get_customer customer_id)

-- `Config`
pub record Config : Type 0 where
  pub region : String

-- `decode` is json.NewDecoder on the body of a response.
module _ {Response : Type 0} (decode : Response → Err ⊎ Config) where
  -- The bodies that are closed, and the result.
  abbrev pub fetched : Err ⊎ Response → List Response × (Err ⊎ Config)
  fetched (inl err) = ([], inl err)
  fetched (inr resp) = (resp ∷ [], decode resp)

  -- `FetchConfigActivity`, from what http.Get gives.
  unfoldable pub fetch_config_activity : Err ⊎ Response → List Response × (Err ⊎ Config)
  fetch_config_activity got = fetched got

-- `MyWorkflowV1` and `MyWorkflowV2` of performing_network_calls_in_workflow_code: the first makes the
-- request itself, and drops what it gives.
unfoldable pub requesting_workflow : {Response : Type 0} → Err ⊎ Response → Option Err
requesting_workflow got = none

unfoldable pub fetching_workflow : (fetch : Err ⊎ Config) → Option Err
fetching_workflow fetch = error_of fetch
