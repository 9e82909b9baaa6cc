-- ===== src/Examples/ResultsLaws.antt =====
-- What the activities of Examples/Results may return.
use temporal_mistakes.Base.{◌≡◌, ◌≢◌, refl, ◌↔◌, Option, none, some, ◌⊎◌, inl, inr, String, arith}
use temporal_mistakes.Errors.{Err}
use temporal_mistakes.Payments.Purchase.{panics, returns}
use temporal_mistakes.Examples.Results.{
  Result, my_result, partial_result, my_activity, my_activity_partial, Customer, summarized,
  lookup_customer_good,
}

module _ {Input SomeData : Type 0} (no_data : SomeData) (do_work : Input → SomeData × Option Err)
    (text : Err → String) where
  -- The zero value.
  abbrev pub no_result : Result SomeData
  no_result = record { payload = no_data; partial_err = "" }

  my_result_exclusive :
      (r : SomeData × Option Err)
      → ((r.1 ≡ none)
          × (my_result no_data do_work text r ≡ (record { payload = r.0; partial_err = "" }, none)))
        ⊎ ((err : Err) × (r.1 ≡ some err)
            × ((my_result no_data do_work text r).0 ≡ no_result)
            × ((my_result no_data do_work text r).1 ≢ none))
  my_result_exclusive (payload, none) = inl (refl, refl)
  my_result_exclusive (payload, some err) = inr (err, refl, refl, λ e. absurd (ground arith))

  partial_result_iff :
      (r : SomeData × Option Err)
      → ((err : Err) → text err ≢ "")
      → ((partial_result no_data do_work text r).1 ≡ none)
        × ((partial_result no_data do_work text r).0.payload ≡ r.0)
        × (((partial_result no_data do_work text r).0.partial_err ≡ "") ↔ (r.1 ≡ none))
  partial_result_iff (payload, none) worded = (refl, refl, (λ _. refl, λ _. refl))
  partial_result_iff (payload, some err) worded =
      (refl, refl, (λ e. absurd (worded err e), λ e. absurd (ground arith)))

  -- MyActivity returns either what the work gave or an error beside the zero value; MyActivityPartial
  -- returns what the work gave and never an error, and tells by the text whether the work failed, if no
  -- error has an empty text.
  my_activities_exclusive :
      (input : Input)
      → ((err : Err) → text err ≢ "")
      → ((((do_work input).1 ≡ none)
            × (my_activity no_data do_work text input
                ≡ (record { payload = (do_work input).0; partial_err = "" }, none)))
          ⊎ ((err : Err) × ((do_work input).1 ≡ some err)
              × ((my_activity no_data do_work text input).0 ≡ no_result)
              × ((my_activity no_data do_work text input).1 ≢ none)))
        × ((my_activity_partial no_data do_work text input).1 ≡ none)
        × ((my_activity_partial no_data do_work text input).0.payload ≡ (do_work input).0)
        × (((my_activity_partial no_data do_work text input).0.partial_err ≡ "")
            ↔ ((do_work input).1 ≡ none))
  unfolding my_activity my_activity_partial
  my_activities_exclusive input worded =
      let (silent, kept, told) = partial_result_iff (do_work input) worded in
      (my_result_exclusive (do_work input), silent, kept, told)

-- The summary has the customer's fields, and a customer that is missing without an error panics.
lookup_customer_good_cases :
    {Others : Type 0} (get_customer : String → Err ⊎ Option (Customer Others)) (id : String)
    → ((err : Err) × (get_customer id ≡ inl err)
        × (lookup_customer_good get_customer id ≡ returns (inl err)))
      ⊎ (((get_customer id ≡ inr none) × (lookup_customer_good get_customer id ≡ panics))
          ⊎ ((c : Customer Others) × (get_customer id ≡ inr (some c))
              × (lookup_customer_good get_customer id
                  ≡ returns (
                      inr (
                        some (record {
                          id = c.id;
                          subscription_tier = c.subscription_tier;
                          is_active = c.is_active;
                        }))))))
unfolding lookup_customer_good
lookup_customer_good_cases {Others = Others} get_customer id = cases (get_customer id)
  where
    cases :
        (r : Err ⊎ Option (Customer Others))
        → ((err : Err) × (r ≡ inl err) × (summarized get_customer r ≡ returns (inl err)))
          ⊎ (((r ≡ inr none) × (summarized get_customer r ≡ panics))
              ⊎ ((c : Customer Others) × (r ≡ inr (some c))
                  × (summarized get_customer r
                      ≡ returns (
                          inr (
                            some (record {
                              id = c.id;
                              subscription_tier = c.subscription_tier;
                              is_active = c.is_active;
                            }))))))
    cases (inl err) = inl (err, refl, refl)
    cases (inr none) = inr (inl (refl, refl))
    cases (inr (some c)) = inr (inr (c, refl, refl))
