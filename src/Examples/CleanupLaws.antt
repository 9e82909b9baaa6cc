-- ===== src/Examples/CleanupLaws.antt =====
-- When src/not_using_disconnected_context_for_cleanup/workflow.go refunds, and how.
use temporal_mistakes.Base.{◌≡◌, ◌≢◌, refl, Option, none, some, ◌⊎◌, inl, inr, [], ◌∷◌}
use temporal_mistakes.Base.Text.{concat}
use temporal_mistakes.Errors.{Err}
use temporal_mistakes.Sdk.{ActivityOptions}
use temporal_mistakes.Workflow.Children.{
  abandon, ChildStart, Contexts, IsDisconnecting, start_disconnected_child_workflow,
}
use temporal_mistakes.Examples.Cleanup.{
  PurchaseItemRequest, ShipItemRequest, ShipItemResponse, RefundPaymentRequest, activity_options,
  Branch, ship_future, timer, context_done, Purchase, ship_result, after_start, after_select,
  purchase_item_v2,
}

module _ {F : Type 0} (sdk : Contexts RefundPaymentRequest) (deadline_exceeded : Err)
    (ship : ActivityOptions F → ShipItemRequest → Err ⊎ ShipItemResponse) (ctx : sdk.Context)
    (req : PurchaseItemRequest) where
  -- The item is shipped: its tracking ID is returned, and nothing is refunded.
  pub record Ships (branch : Branch) (run : Purchase sdk.Context) : Type 0 where
    pub fired : branch ≡ ship_future
    pub resp : ShipItemResponse
    pub shipped : ship activity_options (record { order_id = req.order_id }) ≡ inr resp
    pub response : run.response ≡ some (record { tracking_id = resp.tracking_id })
    pub err : run.err ≡ none
    pub refund : run.refund ≡ none

  -- The cause `err` for which an item is not shipped.
  pub data Fails (branch : Branch) (err : Err) : Type 0 where
    ship_failed :
        branch ≡ ship_future
        → ship activity_options (record { order_id = req.order_id }) ≡ inl err
        → Fails branch err
    too_late : branch ≡ timer → err ≡ deadline_exceeded → Fails branch err
    canceled : branch ≡ context_done → sdk.err_of ctx ≡ some err → Fails branch err

  -- A refund of the order was started, as a child that outlives the workflow, on a context that is not
  -- canceled; the error is that of the start if it failed, and otherwise the cause, beside a response
  -- without a tracking ID.
  pub record Refunds (branch : Branch) (run : Purchase sdk.Context) : Type 0 where
    pub cause : Err
    pub fails : Fails branch cause
    pub start : ChildStart sdk.Context RefundPaymentRequest
    pub started : run.refund ≡ some start
    pub order : start.request.order_id ≡ req.order_id
    pub customer : start.request.customer_id ≡ req.customer_id
    pub identity : start.options.workflow_id ≡ concat ("refund-" ∷ req.order_id ∷ [])
    pub outlives : start.options.parent_close_policy ≡ abandon
    pub live : sdk.err_of start.context ≡ none
    pub err :
        ((sdk.start_child start.context start.options start.request ≡ none)
          × (run.err ≡ some cause)
          × (run.response ≡ some (record { tracking_id = "" })))
        ⊎ ((e : Err) × (sdk.start_child start.context start.options start.request ≡ some e)
            × (run.err ≡ some e)
            × (run.response ≡ none))

  err_of_start :
      (start : ChildStart sdk.Context RefundPaymentRequest) (cause : Err) (o : Option Err)
      → sdk.start_child start.context start.options start.request ≡ o
      → let run =
          after_start sdk deadline_exceeded ship start (record { tracking_id = "" }) cause o in
        (run.refund ≡ some start)
        × (((sdk.start_child start.context start.options start.request ≡ none)
              × (run.err ≡ some cause)
              × (run.response ≡ some (record { tracking_id = "" })))
            ⊎ ((e : Err) × (sdk.start_child start.context start.options start.request ≡ some e)
                × (run.err ≡ some e)
                × (run.response ≡ none)))
  err_of_start start cause none h = (refl, inl (h, refl, refl))
  err_of_start start cause (some e) h = (refl, inr (e, h, refl, refl))

  refunds :
      (branch : Branch) (cause : Err)
      → IsDisconnecting sdk
      → Fails branch cause
      → Refunds branch (
          after_select sdk deadline_exceeded ship ctx req
            (record { tracking_id = "" })
            (some cause))
  unfolding start_disconnected_child_workflow
  refunds branch cause live fails =
      let (start, start_err) =
        start_disconnected_child_workflow sdk ctx
          (record { order_id = req.order_id; customer_id = req.customer_id })
          (record {
            workflow_id = concat ("refund-" ∷ req.order_id ∷ []);
            parent_close_policy = abandon;
          }) in
      let (started, err) = err_of_start start cause start_err refl in
      record {
        cause = cause;
        fails = fails;
        start = start;
        started = started;
        order = refl;
        customer = refl;
        identity = refl;
        outlives = refl;
        live = live ctx;
        err = err;
      }

  from_ship :
      (r : Err ⊎ ShipItemResponse)
      → IsDisconnecting sdk
      → ship activity_options (record { order_id = req.order_id }) ≡ r
      → let (resp, err) = ship_result sdk deadline_exceeded ship r in
        let run = after_select sdk deadline_exceeded ship ctx req resp err in
        Ships ship_future run ⊎ Refunds ship_future run
  from_ship (inl err) live e = inr (refunds ship_future err live (ship_failed refl e))
  from_ship (inr resp) live e = inl (record {
    fired = refl;
    resp = resp;
    shipped = e;
    response = refl;
    err = refl;
    refund = refl;
  })

  from_context :
      (o : Option Err)
      → IsDisconnecting sdk
      → sdk.err_of ctx ≡ o
      → o ≢ none
      → Refunds context_done
          (after_select sdk deadline_exceeded ship ctx req (record { tracking_id = "" }) o)
  from_context none live e done = absurd (done refl)
  from_context (some err) live e done = refunds context_done err live (canceled refl e)

  -- Whichever branch fires, that of the context only once this is done: either the item is shipped, its
  -- tracking ID is returned and nothing is refunded, or it is not, and the workflow starts a child
  -- that refunds this order and customer, under an ID of the order, outlives the workflow, and is
  -- started on a context that is not canceled even if that of the workflow is; and the workflow fails
  -- with the error of the start if there is one, and otherwise with the cause, beside which it returns
  -- a response without a tracking ID.
  pub purchase_item_v2_compensates :
      (branch : Branch)
      → IsDisconnecting sdk
      → (branch ≡ context_done → sdk.err_of ctx ≢ none)
      → Ships branch (purchase_item_v2 sdk deadline_exceeded ship ctx req branch)
        ⊎ Refunds branch (purchase_item_v2 sdk deadline_exceeded ship ctx req branch)
  unfolding purchase_item_v2
  purchase_item_v2_compensates ship_future live done =
      from_ship (ship activity_options (record { order_id = req.order_id })) live refl
  purchase_item_v2_compensates timer live done =
      inr (refunds timer deadline_exceeded live (too_late refl refl))
  purchase_item_v2_compensates context_done live done =
      inr (from_context (sdk.err_of ctx) live refl (done refl))
