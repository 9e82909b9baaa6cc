-- ===== src/Examples/Cleanup.antt =====
-- src/not_using_disconnected_context_for_cleanup/workflow.go, from the branch that the selector
-- takes. The execution of activities and the deadline error of the SDK are parameters.
use temporal_mistakes.Base.{Option, none, some, ◌⊎◌, inl, inr, String, [], ◌∷◌}
use temporal_mistakes.Base.Text.{concat}
use temporal_mistakes.Errors.{Err}
use temporal_mistakes.Sdk.{ActivityOptions, zero_options, hour}
use temporal_mistakes.Base.{pos}
use temporal_mistakes.Workflow.Children.{
  unspecified, ChildStart, Contexts, start_disconnected_child_workflow,
}

pub record PurchaseItemRequest : Type 0 where
  pub order_id : String
  pub customer_id : String

pub record PurchaseItemResponse : Type 0 where
  pub tracking_id : String

pub record ShipItemRequest : Type 0 where
  pub order_id : String

pub record ShipItemResponse : Type 0 where
  pub tracking_id : String

pub record RefundPaymentRequest : Type 0 where
  pub order_id : String
  pub customer_id : String

pub record RefundRequest : Type 0 where
  pub order_id : String

-- The options of every activity of the file.
abbrev pub activity_options : {F : Type 0} → ActivityOptions F
activity_options = record zero_options {
  start_to_close_timeout = pos 30_000_000_000;
  schedule_to_close_timeout = hour;
}

-- `RefundPayment`; `none` is its response.
unfoldable pub refund_payment :
    {F : Type 0}
    → (refund : ActivityOptions F → RefundRequest → Option Err) → RefundPaymentRequest
    → Option Err
refund_payment refund req = refund activity_options (record { order_id = req.order_id })

module _ {F : Type 0} (ship : ActivityOptions F → ShipItemRequest → Err ⊎ ShipItemResponse) where
  abbrev shipped_response : Err ⊎ ShipItemResponse → Err ⊎ PurchaseItemResponse
  shipped_response (inl err) = inl err
  shipped_response (inr resp) = inr (record { tracking_id = resp.tracking_id })

  unfoldable pub purchase_item_v1 : PurchaseItemRequest → Err ⊎ PurchaseItemResponse
  purchase_item_v1 req =
      shipped_response (ship activity_options (record { order_id = req.order_id }))

-- The branch of the selector that fires.
pub data Branch : Type 0 where
  ship_future : Branch
  timer : Branch
  context_done : Branch

-- What `PurchaseItemV2` leaves: the refund it started if any, and its two results.
pub record Purchase (Context : Type 0) : Type 0 where
  pub refund : Option (ChildStart Context RefundPaymentRequest)
  pub response : Option PurchaseItemResponse
  pub err : Option Err

module _ {F : Type 0} (sdk : Contexts RefundPaymentRequest) (deadline_exceeded : Err)
    (ship : ActivityOptions F → ShipItemRequest → Err ⊎ ShipItemResponse) where
  -- `shipResp` and `err` after the Get of the future.
  abbrev pub ship_result : Err ⊎ ShipItemResponse → ShipItemResponse × Option Err
  ship_result (inl err) = (record { tracking_id = "" }, some err)
  ship_result (inr resp) = (resp, none)

  -- `shipResp` and `err` after the select.
  abbrev pub select : sdk.Context → PurchaseItemRequest → Branch → ShipItemResponse × Option Err
  select ctx req ship_future =
      ship_result (ship activity_options (record { order_id = req.order_id }))
  select ctx req timer = (record { tracking_id = "" }, some deadline_exceeded)
  select ctx req context_done = (record { tracking_id = "" }, sdk.err_of ctx)

  -- The returns after the refund, by the error of its start.
  abbrev pub after_start :
      ChildStart sdk.Context RefundPaymentRequest
      → ShipItemResponse
      → Err
      → Option Err
      → Purchase sdk.Context
  after_start start ship_resp err (some start_err) = record {
    refund = some start;
    response = none;
    err = some start_err;
  }
  after_start start ship_resp err none = record {
    refund = some start;
    response = some (record { tracking_id = ship_resp.tracking_id });
    err = some err;
  }

  abbrev pub after_select :
      sdk.Context → PurchaseItemRequest → ShipItemResponse → Option Err → Purchase sdk.Context
  after_select ctx req ship_resp none = record {
    refund = none;
    response = some (record { tracking_id = ship_resp.tracking_id });
    err = none;
  }
  after_select ctx req ship_resp (some err) =
      let (start, start_err) =
        start_disconnected_child_workflow sdk ctx
          (record { order_id = req.order_id; customer_id = req.customer_id })
          (record {
            workflow_id = concat ("refund-" ∷ req.order_id ∷ []);
            parent_close_policy = unspecified;
          }) in
      after_start start ship_resp err start_err

  unfoldable pub purchase_item_v2 :
      sdk.Context → PurchaseItemRequest → Branch → Purchase sdk.Context
  purchase_item_v2 ctx req branch =
      let (ship_resp, err) = select ctx req branch in after_select ctx req ship_resp err
