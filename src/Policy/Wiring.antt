-- ===== src/Policy/Wiring.antt =====
-- examples/go/activitypolicyinterceptor/interceptor.go: `New` and the interceptors that it leads to,
-- each with the next one of its chain.
use temporal_mistakes.Policy.Config.{Options}

pub record ActivityPolicyInterceptor : Type 0 where
  pub opts : Options

unfoldable pub new : Options → ActivityPolicyInterceptor
new opts = record { opts = opts }

pub record ActivityInbound (Next : Type 0) : Type 0 where
  pub next : Next
  pub opts : Options

pub record WorkflowInbound (Next : Type 0) : Type 0 where
  pub next : Next
  pub opts : Options

pub record WorkflowOutbound (Next : Type 0) : Type 0 where
  pub next : Next
  pub opts : Options

pub intercept_activity : {Next : Type 0} → ActivityPolicyInterceptor → Next → ActivityInbound Next
intercept_activity a next = record { next = next; opts = a.opts }

pub intercept_workflow : {Next : Type 0} → ActivityPolicyInterceptor → Next → WorkflowInbound Next
intercept_workflow a next = record { next = next; opts = a.opts }

-- What `Init` hands to the Init of the next interceptor, whose result it returns.
pub init :
    {Next Outbound Result : Type 0}
    → (next_init : Next → WorkflowOutbound Outbound → Result) → WorkflowInbound Next
    → Outbound
    → Result
init next_init w outbound = next_init w.next (record { next = outbound; opts = w.opts })
