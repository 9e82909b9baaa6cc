-- ===== src/ErrorMapper/Wiring.antt =====
-- examples/go/errormapperinterceptor/interceptor.go: `New` and `InterceptActivity`.
use temporal_mistakes.ErrorMapper.Chain.{Options}

pub record ErrorMapperInterceptor : Type 0 where
  pub opts : Options

pub new : Options → ErrorMapperInterceptor
new opts = record { opts = opts }

pub record ActivityInbound (Next : Type 0) : Type 0 where
  pub next : Next
  pub opts : Options

pub intercept_activity : {Next : Type 0} → ErrorMapperInterceptor → Next → ActivityInbound Next
intercept_activity i next = record { next = next; opts = i.opts }
