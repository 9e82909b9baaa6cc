-- ===== src/ErrorMapper/Chain.antt =====
-- examples/go/errormapperinterceptor/interceptor.go: `ErrorMapper`, `isNativeTemporalError` and the
-- interceptor's `ExecuteActivity`. A Go pair (error, bool) is a pair; a nil error is `none`.
use temporal_mistakes.Base.{
  Option, none, some, Bool, false, ◌||◌, String, List, [], ◌∷◌, if◌then◌else◌,
}
use temporal_mistakes.Errors.{Err, matches, is_application, is_canceled, is_timeout, is_terminated}

-- `mapperFunc`, what NewErrorMapper makes; `none` is a nil fn.
pub record ErrorMapper : Type 0 where
  pub name : String
  pub fn : Option (Err → Option Err × Bool)

abbrev apply_fn : Option (Err → Option Err × Bool) → Err → Option Err × Bool
apply_fn none err = (none, false)
apply_fn (some fn) err = fn err

unfoldable pub map_error : ErrorMapper → Err → Option Err × Bool
map_error m err = apply_fn m.fn err

pub record Options : Type 0 where
  pub mappers : List ErrorMapper

unfoldable pub is_native_temporal_error : Err → Bool
is_native_temporal_error err =
    matches is_application err
    || (matches is_canceled err || (matches is_timeout err || matches is_terminated err))

-- The loop over the mappers, for an error that is not native.
unfoldable pub rewrite_error : List ErrorMapper → Err → Option Err
rewrite_error [] err = some err
rewrite_error (m ∷ ms) err =
    let rest = rewrite_error ms err in if (map_error m err).1 then (map_error m err).0 else rest

module _ {Output : Type 0} where
  abbrev finish : Options → Output → Option Err → Output × Option Err
  finish o out none = (out, none)
  finish o out (some err) =
      if is_native_temporal_error err then (out, some err) else (out, rewrite_error o.mappers err)

  -- `activityInbound.ExecuteActivity`, from what the next interceptor returns.
  unfoldable pub execute_activity : Options → Output × Option Err → Output × Option Err
  execute_activity o (out, err) = finish o out err
