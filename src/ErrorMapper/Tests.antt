-- ===== src/ErrorMapper/Tests.antt =====
-- The theorems about examples/go/errormapperinterceptor at concrete errors.
use temporal_mistakes.Base.{
  inr, ℕ, ◌≡◌, refl, ◌↔◌, ◌⊎◌, Option, none, some, true, String, [], ◌∷◌, pos, arith,
}
use temporal_mistakes.Errors.{
  Err, node, nil, cons, Status, retry_info, other_detail, canceled, json_syntax, other, grpc_status,
  errors_as,
}
use temporal_mistakes.Activity.Statuses.{verdict, delay_of}
use temporal_mistakes.ErrorMapper.Chain.{map_error, Options, execute_activity}
use temporal_mistakes.ErrorMapper.ChainLaws.{
  IsNative, IsFirstClaim, AllDecline, execute_activity-twice, execute_activity-IsFirstClaim,
}
use temporal_mistakes.ErrorMapper.Defaults.{default_mappers, map_json}
use temporal_mistakes.ErrorMapper.DefaultLaws.{map_json-wrapped}
use temporal_mistakes.ErrorMapper.Grpc.{map_grpc_error}
use temporal_mistakes.ErrorMapper.GrpcLaws.{IsClientError, DelayFound, map_grpc_error_result}

abbrev text : Err → String
text e = "text"

abbrev defaults : Options
defaults = record { mappers = default_mappers text }

abbrev output : ℕ
output = 7

-- An error of the caller's own around a cancellation, and around a JSON syntax error.
abbrev wrapped_cancel : Err
wrapped_cancel = node (other "wrapped") (cons (node canceled nil) nil)

abbrev bad_json : Err
bad_json = node json_syntax nil

abbrev wrapped_json : Err
wrapped_json = node (other "wrapped") (cons bad_json nil)

-- A mapper that claims every error.
abbrev claim_all : Options
claim_all = record {
  mappers = (record { name = "all"; fn = some (λ err. (some wrapped_cancel, true)) }) ∷ [];
}

execute_activity-twice_example :
    execute_activity claim_all (execute_activity claim_all (output, some wrapped_json))
    ≡ execute_activity claim_all (output, some wrapped_json)
unfolding errors_as map_error
execute_activity-twice_example =
    execute_activity-twice claim_all (output, some wrapped_json)
      ((λ e. inr (wrapped_cancel, refl, ground arith)), tt)

not-IsNative_json : ¬ IsNative wrapped_json
unfolding errors_as
not-IsNative_json h = ground arith

execute_activity-IsFirstClaim_example :
    ((mapped : Option Err) × IsFirstClaim defaults.mappers wrapped_json mapped
      × (execute_activity defaults (output, some wrapped_json) ≡ (output, mapped)))
    ⊎ (AllDecline defaults.mappers wrapped_json
        × (execute_activity defaults (output, some wrapped_json) ≡ (output, some wrapped_json)))
execute_activity-IsFirstClaim_example =
    execute_activity-IsFirstClaim defaults output wrapped_json not-IsNative_json

map_json-wrapped_example : map_json text wrapped_json ≡ map_json text bad_json
map_json-wrapped_example = map_json-wrapped text (other "wrapped") bad_json refl refl

-- Unavailable, with a retry hint of zero before one of five.
abbrev unavailable : Status
unavailable = record {
  code = 14;
  message = "m";
  details = other_detail ∷ retry_info (some (pos 0)) ∷ retry_info (some (pos 5)) ∷ [];
}

abbrev from_error : Err → Option Status
from_error (node (grpc_status st) es) = some st
from_error (node _ es) = none

abbrev grpc_error : Err
grpc_error = node (grpc_status unavailable) nil

map_grpc_error_result_example :
    ((verdict (map_grpc_error from_error (λ c. "code") grpc_error).0 ≡ some true)
      ↔ IsClientError 14)
    × DelayFound unavailable.details
        (delay_of (map_grpc_error from_error (λ c. "code") grpc_error).0)
map_grpc_error_result_example =
    map_grpc_error_result from_error (λ c. "code") grpc_error unavailable refl
      (λ e. absurd (omega arith))
