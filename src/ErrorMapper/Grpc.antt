-- ===== src/ErrorMapper/Grpc.antt =====
-- examples/go/errormapperinterceptor/grpcerrormapper/mapper.go. status.FromError and the names of
-- the codes are parameters; `from_error` answers `none` where it is not ok.
use Prim.Native.String
use temporal_mistakes.Base.{
  ℕ, Option, none, some, Bool, true, false, String, List, [], ◌∷◌, ℤ, pos, ltb_ℤ, ◌==◌, any_of,
  if◌then◌else◌,
}
use temporal_mistakes.Errors.{
  Err, Status, StatusDetail, retry_info, other_detail, status_proto, ApplicationError,
  application_error,
}
use temporal_mistakes.ErrorMapper.Chain.{ErrorMapper}

abbrev pub mapper_name : String
mapper_name = "google.golang.org/grpc"

abbrev pub ok_code : ℕ
ok_code = 0

-- InvalidArgument, NotFound, AlreadyExists, FailedPrecondition, OutOfRange, Unauthenticated,
-- PermissionDenied, Unimplemented
abbrev pub non_retryable_codes : List ℕ
non_retryable_codes = 3 ∷ 5 ∷ 6 ∷ 9 ∷ 11 ∷ 16 ∷ 7 ∷ 12 ∷ []

unfoldable pub is_non_retryable_code : ℕ → Bool
is_non_retryable_code code = any_of (λ c. code == c) non_retryable_codes

-- The loop of `retryDelayFromStatus`.
unfoldable pub first_retry_delay : List StatusDetail → ℤ
first_retry_delay [] = pos 0
first_retry_delay (other_detail ∷ ds) = first_retry_delay ds
first_retry_delay (retry_info none ∷ ds) = first_retry_delay ds
first_retry_delay (retry_info (some got) ∷ ds) =
    let rest = first_retry_delay ds in if ltb_ℤ (pos 0) got then got else rest

unfoldable pub retry_delay_from_status : Status → ℤ
retry_delay_from_status st = first_retry_delay st.details

module _ (from_error : Err → Option Status) (code_string : ℕ → String) where
  unfoldable pub status_error : Status → ApplicationError
  status_error st = record {
    message = st.message;
    type_name = String.◌++◌ "grpc." (code_string st.code);
    non_retryable = is_non_retryable_code st.code;
    next_retry_delay =
        if ltb_ℤ (pos 0) (retry_delay_from_status st) then retry_delay_from_status st else pos 0;
    details = status_proto st ∷ [];
  }

  unfoldable pub map_status : Option Status → Err → Option Err × Bool
  map_status none err = (none, false)
  map_status (some st) err =
      if st.code == ok_code
      then (none, false)
      else (some (application_error (status_error st) err), true)

  unfoldable pub map_grpc_error : Err → Option Err × Bool
  map_grpc_error err = map_status (from_error err) err

  -- `Mapper`
  unfoldable pub mapper : ErrorMapper
  mapper = record { name = mapper_name; fn = some map_grpc_error }
