-- ===== src/ErrorMapper/Defaults.antt =====
-- examples/go/errormapperinterceptor/interceptor.go: `DefaultMappers`. The text of an error, its
-- Error method, is a parameter.
use temporal_mistakes.Base.{Option, none, some, Bool, true, false, String, List, [], ◌∷◌, pos}
use temporal_mistakes.Errors.{
  Err, node, dns, url, Detail, dns_not_found, transport, application_error, errors_as,
  is_json_unmarshal_type, is_json_syntax, is_dns, is_url, Layer,
}
use temporal_mistakes.ErrorMapper.Chain.{ErrorMapper}

-- `checkError[T]`: the matched value, if there is one.
abbrev pub check_error : (Layer → Bool) → Err → Option Err
check_error = errors_as

module _ (text : Err → String) where
  abbrev pub claim :
      (message type_name : String) (non_retryable : Bool) (details : List Detail) (cause : Err)
      → Option Err × Bool
  claim message type_name non_retryable details cause = (
    some (
        application_error
          (record {
            message = message;
            type_name = type_name;
            non_retryable = non_retryable;
            next_retry_delay = pos 0;
            details = details;
          })
          cause),
    true,
  )

  abbrev pub decline : Option Err × Bool
  decline = (none, false)

  -- The two checks of "encoding/json"; the matched value shadows the original error.
  unfoldable pub json_syntax_case : Option Err → Option Err × Bool
  json_syntax_case (some err) = claim (text err) "json.SyntaxError" true [] err
  json_syntax_case none = decline

  unfoldable pub json_cases : (unmarshal syntax : Option Err) → Option Err × Bool
  json_cases (some err) syntax = claim (text err) "json.UnmarshalTypeError" true [] err
  json_cases none syntax = json_syntax_case syntax

  unfoldable pub map_json : Err → Option Err × Bool
  map_json err =
      json_cases (check_error is_json_unmarshal_type err) (check_error is_json_syntax err)

  unfoldable pub net_case : Option Err → Err → Option Err × Bool
  net_case (some (node (dns d) es)) err =
      claim (text err) "net.DNSError" d.is_not_found (dns_not_found d.name ∷ []) err
  net_case _ err = decline

  unfoldable pub map_net : Err → Option Err × Bool
  map_net err = net_case (check_error is_dns err) err

  unfoldable pub url_case : Option Err → Err → Option Err × Bool
  url_case (some (node (url u) es)) err =
      claim (text err) "url.Error" false (transport u.op u.url ∷ []) err
  url_case _ err = decline

  unfoldable pub map_url : Err → Option Err × Bool
  map_url err = url_case (check_error is_url err) err

  unfoldable pub default_mappers : List ErrorMapper
  default_mappers =
      (record { name = "encoding/json"; fn = some map_json })
      ∷ (record { name = "net"; fn = some map_net })
      ∷ (record { name = "net/url"; fn = some map_url })
      ∷ []
