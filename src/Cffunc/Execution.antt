-- ===== src/Cffunc/Execution.antt =====
-- `Execute` and `parseResult` of internal/cffunc/runtime.go. The JavaScript engine, the pool of its
-- runtimes and the JSON decoder come in as an `Engine`.
use localfront.Base.{List, Option, none, some, if◌then◌else◌}
use localfront.Text.{Bytes, codes, str_eq}
use localfront.Text.Sort.{has}
use localfront.Cffunc.{EventRequest, EventResponse, Event, Result}

pub record Engine : Type 1 where
  -- the state of the runtimes and of the key-value stores
  pub State : Type 0
  -- a compiled function
  pub Program : Type 0
  -- `JSON.stringify` of what the handler answers to an event; `none` is an error or an exception
  pub run : State → Program → Event → State × Option Bytes
  -- `json.Unmarshal` into a response, into a request, and into a map, of which the keys count
  pub decode_response : Bytes → Option EventResponse
  pub decode_request : Bytes → Option EventRequest
  pub decode_keys : Bytes → Option (List Bytes)

module _ (eng : Engine) where
  open eng use {State, Program, run, decode_response, decode_request, decode_keys}

  abbrev pub response_result : Option EventResponse → Option Result
  response_result none = none
  response_result (some resp) = some (record { request = none; response = some resp })

  abbrev pub request_result : Option EventRequest → Option Result
  request_result none = none
  request_result (some req) = some (record { request = some req; response = none })

  -- `parseResult`
  unfoldable pub parse_result : Bytes → Bytes → Option Result
  parse_result event_type out =
      if str_eq event_type (codes "viewer-response")
      then response_result (decode_response out)
      else elim (decode_keys out) [
        | none ↦ none
        | some keys ↦
            if has (codes "statusCode") keys
            then response_result (decode_response out)
            else request_result (decode_request out)
      ]

  abbrev pub parse_output : Bytes → Option Bytes → Option Result
  parse_output event_type none = none
  parse_output event_type (some out) = parse_result event_type out

  -- `Execute`
  unfoldable pub execute : State → Program → Event → State × Option Result
  execute st program event =
      let done = run st program event in (done.0, parse_output event.context.event_type done.1)
