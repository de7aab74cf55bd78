-- ===== src/DataPlane/Functions.antt =====
-- internal/dataplane/functions.go: the CloudFront Functions of a behavior.
use localfront.Base.{false, ◌&&◌, Option, none, some, if◌then◌else◌, ltb, length}
use localfront.Text.{Bytes, codes, is_empty}
use localfront.Text.Map.{StrMap, lookup}
use localfront.Num.{pos, eq_ℤ, format_ℕ}
use localfront.Http.{Header, get, set}
use localfront.Http.Request.{Request}
use localfront.Config.{Distribution, Function}
use localfront.Cffunc.{Context, EventRequest, EventResponse, Event, Result}
use localfront.Cffunc.Asked.{new_request_event, apply_to_request}
use localfront.Cffunc.Answered.{attach_response, http_headers, body_bytes_of}
use localfront.Cffunc.Execution.{Engine, execute}
use localfront.DataPlane.Origin.{Network, OriginResponse}
use localfront.DataPlane.Action.{next, Action, ◌>>=◌, return, fail, or_else_do, panic, missing_part}

-- `functionErrorMessage`
abbrev pub function_error_message : Bytes
function_error_message =
    codes "The CloudFront Function associated with this distribution returned an error."

-- `funcContext`
unfoldable pub func_context : Distribution → Bytes → Bytes → Context
func_context dist request_id event_type = record {
  distribution_domain_name = dist.domain_name;
  distribution_id = dist.id;
  event_type = event_type;
  request_id = request_id;
}

abbrev pub with_length : Header → Bytes → Header
with_length header body =
    if ltb 0 (length body) && is_empty (get header (codes "Content-Length"))
    then set header (codes "Content-Length") (format_ℕ (length body))
    else header

-- `functionResponse`
unfoldable pub function_response : EventResponse → OriginResponse
function_response resp = record {
  status_code = if eq_ℤ resp.status_code (pos 0) then pos 200 else resp.status_code;
  header = with_length (http_headers resp) (body_bytes_of resp);
  body = body_bytes_of resp;
  is_broken = false;
}

-- the changes of `runViewerResponse` to the response
abbrev pub replace_response : Option EventResponse → OriginResponse → OriginResponse
replace_response none resp = resp
replace_response (some answer) resp = record resp {
  status_code = if eq_ℤ answer.status_code (pos 0) then resp.status_code else answer.status_code;
  header = http_headers answer;
}

module _ (net : Network) (eng : Engine) where
  open net use {World}
  open eng use {State, Program}

  -- what a request can change outside of itself
  pub record Env : Type 0 where
    pub world : World
    pub engine : State

  -- `snapshot.lookup`; `funcs` is `none` where the map is nil.
  unfoldable pub lookup_program : Option (StrMap Program) → Option Function → Option Program
  lookup_program none fn = none
  lookup_program (some funcs) none = none
  lookup_program (some funcs) (some fn) = lookup fn.logical_id funcs

  -- `fn.Execute`
  unfoldable pub execute_program : Program → Event → Action Env (Option Result)
  execute_program program event s =
      let done = execute eng s.engine program event in (record s { engine = done.0 }, next done.1)

  -- A request that goes on, and the response that the function answered itself, if it did.
  abbrev pub Decision : Type 0
  Decision = Request × Option OriginResponse

  abbrev pub request_of_result : Option EventRequest → Request → Action Env Decision
  request_of_result none r = panic missing_part
  request_of_result (some req) r = return (apply_to_request req r, none)

  abbrev pub decide : Option EventResponse → Option EventRequest → Request → Action Env Decision
  decide (some resp) req r = return (r, some (function_response resp))
  decide none req r = request_of_result req r

  module _ (out : Header) (funcs : Option (StrMap Program)) (dist : Distribution)
      (request_id : Bytes) where
    -- the 503 of a function that cannot be run or fails
    abbrev pub function_error {ℓ} : {A : Type ℓ} → Request → Action Env A
    function_error r = fail out r (pos 503) request_id function_error_message

    -- `runViewerRequest`
    unfoldable pub run_viewer_request : Option Function → Request → Header → Action Env Decision
    run_viewer_request fn r viewer_headers = do
      program ← or_else_do (lookup_program funcs fn) (function_error r)
      event ←
          or_else_do
            (new_request_event (func_context dist request_id (codes "viewer-request")) r
              viewer_headers)
            (panic missing_part)
      outcome ← execute_program program event
      res ← or_else_do outcome (function_error r)
      decide res.response res.request r

    abbrev pub attached : Option Event → OriginResponse → Option Event
    attached none resp = none
    attached (some event) resp = attach_response event resp.status_code resp.header

    -- `runViewerResponse`
    unfoldable pub run_viewer_response :
        Option Function → Request → Header → OriginResponse → Action Env OriginResponse
    run_viewer_response fn r viewer_headers resp = do
      program ← or_else_do (lookup_program funcs fn) (function_error r)
      event ←
          or_else_do
            (attached
              (new_request_event (func_context dist request_id (codes "viewer-response")) r
                viewer_headers)
              resp)
            (panic missing_part)
      outcome ← execute_program program event
      res ← or_else_do outcome (function_error r)
      return (replace_response res.response resp)
