-- ===== src/DataPlane/Fetch.antt =====
-- `fetchOrigin` and `applyErrorResponse` of internal/dataplane/pipeline.go, and the two fetches that
-- they come down to. Logging is left out, and so are the read timeouts, which are the network's.
pub mod Laws
pub mod Page
pub mod Values
use localfront.Base.{Bool, true, false, List, [], ◌∷◌, Option, none, some, if◌then◌else◌}
use localfront.Text.{Bytes, codes, is_empty}
use localfront.Num.{ℤ, pos, eq_ℤ}
use localfront.Http.{Header}
use localfront.Http.Request.{Request}
use localfront.Config.{Origin, CustomOrigin, S3Origin, Distribution, Behavior, ErrorResponse}
use localfront.Behavior.Select.{select}
use localfront.Behavior.Forward.{OriginRequest, build_origin_request}
use localfront.DataPlane.Headers.{always_forwarded_headers, del_all}
use localfront.DataPlane.ErrorPage.{error_page_header, error_page_body}
use localfront.DataPlane.Origin.{Network, OriginResponse, custom_origin_request, s3_request}

-- `s3UnconfiguredResponse`
unfoldable pub s3_unconfigured_response : OriginResponse
s3_unconfigured_response = record {
  status_code = pos 502;
  header = error_page_header [];
  body = error_page_body (pos 502) [] (
      codes
        "This distribution has an S3 origin, but localfront was started without an S3 store (set --s3-endpoint).");
  is_broken = false;
}

-- `matchErrorResponse`
unfoldable pub match_error_response : List ErrorResponse → ℤ → Option ErrorResponse
match_error_response [] status = none
match_error_response (er ∷ ers) status =
    if eq_ℤ er.error_code status then some er else match_error_response ers status

-- `pageReq` of `applyErrorResponse`
unfoldable pub page_request : Request → ErrorResponse → Request
page_request r er = record r {
  method = codes "GET";
  path = er.response_page_path;
  raw_path = [];
  header = del_all always_forwarded_headers r.header;
  content_length = pos 0;
  body = [];
}

module _ (net : Network) where
  open net use {World, accepts_url, round_trip, fetch_object}

  unfoldable pub fetch_custom_origin :
      World
      → Request
      → Distribution
      → Origin
      → CustomOrigin
      → OriginRequest
      → Bytes
      → World × Option OriginResponse
  fetch_custom_origin w r dist o co req request_id =
      let out = custom_origin_request r dist o co req request_id in
      if accepts_url out.method out.url then round_trip w out else (w, none)

  -- `has_store` tells whether `s.s3` is set.
  unfoldable pub fetch_s3_origin :
      Bool
      → World
      → Request
      → Distribution
      → Origin
      → S3Origin
      → OriginRequest
      → World × Option OriginResponse
  fetch_s3_origin has_store w r dist o s3 req =
      if has_store
      then fetch_object w (s3_request r dist o s3 req)
      else (w, some s3_unconfigured_response)

  fetch_kind :
      Bool
      → World
      → Request
      → Distribution
      → Origin
      → Option CustomOrigin
      → Option S3Origin
      → OriginRequest
      → Bytes
      → World × Option OriginResponse
  fetch_kind has_store w r dist o (some co) s3 req request_id =
      fetch_custom_origin w r dist o co req request_id
  fetch_kind has_store w r dist o none (some s3) req request_id =
      fetch_s3_origin has_store w r dist o s3 req
  fetch_kind has_store w r dist o none none req request_id = (w, none)

  -- `fetchOrigin`
  unfoldable pub fetch_origin :
      Bool
      → World
      → Request
      → Distribution
      → Behavior
      → OriginRequest
      → Bytes
      → World × Option OriginResponse
  unfolding fetch_kind
  fetch_origin has_store w r dist beh req request_id =
      fetch_kind has_store w r dist beh.origin beh.origin.custom beh.origin.s3 req request_id

  abbrev with_status : ℤ → Option OriginResponse → Option OriginResponse
  with_status code none = none
  with_status code (some page) = some (record page { status_code = code })

  -- the request for the page, under the behavior that serves it
  unfoldable pub fetch_page :
      Bool
      → World
      → Request
      → Distribution
      → ErrorResponse
      → Header
      → Bytes
      → World × Option OriginResponse
  fetch_page has_store w r dist er viewer_headers request_id =
      let beh = select dist er.response_page_path in
      let req = build_origin_request beh (page_request r er) viewer_headers in
      fetch_origin has_store w (page_request r er) dist beh req request_id

  apply_matched :
      Bool
      → World
      → Request
      → Distribution
      → Option ErrorResponse
      → OriginResponse
      → Header
      → Bytes
      → World × Option OriginResponse
  apply_matched has_store w r dist none resp viewer_headers request_id = (w, none)
  apply_matched has_store w r dist (some er) resp viewer_headers request_id =
      if is_empty er.response_page_path
      then (w, some (record resp { status_code = er.response_code }))
      else let page = fetch_page has_store w r dist er viewer_headers request_id in
        (page.0, with_status er.response_code page.1)

  -- `applyErrorResponse`: `none` leaves the origin's response as it is.
  unfoldable pub apply_error_response :
      Bool
      → World
      → Request
      → Distribution
      → OriginResponse
      → Header
      → Bytes
      → World × Option OriginResponse
  unfolding apply_matched
  apply_error_response has_store w r dist resp viewer_headers request_id =
      apply_matched has_store w r dist (match_error_response dist.error_responses resp.status_code)
        resp viewer_headers request_id
