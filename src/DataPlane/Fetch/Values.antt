-- ===== src/DataPlane/Fetch/Values.antt =====
-- The responses that the pipeline holds have a value for each header.
use localfront.Base.{Bool, true, false, [], Option, none, some, if◌then◌else◌}
use localfront.Text.{Bytes, is_empty}
use localfront.Num.{ℤ}
use localfront.Http.{Header}
use localfront.Http.Filled.{Filled, Filled-set}
use localfront.Http.Request.{Request}
use localfront.Config.{Distribution, Behavior, Origin, CustomOrigin, S3Origin, ErrorResponse}
use localfront.Behavior.Select.{select}
use localfront.Behavior.Forward.{OriginRequest}
use localfront.DataPlane.ErrorPage.{error_page_header}
use localfront.DataPlane.Origin.{
  Network, OriginResponse, OutRequest, S3Request, custom_origin_request, s3_request,
}
use localfront.DataPlane.Fetch.{
  fetch_custom_origin, fetch_s3_origin, fetch_kind, fetch_origin, with_status, fetch_page,
  apply_matched, apply_error_response, s3_unconfigured_response, page_request,
}

-- the response, if there is one, has a value for each header
abbrev pub FilledResponse : Option OriginResponse → Type 0
FilledResponse none = Unit
FilledResponse (some resp) = Filled resp.header

FilledResponse-with_status :
    (code : ℤ) (net : Network) (o : Option OriginResponse)
    → FilledResponse o
    → FilledResponse (with_status net code o)
FilledResponse-with_status code net none f = f
FilledResponse-with_status code net (some page) f = f

module _ (net : Network) where
  -- The documented behaviour of the transport and of the object store: a header that comes in has a
  -- value.
  pub record SendsValues : Type 0 where
    pub transport : (w : net.World) (out : OutRequest) → FilledResponse (net.round_trip w out).1
    pub store : (w : net.World) (q : S3Request) → FilledResponse (net.fetch_object w q).1

  module _ (sends : SendsValues) (has_store : Bool) where
    FilledResponse-if :
        (b : Bool) (x y : net.World × Option OriginResponse)
        → FilledResponse x.1
        → FilledResponse y.1
        → FilledResponse (if b then x else y).1
    FilledResponse-if true x y f g = f
    FilledResponse-if false x y f g = g

    Filled-s3_unconfigured_response : Filled s3_unconfigured_response.header
    unfolding s3_unconfigured_response error_page_header
    Filled-s3_unconfigured_response =
        Filled-set _ _ _ (Filled-set _ _ _ (Filled-set _ _ _ (Filled-set [] _ _ tt)))

    FilledResponse-fetch_kind :
        (w : net.World) (r : Request) (dist : Distribution) (og : Origin) (co : Option CustomOrigin)
        (s3 : Option S3Origin) (req : OriginRequest) (id : Bytes)
        → FilledResponse (fetch_kind net has_store w r dist og co s3 req id).1
    unfolding fetch_kind fetch_custom_origin fetch_s3_origin
    FilledResponse-fetch_kind w r dist og (some co) s3 req id =
        let out = custom_origin_request r dist og co req id in
        FilledResponse-if (net.accepts_url out.method out.url) (net.round_trip w out) (w, none)
          (sends.transport w out) tt
    FilledResponse-fetch_kind w r dist og none (some s3) req id =
        FilledResponse-if has_store (net.fetch_object w (s3_request r dist og s3 req))
          (w, some s3_unconfigured_response) (sends.store w _) Filled-s3_unconfigured_response
    FilledResponse-fetch_kind w r dist og none none req id = tt

    pub FilledResponse-fetch_origin :
        (w : net.World) (r : Request) (dist : Distribution) (beh : Behavior) (req : OriginRequest)
        (id : Bytes)
        → FilledResponse (fetch_origin net has_store w r dist beh req id).1
    unfolding fetch_origin
    FilledResponse-fetch_origin w r dist beh req id =
        FilledResponse-fetch_kind w r dist beh.origin beh.origin.custom beh.origin.s3 req id

    FilledResponse-fetch_page :
        (w : net.World) (r : Request) (dist : Distribution) (er : ErrorResponse) (vh : Header)
        (id : Bytes)
        → FilledResponse (fetch_page net has_store w r dist er vh id).1
    unfolding fetch_page
    FilledResponse-fetch_page w r dist er vh id =
        FilledResponse-fetch_origin w (page_request r er) dist (select dist er.response_page_path) _
          id

    FilledResponse-apply_matched :
        (w : net.World) (r : Request) (dist : Distribution) (er : Option ErrorResponse)
        (resp : OriginResponse) (vh : Header) (id : Bytes)
        → Filled resp.header
        → FilledResponse (apply_matched net has_store w r dist er resp vh id).1
    unfolding apply_matched
    FilledResponse-apply_matched w r dist none resp vh id f = tt
    FilledResponse-apply_matched w r dist (some er) resp vh id f =
        FilledResponse-if (is_empty er.response_page_path) _ _ f (
          FilledResponse-with_status er.response_code net _
            (FilledResponse-fetch_page w r dist er vh id))

    pub FilledResponse-apply_error_response :
        (w : net.World) (r : Request) (dist : Distribution) (resp : OriginResponse) (vh : Header)
        (id : Bytes)
        → Filled resp.header
        → FilledResponse (apply_error_response net has_store w r dist resp vh id).1
    unfolding apply_error_response
    FilledResponse-apply_error_response w r dist resp vh id f =
        FilledResponse-apply_matched w r dist _ resp vh id f
