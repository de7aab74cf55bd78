-- ===== src/DataPlane/Origin.antt =====
-- The origin fetches of internal/dataplane/proxy.go and internal/dataplane/s3.go. What is outside of
-- the server, the HTTP transport and the object store, comes in as a `Network`, whose state every
-- call may change.
pub mod Laws
use localfront.Base.{
  ℕ, Bool, true, false, not, ◌||◌, ◌&&◌, List, [], ◌∷◌, ◌++◌, Option, none, some, ◌==◌,
  if◌then◌else◌, any,
}
use localfront.Text.{Bytes, codes, is_empty, str_eq, trim_prefix}
use localfront.Num.{ℤ, pos, eq_ℤ, format_int}
use localfront.Http.{Header, get, set}
use localfront.Http.Request.{Request}
use localfront.Config.{Origin, CustomOrigin, S3Origin, Distribution, Behavior}
use localfront.Behavior.Forward.{OriginRequest}
use localfront.DataPlane.Headers.{
  assign_all, add_always_forwarded_headers, remove_hop_by_hop_headers, set_custom_headers,
  append_x_forwarded_for, add_via,
}

-- `url.URL`, as far as the request to an origin sets it
pub record Url : Type 0 where
  pub scheme : Bytes
  pub host : Bytes
  pub path : Bytes
  pub raw_path : Bytes
  pub raw_query : Bytes

-- `http.Request`, as it goes to a custom origin
pub record OutRequest : Type 0 where
  pub method : Bytes
  pub url : Url
  pub host : Bytes
  pub header : Header
  pub content_length : ℤ
  pub body : Bytes

-- `origin.Request`
pub record S3Request : Type 0 where
  pub bucket : Bytes
  pub key : Bytes
  pub method : Bytes
  pub raw_query : Bytes
  pub headers : Header

-- `originResponse`: `body` is what can be read, and `is_broken` tells whether reading fails behind it.
pub record OriginResponse : Type 0 where
  pub status_code : ℤ
  pub header : Header
  pub body : Bytes
  pub is_broken : Bool

pub record Network : Type 1 where
  pub World : Type 0
  -- whether `http.NewRequestWithContext` accepts the method and the URL
  pub accepts_url : Bytes → Url → Bool
  -- `s.transport.RoundTrip`; `none` is an error
  pub round_trip : World → OutRequest → World × Option OriginResponse
  -- `s.s3.Fetch`; `none` is an error
  pub fetch_object : World → S3Request → World × Option OriginResponse

-- `applyDefaultRootObject` of s3.go
unfoldable pub apply_default_root_object : Bytes → Bytes → Bytes
apply_default_root_object url_path default_root_object =
    if (is_empty url_path || str_eq url_path (codes "/")) && not (is_empty default_root_object)
    then b'/' ∷ default_root_object
    else url_path

-- `s3Key`
unfoldable pub s3_key : Bytes → Bytes → Bytes → Bytes
s3_key origin_path url_path default_root_object =
    trim_prefix (origin_path ++ apply_default_root_object url_path default_root_object) (codes "/")

-- `net.JoinHostPort`
unfoldable pub join_host_port : Bytes → Bytes → Bytes
join_host_port host port =
    if any (λ c. c == b':') host
    then b'[' ∷ (host ++ (codes "]:" ++ port))
    else host ++ (b':' ∷ port)

unfoldable pub origin_scheme : CustomOrigin → Bytes
origin_scheme co =
    if str_eq co.protocol_policy (codes "https-only") then codes "https" else codes "http"

unfoldable pub origin_port : CustomOrigin → ℤ
origin_port co = if str_eq (origin_scheme co) (codes "https") then co.https_port else co.http_port

-- the scheme, and the port unless it is the scheme's own
unfoldable pub origin_hostport : CustomOrigin → Bytes
origin_hostport co =
    let scheme = origin_scheme co in
    let port = origin_port co in
    if str_eq scheme (codes "http") && not (eq_ℤ port (pos 80))
      || str_eq scheme (codes "https") && not (eq_ℤ port (pos 443))
    then join_host_port co.host (format_int port)
    else co.host

-- `outURL` of `fetchCustomOrigin`
unfoldable pub origin_url : Request → Distribution → Origin → CustomOrigin → OriginRequest → Url
origin_url r dist o co req =
    let url_path = apply_default_root_object r.path dist.default_root_object in
    record {
      scheme = origin_scheme co;
      host = origin_hostport co;
      path = o.origin_path ++ url_path;
      raw_path =
          if str_eq url_path r.path && not (is_empty r.raw_path)
          then o.origin_path ++ r.raw_path
          else [];
      raw_query = req.raw_query;
    }

-- The headers that both fetches begin with.
unfoldable pub forwarded_part : Request → OriginRequest → Header
forwarded_part r req =
    remove_hop_by_hop_headers (add_always_forwarded_headers r.header (assign_all req.headers []))

unfoldable pub set_accept_encoding : Bytes → Header → Header
set_accept_encoding [] h = h
set_accept_encoding (c ∷ value) h = set h (codes "Accept-Encoding") (c ∷ value)

-- the headers of `fetchS3Origin`
unfoldable pub s3_headers : Request → Origin → OriginRequest → Header
s3_headers r o req =
    set_custom_headers o.custom_headers
      (set_accept_encoding req.accept_encoding (forwarded_part r req))

-- the headers of `fetchCustomOrigin`
unfoldable pub custom_origin_headers :
    Request → Distribution → Origin → OriginRequest → Bytes → Header
custom_origin_headers r dist o req request_id =
    let custom = s3_headers r o req in
    let forwarded =
      append_x_forwarded_for custom (get r.header (codes "X-Forwarded-For")) r.remote_addr in
    add_via (set forwarded (codes "X-Amz-Cf-Id") request_id) dist.domain_name

-- `out` of `fetchCustomOrigin`
unfoldable pub custom_origin_request :
    Request → Distribution → Origin → CustomOrigin → OriginRequest → Bytes → OutRequest
custom_origin_request r dist o co req request_id = record {
  method = r.method;
  url = origin_url r dist o co req;
  host = if req.forward_host then r.host else co.host;
  header = custom_origin_headers r dist o req request_id;
  content_length = r.content_length;
  body = r.body;
}

-- The request of `fetchS3Origin`
unfoldable pub s3_request : Request → Distribution → Origin → S3Origin → OriginRequest → S3Request
s3_request r dist o s3 req = record {
  bucket = s3.bucket;
  key = s3_key o.origin_path r.path dist.default_root_object;
  method = r.method;
  raw_query = req.raw_query;
  headers = s3_headers r o req;
}
