-- ===== src/Tests/Origins.antt =====
-- Origin fetches over a network that answers every request with the same page and counts them.
use localfront.Base.{
  ◌++◌, ℕ, suc, ◌≡◌, refl, true, false, ◌||◌, [], ◌∷◌, none, some, any, if◌then◌else◌,
}
use localfront.Text.{codes, text_ops}
use localfront.Num.{pos, num_ops}
use localfront.Http.{Header, values, get, http_ops}
use localfront.Http.Laws.{same_name}
use localfront.Http.Request.{Request}
use localfront.Config.{Distribution, ErrorResponse, CustomOrigin}
use localfront.Behavior.Select.{select, select_from}
use localfront.Behavior.Forward.{OriginRequest}
use localfront.DataPlane.Headers.{
  trim_string, connection_options, remove_hop_by_hop_headers, hop_by_hop_headers, del_all,
}
use localfront.DataPlane.Headers.Laws.{
  hop_by_hop_names, lists_name, values-remove_hop_by_hop_headers,
}
use localfront.DataPlane.Origin.{
  Network, OriginResponse, s3_key, apply_default_root_object, origin_hostport, origin_scheme,
  origin_port, join_host_port, custom_origin_headers, s3_headers,
}
use localfront.DataPlane.Origin.Laws.{listed_behind, viewer_address, custom_origin_headers-own}
use localfront.DataPlane.Fetch.{
  match_error_response, fetch_custom_origin, fetch_origin, fetch_page, apply_error_response,
}
use localfront.DataPlane.Fetch.Laws.{Applies, apply_error_response-Applies}
use localfront.Tests.Samples.{shop, web, request_for}

s3_key_tests :
    (s3_key [] (codes "/") (codes "index.html") ≡ codes "index.html")
    × (s3_key (codes "/site") (codes "/a/") (codes "index.html") ≡ codes "site/a/")
    × (s3_key [] (codes "/") [] ≡ [])
unfolding s3_key apply_default_root_object text_ops
s3_key_tests = (refl, refl, refl)

abbrev secure : CustomOrigin
secure = record {
  host = codes "web.internal";
  http_port = pos 80;
  https_port = pos 8443;
  protocol_policy = codes "https-only";
  read_timeout = pos 0;
  keepalive_timeout = pos 0;
}

origin_hostport_tests : origin_hostport secure ≡ codes "web.internal:8443"
unfolding origin_hostport origin_scheme origin_port join_host_port text_ops num_ops
origin_hostport_tests = refl

abbrev chained : Header
chained =
    (codes "Connection", codes "close, X-Hop" ∷ [])
    ∷ (codes "X-Hop", codes "1" ∷ [])
    ∷ (codes "Te", codes "gzip" ∷ [])
    ∷ []

values-remove_hop_by_hop_headers_example :
    values (remove_hop_by_hop_headers chained) (codes "x-hop") ≡ (
      if any (λ n. same_name n (codes "x-hop")) hop_by_hop_names
        || lists_name (get chained (codes "Connection")) (codes "x-hop")
      then []
      else values chained (codes "x-hop"))
values-remove_hop_by_hop_headers_example = values-remove_hop_by_hop_headers chained (codes "x-hop")

remove_hop_by_hop_tests :
    (values (remove_hop_by_hop_headers chained) (codes "X-Hop") ≡ [])
    × (values (remove_hop_by_hop_headers chained) (codes "Te") ≡ [])
unfolding remove_hop_by_hop_headers connection_options trim_string del_all hop_by_hop_headers
    http_ops text_ops
remove_hop_by_hop_tests = (refl, refl)

abbrev viewer : Request
viewer = request_for (codes "/api/v1") []

abbrev forwarded : OriginRequest
forwarded = record {
  headers = (codes "Accept", codes "text/html" ∷ []) ∷ [];
  raw_query = [];
  accept_encoding = codes "gzip";
  forward_host = false;
}

custom_origin_headers-own_example :
    (values (custom_origin_headers viewer shop web forwarded (codes "id1")) (codes "X-Amz-Cf-Id")
      ≡ codes "id1" ∷ [])
    × (values
          (custom_origin_headers viewer shop web forwarded (codes "id1"))
          (codes "X-Forwarded-For")
        ≡ listed_behind
            (get viewer.header (codes "X-Forwarded-For"))
            (viewer_address viewer.remote_addr)
          ∷ [])
    × (values (custom_origin_headers viewer shop web forwarded (codes "id1")) (codes "Via")
        ≡ listed_behind
            (get (s3_headers viewer web forwarded) (codes "Via"))
            (codes "1.1 " ++ (shop.domain_name ++ codes " (CloudFront)"))
          ∷ [])
custom_origin_headers-own_example =
    custom_origin_headers-own viewer shop web forwarded (codes "id1")

abbrev page : OriginResponse
page = record { status_code = pos 200; header = []; body = codes "<p>"; is_broken = false }

abbrev missing : OriginResponse
missing = record { status_code = pos 404; header = []; body = []; is_broken = false }

abbrev pub counting : Network
counting = record {
  World = ℕ;
  accepts_url = λ m url. true;
  round_trip = λ w out. (suc w, some page);
  fetch_object = λ w req. (suc w, none);
}

abbrev spa : Distribution
spa = record shop {
  behaviors = [];
  error_responses =
      record { error_code = pos 403; response_code = pos 200; response_page_path = [] }
      ∷ record {
        error_code = pos 404;
        response_code = pos 203;
        response_page_path = codes "/index.html";
      }
      ∷ [];
}

apply_error_response_tests :
    apply_error_response counting true 0 viewer spa missing [] (codes "id1") ≡ (
      1,
      some (record { status_code = pos 203; header = []; body = codes "<p>"; is_broken = false }),
    )
unfolding apply_error_response match_error_response fetch_page fetch_origin fetch_custom_origin
    select select_from text_ops
apply_error_response_tests = refl

apply_error_response-Applies_example :
    (er : ErrorResponse) × Applies missing.status_code spa.error_responses er
    × (pos 203 ≡ er.response_code)
apply_error_response-Applies_example =
    apply_error_response-Applies counting true 0 viewer spa missing
      (record { status_code = pos 203; header = []; body = codes "<p>"; is_broken = false }) []
      (codes "id1")
      (unfold apply_error_response match_error_response fetch_page fetch_origin fetch_custom_origin
          select select_from text_ops in
        refl)

abbrev ranged : Request
ranged = record viewer { header = (codes "Range", codes "bytes=0-9" ∷ []) ∷ viewer.header }

abbrev not_found : ErrorResponse
not_found = record {
  error_code = pos 404;
  response_code = pos 203;
  response_page_path = codes "/index.html";
}
