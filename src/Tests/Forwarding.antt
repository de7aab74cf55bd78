-- ===== src/Tests/Forwarding.antt =====
-- What reaches the origin.
use localfront.Base.{◌≡◌, ◌&&◌, refl, not, [], none, some, filter}
use localfront.Text.{Bytes, codes, split, text_ops}
use localfront.Http.{lookup, http_ops}
use localfront.Behavior.Forward.{
  connection_listed, is_withheld, forwards_header, selects_cloud_front_header, filter_query,
  keeps_param, accepts, normalize_accept_encoding, build_origin_request, forward_ops,
}
use localfront.Text.{str_eq}
use localfront.Base.{◌||◌}
use localfront.Behavior.Forward.Headers.{when_kept, lookup-build_origin_request}
use localfront.Behavior.Forward.Query.{keeps_param_iff, split-filter_query}
use localfront.Behavior.Forward.Encoding.{offer, accepts-normalize_accept_encoding}
use localfront.Tests.Samples.{cache, on_path, request_for}

abbrev query : Bytes
query = codes "page=2&utm=x&size=10"

filter_query_tests :
    (filter_query (some cache) none query ≡ codes "page=2&size=10")
    × (filter_query none none query ≡ [])
    × (filter_query (some cache) none (codes "p%61ge=1") ≡ codes "p%61ge=1")
unfolding forward_ops text_ops
filter_query_tests = (refl, refl, refl)

split-filter_query_example :
    split (filter_query (some cache) none query) b'&'
    ≡ filter (keeps_param (some cache) none) (split query b'&')
split-filter_query_example =
    split-filter_query (some cache) none (keeps_param (some cache) none)
      (keeps_param_iff (some cache) none) query (unfold forward_ops text_ops in cc)

accepts-normalize_accept_encoding_example :
    (normalize_accept_encoding (some cache) none (codes "br, deflate")
      ≡ offer
          (cache.gzip && accepts (codes "br, deflate") (codes "gzip"))
          (cache.brotli && accepts (codes "br, deflate") (codes "br")))
    × (accepts (normalize_accept_encoding (some cache) none (codes "br, deflate")) (codes "deflate")
        ≡ (str_eq (codes "gzip") (codes "deflate")
              && (cache.gzip && accepts (codes "br, deflate") (codes "gzip"))
            || str_eq (codes "br") (codes "deflate")
              && (cache.brotli && accepts (codes "br, deflate") (codes "br"))))
accepts-normalize_accept_encoding_example =
    accepts-normalize_accept_encoding (some cache) none (codes "br, deflate") refl (codes "deflate")
      (cc)

lookup-build_origin_request_example :
    let b = on_path (codes "/api/*") in
    let r = request_for (codes "/api/v1") query in
    lookup (codes "Accept") (build_origin_request b r []).headers
    ≡ when_kept
        (selects_cloud_front_header b.cache_policy b.origin_request_policy (codes "Accept"))
        (lookup (codes "Accept") [])
        (when_kept
          (not (is_withheld (connection_listed r.header) (codes "Accept"))
            && forwards_header b.cache_policy b.origin_request_policy (codes "Accept"))
          (lookup (codes "Accept") r.header)
          none)
lookup-build_origin_request_example =
    lookup-build_origin_request (on_path (codes "/api/*")) (request_for (codes "/api/v1") query) []
      (codes "Accept") (unfold http_ops text_ops in (refl, refl, (refl, refl, (refl, refl, tt)))) tt
      (unfold http_ops text_ops in refl)
