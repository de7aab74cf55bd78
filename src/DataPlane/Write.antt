-- ===== src/DataPlane/Write.antt =====
-- internal/dataplane/write.go: the response that a viewer gets. The encoders of gzip and Brotli come
-- in as a `Compressor`.
pub mod Laws
pub mod Encoded
use localfront.Base.{
  ℕ, Bool, true, false, not, ◌||◌, ◌&&◌, List, [], ◌∷◌, ◌++◌, Option, none, some, if◌then◌else◌,
  any, length,
}
use localfront.Text.{Bytes, codes, str_eq}
use localfront.Num.{ℤ, pos, eq_ℤ, le_ℤ, format_ℕ}
use localfront.Http.{Header, get, set, add, values}
use localfront.Http.Request.{Request}
use localfront.Config.{Distribution, Behavior}
use localfront.Behavior.Compress.{Encoding, identity, gzip, brotli, encoding_name, choose_encoding}
use localfront.DataPlane.Headers.{remove_hop_by_hop_headers, add_via}
use localfront.DataPlane.Origin.{OriginResponse}

pub record ViewerResponse : Type 0 where
  pub status : ℤ
  pub header : Header
  pub body : Bytes

-- What `gzip.Writer` and `brotli.Writer` make of a text; `none` is an error.
pub record Compressor : Type 0 where
  pub gzip_bytes : Bytes → Option Bytes
  pub brotli_bytes : Bytes → Option Bytes

-- `compressBytes`
abbrev pub compress_bytes : Compressor → Encoding → Bytes → Option Bytes
compress_bytes c identity raw = none
compress_bytes c gzip raw = c.gzip_bytes raw
compress_bytes c brotli raw = c.brotli_bytes raw

add_values : Bytes → List Bytes → Header → Header
add_values name [] dst = dst
add_values name (v ∷ vs) dst = add_values name vs (add dst name v)

-- `copyHeaders`
unfoldable pub copy_headers : Header → Header → Header
unfolding add_values
copy_headers dst [] = dst
copy_headers dst ((name, vs) ∷ src) = copy_headers (add_values name vs dst) src

-- `cacheStatus`
unfoldable pub cache_status : ℤ → Bytes
cache_status status =
    if le_ℤ (pos 400) status then codes "Error from localfront" else codes "Miss from localfront"

-- `addResponseVary`
unfoldable pub add_response_vary : Header → Bytes → Header
add_response_vary h value =
    if any (λ v. str_eq v value) (values h (codes "Vary")) then h else add h (codes "Vary") value

-- the headers that `writeResponse` sets in every case
unfoldable pub response_headers : Header → Distribution → OriginResponse → Bytes → Header
response_headers out dist resp request_id =
    let via = add_via (remove_hop_by_hop_headers (copy_headers out resp.header)) dist.domain_name in
    let cached = set via (codes "X-Cache") (cache_status resp.status_code) in
    set (set cached (codes "X-Amz-Cf-Id") request_id) (codes "X-Amz-Cf-Pop") (codes "LOCAL50-C1")

unfoldable pub is_head : Request → Bool
is_head r = str_eq r.method (codes "HEAD")

unfoldable pub response_encoding : Request → Behavior → OriginResponse → Encoding
response_encoding r beh resp =
    if eq_ℤ resp.status_code (pos 200) && not (is_head r)
    then choose_encoding beh (get r.header (codes "Accept-Encoding")) resp.header
    else identity

unfoldable pub write_plain : Request → Header → OriginResponse → ViewerResponse
write_plain r out resp = record {
  status = resp.status_code;
  header = out;
  body = if not (is_head r) then resp.body else [];
}

-- the headers of a compressed body
unfoldable pub encoded_headers : Header → Encoding → Bytes → Header
encoded_headers out encoding body =
    let named = set out (codes "Content-Encoding") (encoding_name encoding) in
    add_response_vary (set named (codes "Content-Length") (format_ℕ (length body)))
      (codes "Accept-Encoding")

abbrev pub write_encoded : Header → Encoding → OriginResponse → Option Bytes → ViewerResponse
write_encoded out encoding resp none = record {
  status = resp.status_code;
  header = set out (codes "Content-Length") (format_ℕ (length resp.body));
  body = resp.body;
}
write_encoded out encoding resp (some body) = record {
  status = resp.status_code;
  header = encoded_headers out encoding body;
  body = body;
}

abbrev pub write_compressed : Compressor → Header → Encoding → OriginResponse → ViewerResponse
write_compressed c out encoding resp =
    if resp.is_broken
    then record { status = pos 502; header = out; body = [] }
    else write_encoded out encoding resp (compress_bytes c encoding resp.body)

abbrev pub write_as : Compressor → Encoding → Request → Header → OriginResponse → ViewerResponse
write_as c identity r out resp = write_plain r out resp
write_as c gzip r out resp = write_compressed c out gzip resp
write_as c brotli r out resp = write_compressed c out brotli resp

-- whether the `WriteHeader` of net/http takes the status: it panics at any other.
unfoldable pub is_sendable : ℤ → Bool
is_sendable status = le_ℤ (pos 100) status && le_ℤ status (pos 999)

-- the call of `WriteHeader` that each branch makes before it writes its body
abbrev pub sent : ViewerResponse → Option ViewerResponse
sent v = if is_sendable v.status then some v else none

-- `writeResponse`: `none` is a panic of `WriteHeader`, where `out` is the header map of the response writer
unfoldable pub write_response :
    Compressor
    → Header
    → Request
    → Distribution
    → Behavior
    → OriginResponse
    → Bytes
    → Option ViewerResponse
write_response c out r dist beh resp request_id =
    sent
      (write_as c (response_encoding r beh resp) r (response_headers out dist resp request_id) resp)
