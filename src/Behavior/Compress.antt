-- ===== src/Behavior/Compress.antt =====
-- internal/behavior/compress.go: whether and how a response is compressed on the fly.
pub mod Laws
use localfront.Base.{
  ℕ, true, false, Bool, not, ◌&&◌, ◌||◌, List, [], ◌∷◌, Option, none, some, if◌then◌else◌, any,
}
use localfront.Text.{
  Bytes, codes, str_eq, is_empty, to_lower, equal_fold, trim_space, split, before_byte,
}
use localfront.Num.{ℤ, pos, lt_ℤ, parse_int}
use localfront.Http.{Header, get}
use localfront.Config.{Behavior}
use localfront.Behavior.Forward.{accepts}

abbrev pub min_compress_bytes : ℕ
min_compress_bytes = 1000

abbrev pub max_compress_bytes : ℕ
max_compress_bytes = 10_000_000

-- the keys of the map `compressibleTypes`
unfoldable pub compressible_types : List Bytes
compressible_types =
    codes "application/dash+xml"
    ∷ codes "application/eot"
    ∷ codes "application/font"
    ∷ codes "application/font-sfnt"
    ∷ codes "application/javascript"
    ∷ codes "application/json"
    ∷ codes "application/opentype"
    ∷ codes "application/otf"
    ∷ codes "application/pdf"
    ∷ codes "application/pkcs7-mime"
    ∷ codes "application/protobuf"
    ∷ codes "application/rss+xml"
    ∷ codes "application/truetype"
    ∷ codes "application/ttf"
    ∷ codes "application/vnd.apple.mpegurl"
    ∷ codes "application/vnd.mapbox-vector-tile"
    ∷ codes "application/vnd.ms-fontobject"
    ∷ codes "application/wasm"
    ∷ codes "application/xhtml+xml"
    ∷ codes "application/xml"
    ∷ codes "application/x-font-opentype"
    ∷ codes "application/x-font-truetype"
    ∷ codes "application/x-font-ttf"
    ∷ codes "application/x-httpd-cgi"
    ∷ codes "application/x-javascript"
    ∷ codes "application/x-mpegurl"
    ∷ codes "application/x-opentype"
    ∷ codes "application/x-otf"
    ∷ codes "application/x-perl"
    ∷ codes "application/x-ttf"
    ∷ codes "font/eot"
    ∷ codes "font/opentype"
    ∷ codes "font/otf"
    ∷ codes "font/ttf"
    ∷ codes "image/svg+xml"
    ∷ codes "text/css"
    ∷ codes "text/csv"
    ∷ codes "text/html"
    ∷ codes "text/javascript"
    ∷ codes "text/js"
    ∷ codes "text/plain"
    ∷ codes "text/richtext"
    ∷ codes "text/tab-separated-values"
    ∷ codes "text/xml"
    ∷ codes "text/x-component"
    ∷ codes "text/x-java-source"
    ∷ codes "text/x-script"
    ∷ codes "vnd.apple.mpegurl"
    ∷ []

-- `compressibleTypes[t]`
unfoldable pub is_compressible : Bytes → Bool
is_compressible t = any (λ c. str_eq c t) compressible_types

-- `mediaType`
unfoldable pub media_type : Bytes → Bytes
media_type content_type = to_lower (trim_space (before_byte content_type b';'))

-- `hasNoTransform`
unfoldable pub has_no_transform : Bytes → Bool
has_no_transform cache_control =
    any (λ directive. equal_fold (trim_space directive) (codes "no-transform"))
      (split cache_control b',')

-- `err != nil || n < minCompressBytes || n > maxCompressBytes`
abbrev pub is_out_of_bounds : Option ℤ → Bool
is_out_of_bounds none = true
is_out_of_bounds (some n) = lt_ℤ n (pos min_compress_bytes) || lt_ℤ (pos max_compress_bytes) n

-- the result of `ChooseEncoding`, "" being `identity`
pub data Encoding : Type 0 where
  identity gzip brotli : Encoding

abbrev pub encoding_name : Encoding → Bytes
encoding_name identity = []
encoding_name gzip = codes "gzip"
encoding_name brotli = codes "br"

-- `ChooseEncoding`
unfoldable pub choose_encoding : Behavior → Bytes → Header → Encoding
choose_encoding b accept_encoding resp =
    if not b.compress
    then identity
    else if not (is_empty (get resp (codes "Content-Encoding")))
    then identity
    else if not (is_compressible (media_type (get resp (codes "Content-Type"))))
    then identity
    else if is_out_of_bounds (parse_int (trim_space (get resp (codes "Content-Length"))))
    then identity
    else if has_no_transform (get resp (codes "Cache-Control"))
    then identity
    else if accepts accept_encoding (codes "gzip")
    then gzip
    else if accepts accept_encoding (codes "br")
    then brotli
    else identity
