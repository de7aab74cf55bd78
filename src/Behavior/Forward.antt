-- ===== src/Behavior/Forward.antt =====
-- internal/behavior/forward.go: what of a viewer request reaches the origin.
pub mod Encoding
pub mod Headers
pub mod Query
use localfront.Base.{
  ℕ, zero, suc, ◌+◌, ◌-◌, ◌*◌, true, false, Bool, not, ◌&&◌, ◌||◌, List, [], ◌∷◌, ◌++◌, map, Option,
  none, some, ltb, leb, ◌==◌, if◌then◌else◌, any, filter, take, length,
}
use localfront.Text.{
  Bytes, codes, str_eq, is_empty, to_lower, equal_fold, trim_space, split, join, index_byte,
  before_byte,
}
use localfront.Http.{Header, canonical_key, put, values, get, set}
use localfront.Http.Request.{Request}
use localfront.Config.{
  ListSelection, CachePolicy, OriginRequestPolicy, Behavior, selection_contains,
  selection_contains_fold,
}

pub record OriginRequest : Type 0 where
  pub headers : Header
  pub raw_query : Bytes
  pub accept_encoding : Bytes
  pub forward_host : Bool

abbrev pub local_prefix : Bytes
local_prefix = codes "X-Localfront-"

abbrev pub cloud_front_prefix : Bytes
cloud_front_prefix = codes "CloudFront-"

-- `p != nil && test(p)`
abbrev pub on {ℓ} : {A : Type ℓ} → Option A → (A → Bool) → Bool
on none test = false
on (some p) test = test p

-- `hasPrefixFold`
unfoldable pub has_prefix_fold : Bytes → Bytes → Bool
has_prefix_fold s pre = leb (length pre) (length s) && equal_fold (take (length pre) s) pre

-- `isCloudFrontHeader`
unfoldable pub is_cloud_front_header : Bytes → Bool
is_cloud_front_header name = has_prefix_fold name cloud_front_prefix

-- the tokens of one value of `Connection`
listed_tokens : List Bytes → List Bytes
listed_tokens [] = []
listed_tokens (token ∷ ts) =
    if is_empty (trim_space token)
    then listed_tokens ts
    else canonical_key (trim_space token) ∷ listed_tokens ts

listed_values : List Bytes → List Bytes
listed_values [] = []
listed_values (v ∷ vs) = listed_tokens (split v b',') ++ listed_values vs

-- `connectionListedHeaders`; the set is a list of names
unfoldable pub connection_listed : Header → List Bytes
unfolding listed_tokens listed_values
connection_listed h = listed_values (values h (codes "Connection"))

unfoldable pub is_listed : List Bytes → Bytes → Bool
is_listed names name = any (λ n. str_eq n name) names

-- `headerSelected`
unfoldable pub header_selected : ListSelection → Bytes → Bool → Bool
header_selected sel name allow_viewer =
    if str_eq sel.behavior (codes "all")
    then true
    else if str_eq sel.behavior (codes "whitelist")
    then selection_contains_fold sel name
    else if str_eq sel.behavior (codes "allViewer")
        || str_eq sel.behavior (codes "allViewerAndWhitelistCloudFront")
    then allow_viewer
    else if str_eq sel.behavior (codes "allExcept")
    then allow_viewer && not (selection_contains_fold sel name)
    else false

-- `forwardsHeader`
unfoldable pub forwards_header : Option CachePolicy → Option OriginRequestPolicy → Bytes → Bool
forwards_header cache orp name =
    on cache (λ p. header_selected p.headers name false)
    || on orp (λ p. header_selected p.headers name true)

-- `selectsCloudFrontHeader`
unfoldable pub selects_cloud_front_header :
    Option CachePolicy → Option OriginRequestPolicy → Bytes → Bool
selects_cloud_front_header cache orp name =
    on cache
      (λ p. str_eq p.headers.behavior (codes "whitelist") && selection_contains_fold p.headers name)
    || on orp (λ p.
      if str_eq p.headers.behavior (codes "whitelist")
        || str_eq p.headers.behavior (codes "allViewerAndWhitelistCloudFront")
      then selection_contains_fold p.headers name
      else false)

-- `listSelected`
unfoldable pub list_selected : ListSelection → Bytes → Bool
list_selected sel name =
    if str_eq sel.behavior (codes "all")
    then true
    else if str_eq sel.behavior (codes "whitelist")
    then selection_contains sel name
    else if str_eq sel.behavior (codes "allExcept")
    then not (selection_contains sel name)
    else false

-- `cookieSelected`
unfoldable pub cookie_selected : Option CachePolicy → Option OriginRequestPolicy → Bytes → Bool
cookie_selected cache orp name =
    on cache (λ p. list_selected p.cookies name) || on orp (λ p. list_selected p.cookies name)

-- `querySelected`
unfoldable pub query_selected : Option CachePolicy → Option OriginRequestPolicy → Bytes → Bool
query_selected cache orp name =
    on cache (λ p. list_selected p.query_strings name)
    || on orp (λ p. list_selected p.query_strings name)

-- one round of the loop of `filterCookies`, behind `TrimSpace`
unfoldable pub keeps_cookie : Option CachePolicy → Option OriginRequestPolicy → Bytes → Bool
keeps_cookie cache orp pair =
    not (is_empty pair) && cookie_selected cache orp (before_byte pair b'=')

-- `filterCookies`
unfoldable pub filter_cookies : Option CachePolicy → Option OriginRequestPolicy → Bytes → Bytes
filter_cookies cache orp header =
    if is_empty header
    then []
    else join (filter (keeps_cookie cache orp) (map trim_space (split header b';'))) (codes "; ")

-- `ishex` and `unhex` of net/url
abbrev hex_value : ℕ → Option ℕ
hex_value c =
    if leb b'0' c && leb c b'9'
    then some (c - b'0')
    else if leb b'a' c && leb c b'f'
    then some (c - b'a' + 10)
    else if leb b'A' c && leb c b'F'
    then some (c - b'A' + 10)
    else none

abbrev escaped_byte : Option ℕ → Option ℕ → Option Bytes → Option Bytes
escaped_byte (some hi) (some lo) (some rest) = some ((hi * 16 + lo) ∷ rest)
escaped_byte _ _ _ = none

abbrev plain_byte : ℕ → Option Bytes → Option Bytes
plain_byte c none = none
plain_byte c (some rest) = some ((if c == b'+' then b' ' else c) ∷ rest)

-- `url.QueryUnescape`: `none` is an error.
unfoldable pub query_unescape : Bytes → Option Bytes
query_unescape [] = some []
query_unescape (c ∷ []) = if c == b'%' then none else plain_byte c (some [])
query_unescape (c ∷ a ∷ []) =
    let rest = query_unescape (a ∷ []) in if c == b'%' then none else plain_byte c rest
query_unescape (c ∷ a ∷ b ∷ s) =
    let escaped = escaped_byte (hex_value a) (hex_value b) (query_unescape s) in
    let plain = plain_byte c (query_unescape (a ∷ b ∷ s)) in if c == b'%' then escaped else plain

unfoldable pub decoded_key : Bytes → Bytes
decoded_key param = elim (query_unescape (before_byte param b'=')) [
  | none ↦ before_byte param b'='
  | some d ↦ d
]

-- one round of the loop of `filterQuery`
unfoldable pub keeps_param : Option CachePolicy → Option OriginRequestPolicy → Bytes → Bool
keeps_param cache orp param = not (is_empty param) && query_selected cache orp (decoded_key param)

-- `filterQuery`
unfoldable pub filter_query : Option CachePolicy → Option OriginRequestPolicy → Bytes → Bytes
filter_query cache orp raw_query =
    if is_empty raw_query
    then []
    else join (filter (keeps_param cache orp) (split raw_query b'&')) (codes "&")

-- one token of `parseAcceptEncoding`, before the test for ""
unfoldable pub encoding_token : Bytes → Bytes
encoding_token token = elim (index_byte (trim_space token) b';') [
  | none ↦ trim_space token
  | some i ↦ trim_space (take i (trim_space token))
]

-- `parseAcceptEncoding(v)[name]`, for a name that is not ""
unfoldable pub accepts : Bytes → Bytes → Bool
accepts v name = any (λ token. str_eq (to_lower (encoding_token token)) name) (split v b',')

abbrev pub when : Bool → Bytes → List Bytes
when test v = if test then v ∷ [] else []

-- `normalizeAcceptEncoding`
unfoldable pub normalize_accept_encoding :
    Option CachePolicy → Option OriginRequestPolicy → Bytes → Bytes
normalize_accept_encoding cache orp viewer =
    let gzip_enabled = on cache (λ p. p.gzip) in
    let brotli_enabled = on cache (λ p. p.brotli) in
    if not gzip_enabled && not brotli_enabled
    then (if forwards_header cache orp (codes "Accept-Encoding") then viewer else [])
    else join
        (when (gzip_enabled && accepts viewer (codes "gzip")) (codes "gzip")
          ++ when (brotli_enabled && accepts viewer (codes "br")) (codes "br"))
        (codes ", ")

-- the viewer headers that `BuildOriginRequest` drops whatever the policies say
unfoldable pub is_withheld : List Bytes → Bytes → Bool
is_withheld listed name =
    equal_fold name (codes "Host")
    || equal_fold name (codes "Cookie")
    || equal_fold name (codes "Accept-Encoding")
    || is_cloud_front_header name
    || is_listed listed (canonical_key name)
    || has_prefix_fold name local_prefix

-- `for name, values := range entries { if keep(name) { out[CanonicalHeaderKey(name)] = values } }`
unfoldable pub copy_where : (Bytes → Bool) → Header → Header → Header
copy_where keep [] out = out
copy_where keep ((name, vs) ∷ entries) out =
    copy_where keep entries (if keep name then put (canonical_key name) vs out else out)

unfoldable pub set_cookie : Bytes → Header → Header
set_cookie cookie out = if is_empty cookie then out else set out (codes "Cookie") cookie

-- `BuildOriginRequest`
unfoldable pub build_origin_request : Behavior → Request → Header → OriginRequest
build_origin_request b r viewer_headers =
    let cache = b.cache_policy in
    let orp = b.origin_request_policy in
    let listed = connection_listed r.header in
    let from_viewer =
      copy_where (λ name. not (is_withheld listed name) && forwards_header cache orp name) r.header
        [] in
    let synthesized =
      copy_where (selects_cloud_front_header cache orp) viewer_headers from_viewer in
    record {
      headers = set_cookie (filter_cookies cache orp (get r.header (codes "Cookie"))) synthesized;
      raw_query = filter_query cache orp r.raw_query;
      accept_encoding =
          normalize_accept_encoding cache orp (get r.header (codes "Accept-Encoding"));
      forward_host = forwards_header cache orp (codes "Host");
    }

-- Named on the `unfolding` line of a test, it opens the functions above.
unfoldable pub forward_ops : Unit {0}
unfolding has_prefix_fold is_cloud_front_header connection_listed is_listed header_selected
    forwards_header selects_cloud_front_header list_selected cookie_selected query_selected
    keeps_cookie filter_cookies query_unescape decoded_key keeps_param filter_query encoding_token
    accepts normalize_accept_encoding is_withheld copy_where set_cookie build_origin_request
    selection_contains selection_contains_fold
forward_ops = tt
