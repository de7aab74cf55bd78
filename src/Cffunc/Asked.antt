-- ===== src/Cffunc/Asked.antt =====
-- The request half of an event (internal/cffunc/event.go).
use localfront.Base.{
  ℕ, ◌+◌, Bool, false, not, ◌||◌, List, [], ◌∷◌, ◌++◌, map, Option, none, some, ltb, ◌==◌,
  if◌then◌else◌, take, length, filter, leb, ◌/◌, ◌%◌, ◌&&◌, any,
}
use localfront.Text.{
  Bytes, codes, is_empty, str_eq, to_lower, split, join, before_byte, after_byte, trim_space,
  trim_prefix, cut_suffix,
}
use localfront.Text.Map.{StrMap, lookup, put}
use localfront.Text.Sort.{sort_strings, keys_of, or_zero}
use localfront.Http.{Header, canonical_key, get, set}
use localfront.Http as H
use localfront.Http.Request.{Request}
use localfront.Net.{last_index_byte}
use localfront.Behavior.Forward.{query_unescape}
use localfront.Cffunc.{
  Context, Field, EventCookie, EventRequest, Event, field_values, field_from_values,
}

-- `m[name] = fieldFromValues(values)`
abbrev pub put_field : Bytes → Option Field → StrMap Field → Option (StrMap Field)
put_field name none m = none
put_field name (some f) m = some (put name f m)

-- Cookies have an entry of their own in an event.
unfoldable pub is_cookie_header : Bytes → Bool
is_cookie_header lower = str_eq lower (codes "cookie") || str_eq lower (codes "set-cookie")

abbrev pub add_header_field :
    (Bytes → Bool) → Bytes → List Bytes → StrMap Field → Option (StrMap Field)
add_header_field omits name vs m =
    if omits (to_lower name) then some m else put_field (to_lower name) (field_from_values vs) m

-- one loop of `headersToFields`
unfoldable pub add_header_fields : (Bytes → Bool) → Header → StrMap Field → Option (StrMap Field)
add_header_fields omits [] m = some m
add_header_fields omits ((name, vs) ∷ h) m = elim (add_header_field omits name vs m) [
  | none ↦ none
  | some n ↦ add_header_fields omits h n
]

-- `headersToFields`
unfoldable pub headers_to_fields : Header → Header → Option (StrMap Field)
headers_to_fields header viewer_headers = elim (add_header_fields is_cookie_header header []) [
  | none ↦ none
  | some m ↦ add_header_fields (λ _. false) viewer_headers m
]

-- The value of `url.QueryUnescape` where its error is ignored.
abbrev pub unescaped : Bytes → Bytes
unescaped s = elim (query_unescape s) [ none ↦ [] | some t ↦ t ]

-- `grouped[key] = append(grouped[key], value)`
abbrev pub append_value : StrMap (List Bytes) → Bytes → Bytes → StrMap (List Bytes)
append_value m key value = put key (or_zero [] (lookup key m) ++ value ∷ []) m

abbrev pub group_param : Bytes → StrMap (List Bytes) → StrMap (List Bytes)
group_param param m =
    if is_empty param
    then m
    else append_value m (unescaped (before_byte param b'=')) (unescaped (after_byte param b'='))

unfoldable pub group_params : List Bytes → StrMap (List Bytes) → StrMap (List Bytes)
group_params [] m = m
group_params (param ∷ params) m = group_params params (group_param param m)

unfoldable pub fields_of_groups : StrMap (List Bytes) → StrMap Field → Option (StrMap Field)
fields_of_groups [] m = some m
fields_of_groups ((k, vs) ∷ groups) m = elim (put_field k (field_from_values vs) m) [
  | none ↦ none
  | some n ↦ fields_of_groups groups n
]

-- `queryToFields`; the groups stand in the order of their first parameters.
unfoldable pub query_to_fields : Bytes → Option (StrMap Field)
query_to_fields raw_query =
    if is_empty raw_query
    then some []
    else fields_of_groups (group_params (split raw_query b'&') []) []

abbrev pub unreserved : ℕ → Bool
unreserved c =
    leb b'a' c && leb c b'z'
    || leb b'A' c && leb c b'Z'
    || leb b'0' c && leb c b'9'
    || any (λ d. c == d) (codes "-_.~")

abbrev pub hex_upper : ℕ → ℕ
hex_upper n = if ltb n 10 then 48 + n else 55 + n

unfoldable pub escape_query_byte : ℕ → Bytes
escape_query_byte c =
    if unreserved c
    then c ∷ []
    else if c == b' '
    then b'+' ∷ []
    else b'%' ∷ hex_upper (c / 16) ∷ hex_upper (c % 16) ∷ []

-- `url.QueryEscape`
unfoldable pub query_escape : Bytes → Bytes
query_escape [] = []
query_escape (c ∷ s) = escape_query_byte c ++ query_escape s

unfoldable pub query_param : Bytes → Bytes → Bytes
query_param k v = query_escape k ++ (b'=' ∷ query_escape v)

abbrev pub empty_field : Field
empty_field = record { value = []; multi_value = [] }

unfoldable pub query_parts : StrMap Field → List Bytes → List Bytes
query_parts fields [] = []
query_parts fields (k ∷ ks) =
    map (query_param k) (field_values (or_zero empty_field (lookup k fields)))
    ++ query_parts fields ks

-- `fieldsToQuery`
unfoldable pub fields_to_query : StrMap Field → Bytes
fields_to_query fields = join (query_parts fields (sort_strings (keys_of fields))) (codes "&")

unfoldable pub add_cookie_pair : Bytes → StrMap EventCookie → StrMap EventCookie
add_cookie_pair pair m =
    let trimmed = trim_space pair in
    if is_empty trimmed
    then m
    else put (trim_space (before_byte trimmed b'='))
        (record { value = after_byte trimmed b'='; multi_value = [] }) m

unfoldable pub add_cookie_pairs : List Bytes → StrMap EventCookie → StrMap EventCookie
add_cookie_pairs [] m = m
add_cookie_pairs (pair ∷ pairs) m = add_cookie_pairs pairs (add_cookie_pair pair m)

-- `cookiesToMap`
unfoldable pub cookies_to_map : Bytes → StrMap EventCookie
cookies_to_map cookie_header =
    if is_empty cookie_header then [] else add_cookie_pairs (split cookie_header b';') []

abbrev pub empty_cookie : EventCookie
empty_cookie = record { value = []; multi_value = [] }

unfoldable pub cookie_pair : StrMap EventCookie → Bytes → Bytes
cookie_pair cookies name =
    let c : EventCookie = or_zero empty_cookie (lookup name cookies) in name ++ (b'=' ∷ c.value)

-- `cookiesToHeader`
unfoldable pub cookies_to_header : StrMap EventCookie → Bytes
cookies_to_header cookies =
    join (map (cookie_pair cookies) (sort_strings (keys_of cookies))) (codes "; ")

-- `strings.TrimSuffix`
abbrev pub trim_suffix : Bytes → Bytes → Bytes
trim_suffix s suf = elim (cut_suffix s suf) [ none ↦ s | some t ↦ t ]

abbrev pub count_byte : ℕ → Bytes → ℕ
count_byte b s = length (filter (λ c. c == b) s)

-- `clientIP`
unfoldable pub event_client_ip : Bytes → Bytes
event_client_ip remote_addr = elim (last_index_byte remote_addr b':') [
  | none ↦ remote_addr
  | some i ↦
      let host = trim_suffix (trim_prefix (take i remote_addr) (codes "[")) (codes "]") in
      if not (ltb 0 (count_byte b':' host)) || ltb 1 (count_byte b':' remote_addr)
      then host
      else remote_addr
]

abbrev pub put_host : Bytes → StrMap Field → Option (StrMap Field)
put_host host m =
    if is_empty host then some m else put_field (codes "host") (field_from_values (host ∷ [])) m

abbrev pub event_of : Context → Request → StrMap Field → StrMap Field → Event
event_of ctx r headers querystring = record {
  version = codes "1.0";
  context = ctx;
  viewer = record { ip = event_client_ip r.remote_addr };
  request = some (record {
    method = r.method;
    uri = r.path;
    querystring = querystring;
    headers = headers;
    cookies = cookies_to_map (get r.header (codes "Cookie"));
  });
  response = none;
}

abbrev pub event_with :
    Context → Request → Option (StrMap Field) → Option (StrMap Field) → Option Event
event_with ctx r (some headers) (some querystring) = some (event_of ctx r headers querystring)
event_with ctx r (some headers) none = none
event_with ctx r none querystring = none

-- `NewRequestEvent`
unfoldable pub new_request_event : Context → Request → Header → Option Event
new_request_event ctx r viewer_headers = elim (headers_to_fields r.header viewer_headers) [
  | none ↦ none
  | some headers ↦ event_with ctx r (put_host r.host headers) (query_to_fields r.raw_query)
]

-- `newHeaders[http.CanonicalHeaderKey(name)] = f.values()` for each field
unfoldable pub fields_to_header : StrMap Field → Header → Header
fields_to_header [] h = h
fields_to_header ((name, f) ∷ fields) h =
    fields_to_header fields (H.put (canonical_key name) (field_values f) h)

abbrev pub set_cookies : StrMap EventCookie → Header → Header
set_cookies [] h = h
set_cookies (c ∷ cs) h = set h (codes "Cookie") (cookies_to_header (c ∷ cs))

-- `ApplyToRequest`
unfoldable pub apply_to_request : EventRequest → Request → Request
apply_to_request req r = record r {
  path = req.uri;
  raw_path = [];
  raw_query = fields_to_query req.querystring;
  header = set_cookies req.cookies (fields_to_header req.headers []);
}
