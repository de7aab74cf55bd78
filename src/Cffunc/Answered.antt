-- ===== src/Cffunc/Answered.antt =====
-- The response half of an event (internal/cffunc/event.go).
use localfront.Base.{List, [], ◌∷◌, ◌++◌, Option, none, some, if◌then◌else◌}
use localfront.Text.{Bytes, codes, is_empty, equal_fold, before_byte, after_byte, trim_space}
use localfront.Text.Map.{StrMap, lookup, put}
use localfront.Text.Sort.{sort_strings, keys_of, or_zero}
use localfront.Num.{ℤ}
use localfront.Http.{Header, values, add}
use localfront.Sign.Codec.{base64_decode}
use localfront.Cffunc.{Field, ResponseCookie, Body, EventResponse, Event}
use localfront.Cffunc.Asked.{headers_to_fields, fields_to_header}

-- one round of `setCookiesToMap`
unfoldable pub add_set_cookie : Bytes → StrMap ResponseCookie → StrMap ResponseCookie
add_set_cookie sc m =
    let first = trim_space (before_byte sc b';') in
    let name = trim_space (before_byte first b'=') in
    if is_empty name
    then m
    else put name
        (record {
          value = trim_space (after_byte first b'=');
          attributes = trim_space (after_byte sc b';');
        })
        m

unfoldable pub add_set_cookies : List Bytes → StrMap ResponseCookie → StrMap ResponseCookie
add_set_cookies [] m = m
add_set_cookies (sc ∷ scs) m = add_set_cookies scs (add_set_cookie sc m)

-- `setCookiesToMap`
unfoldable pub set_cookies_to_map : List Bytes → StrMap ResponseCookie
set_cookies_to_map set_cookies = add_set_cookies set_cookies []

abbrev pub with_fields : Event → ℤ → Header → Option (StrMap Field) → Option Event
with_fields e status_code header none = none
with_fields e status_code header (some fields) = some (record e {
  response = some (record {
    status_code = status_code;
    status_description = [];
    headers = fields;
    cookies = set_cookies_to_map (values header (codes "Set-Cookie"));
    body = none;
  });
})

-- `AttachResponse`
unfoldable pub attach_response : Event → ℤ → Header → Option Event
attach_response e status_code header =
    with_fields e status_code header (headers_to_fields header [])

abbrev pub with_attributes : Bytes → Bytes
with_attributes [] = []
with_attributes (c ∷ s) = codes "; " ++ (c ∷ s)

-- the `Set-Cookie` line of one cookie
unfoldable pub set_cookie_line : Bytes → ResponseCookie → Bytes
set_cookie_line name c = name ++ (b'=' ∷ (c.value ++ with_attributes c.attributes))

abbrev pub empty_response_cookie : ResponseCookie
empty_response_cookie = record { value = []; attributes = [] }

unfoldable pub cookie_lines : StrMap ResponseCookie → List Bytes → List Bytes
cookie_lines cookies [] = []
cookie_lines cookies (name ∷ names) =
    set_cookie_line name (or_zero empty_response_cookie (lookup name cookies))
    ∷ cookie_lines cookies names

unfoldable pub add_lines : List Bytes → Header → Header
add_lines [] h = h
add_lines (line ∷ lines) h = add_lines lines (add h (codes "Set-Cookie") line)

-- `HTTPHeaders`
unfoldable pub http_headers : EventResponse → Header
http_headers r =
    add_lines (cookie_lines r.cookies (sort_strings (keys_of r.cookies)))
      (fields_to_header r.headers [])

-- `Body.Bytes`
unfoldable pub body_decoded : Body → Bytes
body_decoded b =
    if equal_fold b.encoding (codes "base64")
    then elim (base64_decode b.text) [ none ↦ b.text | some decoded ↦ decoded ]
    else b.text

-- `BodyBytes`
unfoldable pub body_bytes_of : EventResponse → Bytes
body_bytes_of r = elim r.body [ none ↦ [] | some b ↦ body_decoded b ]
