-- ===== src/Cffunc/Total.antt =====
-- Events and results of functions never come from an access out of range.
use localfront.Base.{
  ◌≡◌, ◌≢◌, refl, Bool, false, List, [], ◌∷◌, ◌++◌, Option, none, some, arith, Bool-cases,
  Option-cases, inl, inr,
}
use localfront.Text.{Bytes, codes, is_empty, str_eq, split, to_lower}
use localfront.Text.Map.{StrMap, lookup, put}
use localfront.Text.Sort.{or_zero, has}
use localfront.Num.{ℤ}
use localfront.Http.{Header}
use localfront.Http.Filled.{Filled, Filled-if, Filled-set, Filled-put}
use localfront.Http.Request.{Request}
use localfront.Cffunc.{
  Context, Field, Event, EventRequest, EventResponse, EventCookie, Result, field_values,
  values_of_entries, ValueEntry, field_from_values,
}
use localfront.Cffunc.Asked.{
  put_field, add_header_field, add_header_fields, is_cookie_header, headers_to_fields, group_param,
  group_params, fields_of_groups, query_to_fields, put_host, new_request_event, fields_to_header,
  set_cookies, apply_to_request,
}
use localfront.Cffunc.Answered.{attach_response}
use localfront.Cffunc.Execution.{
  Engine, parse_result, parse_output, response_result, request_result,
}

-- There is a value.
abbrev pub Given {ℓ} : {A : Type ℓ} → Option A → Type ℓ
Given o = (a : _) × (o ≡ some a)

pub Given-ne-none {ℓ} : {A : Type ℓ} (o : Option A) → Given o → o ≢ none
Given-ne-none o (a, e) = cc

field_from_values-Given : (vs : List Bytes) → vs ≢ [] → Given (field_from_values vs)
unfolding field_from_values
field_from_values-Given [] n = absurd (n refl)
field_from_values-Given (v ∷ []) n = (_, refl)
field_from_values-Given (v ∷ w ∷ vs) n = (_, refl)

put_field-Given :
    (name : Bytes) (vs : List Bytes) (m : StrMap Field)
    → vs ≢ []
    → Given (put_field name (field_from_values vs) m)
put_field-Given name vs m n = let (f, e) = field_from_values-Given vs n in (put name f m, rw e)

add_header_field-Given :
    (omits : Bytes → Bool) (name : Bytes) (vs : List Bytes) (m : StrMap Field)
    → vs ≢ []
    → Given (add_header_field omits name vs m)
add_header_field-Given omits name vs m n = elim (Bool-cases (omits (to_lower name))) [
  | inl e ↦ (m, rw e)
  | inr e ↦ let (a, f) = put_field-Given (to_lower name) vs m n in (a, rw e f)
]

add_header_fields-Given :
    (omits : Bytes → Bool) (h : Header) (m : StrMap Field)
    → Filled h
    → Given (add_header_fields omits h m)
unfolding add_header_fields
add_header_fields-Given omits [] m f = (m, refl)
add_header_fields-Given omits ((name, vs) ∷ h) m (n, f) =
    let (a, e) = add_header_field-Given omits name vs m n in
    let (b, g) = add_header_fields-Given omits h a f in (b, rw (add_header_fields, e) g)

headers_to_fields-Given : (h vh : Header) → Filled h → Filled vh → Given (headers_to_fields h vh)
unfolding headers_to_fields
headers_to_fields-Given h vh f g =
    let (a, e) = add_header_fields-Given is_cookie_header h [] f in
    let (b, k) = add_header_fields-Given (λ _. false) vh a g in (b, rw (headers_to_fields, e) k)

-- The groups of a query string are not empty.
Filled-put_group :
    (k : Bytes) (vs : List Bytes) (m : StrMap (List Bytes))
    → vs ≢ []
    → Filled m
    → Filled (put k vs m)
unfolding put
Filled-put_group k vs [] n f = (n, tt)
Filled-put_group k vs ((j, ws) ∷ m) n (o, f) =
    Filled-if (str_eq j k) _ _ (n, f) (o, Filled-put_group k vs m n f)

snoc-ne-nil : (vs : List Bytes) (v : Bytes) → vs ++ v ∷ [] ≢ []
snoc-ne-nil [] v = cc
snoc-ne-nil (w ∷ vs) v = cc

Filled-group_params :
    (params : List Bytes) (m : StrMap (List Bytes)) → Filled m → Filled (group_params params m)
unfolding group_params
Filled-group_params [] m f = f
Filled-group_params (param ∷ params) m f = Filled-group_params params (group_param param m) (
    Filled-if (is_empty param) m _ f
      (Filled-put_group _ _ m (snoc-ne-nil (or_zero [] (lookup _ m)) _) f))

fields_of_groups-Given :
    (groups : StrMap (List Bytes)) (m : StrMap Field)
    → Filled groups
    → Given (fields_of_groups groups m)
unfolding fields_of_groups
fields_of_groups-Given [] m f = (m, refl)
fields_of_groups-Given ((k, vs) ∷ groups) m (n, f) =
    let (a, e) = put_field-Given k vs m n in
    let (b, g) = fields_of_groups-Given groups a f in (b, rw (fields_of_groups, e) g)

query_to_fields-Given : (q : Bytes) → Given (query_to_fields q)
unfolding query_to_fields
query_to_fields-Given q = elim (Bool-cases (is_empty q)) [
  | inl e ↦ ([], rw e)
  | inr e ↦
      let (a, g) = fields_of_groups-Given _ [] (Filled-group_params (split q b'&') [] tt) in
      (a, rw e g)
]

put_host-Given : (host : Bytes) (m : StrMap Field) → Given (put_host host m)
put_host-Given [] m = (m, refl)
put_host-Given (c ∷ host) m = put_field-Given (codes "host") ((c ∷ host) ∷ []) m (cc)

pub new_request_event-Given :
    (ctx : Context) (r : Request) (vh : Header)
    → Filled r.header
    → Filled vh
    → Given (new_request_event ctx r vh)
unfolding new_request_event
new_request_event-Given ctx r vh f g =
    let (a, e) = headers_to_fields-Given r.header vh f g in
    let (b, k) = put_host-Given r.host a in
    let (c, l) = query_to_fields-Given r.raw_query in rw (new_request_event, e, k, l) (_, refl)

pub attach_response-Given :
    (event : Event) (status : ℤ) (h : Header) → Filled h → Given (attach_response event status h)
unfolding attach_response
attach_response-Given event status h f =
    let (a, e) = headers_to_fields-Given h [] f tt in rw (attach_response, e) (_, refl)

field_values-ne-nil : (f : Field) → field_values f ≢ []
unfolding field_values
field_values-ne-nil f = go f.value f.multi_value
  where
    go : (v : Bytes) (es : List ValueEntry) → values_of_entries v es ≢ []
    go v [] = cc
    go v (e ∷ es) = cc

Filled-fields_to_header :
    (fields : StrMap Field) (h : Header) → Filled h → Filled (fields_to_header fields h)
unfolding fields_to_header
Filled-fields_to_header [] h f = f
Filled-fields_to_header ((name, v) ∷ fields) h f =
    Filled-fields_to_header fields _ (Filled-put _ (field_values v) h (field_values-ne-nil v) f)

Filled-set_cookies : (cs : StrMap EventCookie) (h : Header) → Filled h → Filled (set_cookies cs h)
Filled-set_cookies [] h f = f
Filled-set_cookies (c ∷ cs) h f = Filled-set h (codes "Cookie") _ f

-- A request that a function has changed has a value for each header.
pub Filled-apply_to_request :
    (req : EventRequest) (r : Request) → Filled (apply_to_request req r).header
unfolding apply_to_request
Filled-apply_to_request req r =
    Filled-set_cookies req.cookies _ (Filled-fields_to_header req.headers [] tt)

module _ (eng : Engine) where
  -- Without a response there is a request.
  abbrev pub IsAnswer : Result → Type 0
  IsAnswer res = res.response ≡ none → Given res.request

  response_result-IsAnswer :
      (o : Option EventResponse) (res : Result) → response_result eng o ≡ some res → IsAnswer res
  response_result-IsAnswer none res h n = absurd (cc)
  response_result-IsAnswer (some resp) res h n = absurd (cc)

  request_result-IsAnswer :
      (o : Option EventRequest) (res : Result) → request_result eng o ≡ some res → IsAnswer res
  request_result-IsAnswer none res h n = absurd (cc)
  request_result-IsAnswer (some req) res h n = (req, cc)

  parse_result-IsAnswer :
      (event_type out : Bytes) (res : Result)
      → parse_result eng event_type out ≡ some res
      → IsAnswer res
  unfolding parse_result
  parse_result-IsAnswer event_type out res h =
      elim (Bool-cases (str_eq event_type (codes "viewer-response"))) [
        | inl e ↦ response_result-IsAnswer (eng.decode_response out) res (rw e at h)
        | inr e ↦ elim (Option-cases (eng.decode_keys out)) [
          | inl failed ↦ absurd (ground arith)
          | inr (keys, k) ↦ elim (Bool-cases (has (codes "statusCode") keys)) [
            | inl b ↦ response_result-IsAnswer (eng.decode_response out) res (rw (e, k, b) at h)
            | inr b ↦ request_result-IsAnswer (eng.decode_request out) res (rw (e, k, b) at h)
          ]
        ]
      ]

  pub parse_output-IsAnswer :
      (event_type : Bytes) (o : Option Bytes) (res : Result)
      → parse_output eng event_type o ≡ some res
      → IsAnswer res
  parse_output-IsAnswer event_type none res h = absurd (cc)
  parse_output-IsAnswer event_type (some out) res h = parse_result-IsAnswer event_type out res h
