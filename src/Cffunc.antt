-- ===== src/Cffunc.antt =====
-- internal/cffunc/event.go and the results of internal/cffunc/runtime.go: what a CloudFront Function
-- is given and what it answers. An access out of range, which panics, is `none`.
pub mod Asked
pub mod Answered
pub mod Execution
pub mod Cookies
pub mod Total
use localfront.Base.{List, [], ◌∷◌, map, Option, none, some}
use localfront.Text.{Bytes}
use localfront.Text.Map.{StrMap}
use localfront.Num.{ℤ}

pub record Context : Type 0 where
  pub distribution_domain_name : Bytes
  pub distribution_id : Bytes
  pub event_type : Bytes
  pub request_id : Bytes

pub record Viewer : Type 0 where
  pub ip : Bytes

pub record ValueEntry : Type 0 where
  pub value : Bytes

pub record Field : Type 0 where
  pub value : Bytes
  pub multi_value : List ValueEntry

-- `Cookie`; the code never reads the other values of one.
pub record EventCookie : Type 0 where
  pub value : Bytes
  pub multi_value : List ValueEntry

pub record ResponseCookie : Type 0 where
  pub value : Bytes
  pub attributes : Bytes

pub record Body : Type 0 where
  pub encoding : Bytes
  pub text : Bytes

-- `Request` of event.go
pub record EventRequest : Type 0 where
  pub method : Bytes
  pub uri : Bytes
  pub querystring : StrMap Field
  pub headers : StrMap Field
  pub cookies : StrMap EventCookie

-- `Response` of event.go
pub record EventResponse : Type 0 where
  pub status_code : ℤ
  pub status_description : Bytes
  pub headers : StrMap Field
  pub cookies : StrMap ResponseCookie
  pub body : Option Body

pub record Event : Type 0 where
  pub version : Bytes
  pub context : Context
  pub viewer : Viewer
  pub request : Option EventRequest
  pub response : Option EventResponse

-- `Result` of runtime.go
pub record Result : Type 0 where
  pub request : Option EventRequest
  pub response : Option EventResponse

-- `Field.values`
abbrev pub values_of_entries : Bytes → List ValueEntry → List Bytes
values_of_entries value [] = value ∷ []
values_of_entries value (e ∷ es) = map (λ (x : ValueEntry). x.value) (e ∷ es)

unfoldable pub field_values : Field → List Bytes
field_values f = values_of_entries f.value f.multi_value

abbrev pub entry : Bytes → ValueEntry
entry v = record { value = v }

-- `fieldFromValues`
unfoldable pub field_from_values : List Bytes → Option Field
field_from_values [] = none
field_from_values (v ∷ []) = some (record { value = v; multi_value = [] })
field_from_values (v ∷ w ∷ vs) = some (record { value = v; multi_value = map entry (v ∷ w ∷ vs) })
