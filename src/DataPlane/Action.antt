-- ===== src/DataPlane/Action.antt =====
-- How a handler of the data plane runs: it changes a state, and it goes on, or has written its
-- response and returns, or panics. With `writeCFError` of internal/dataplane/headers.go.
pub mod Laws
use localfront.Base.{Bool, false, Option, none, some}
use localfront.Text.{Bytes}
use localfront.Num.{ℤ}
use localfront.Http.{Header}
use localfront.Http.Request.{Request}
use localfront.DataPlane.Headers.{assign_all}
use localfront.DataPlane.ErrorPage.{error_page_header, error_page_body}
use localfront.DataPlane.Write.{ViewerResponse}

-- What a handler leaves: the response, the request, which a function may have changed, and whether
-- the response was marked as made by a function.
pub record Reply : Type 0 where
  pub response : ViewerResponse
  pub request : Request
  pub function_generated : Bool

-- Why a handler panics: an index out of range or a nil pointer, or a status that the `WriteHeader` of
-- net/http refuses.
pub data Cause : Type 0 where
  missing_part : Cause
  invalid_status : ℤ → Cause

pub data Stage {ℓ} (A : Type ℓ) : Type ℓ where
  next : A → Stage A
  replied : Reply → Stage A
  panicked : Cause → Stage A

abbrev pub Action {ℓ} : Type 0 → Type ℓ → Type ℓ
Action S A = S → S × Stage A

infixl 5 ◌>>=◌ ◌>>◌
unfoldable pub after {ℓ κ} :
    {S : Type 0} {A : Type ℓ} {B : Type κ} → S → Stage A → (A → Action S B) → S × Stage B
after s (next a) f = f a s
after s (replied reply) f = (s, replied reply)
after s (panicked cause) f = (s, panicked cause)

unfoldable pub ◌>>=◌ {ℓ κ} :
    {S : Type 0} {A : Type ℓ} {B : Type κ} → Action S A → (A → Action S B) → Action S B
m >>= f = λ s. after (m s).0 (m s).1 f

unfoldable pub ◌>>◌ {ℓ} : {S : Type 0} {B : Type ℓ} → Action S (Unit {0}) → Action S B → Action S B
m >> k = m >>= λ _. k

abbrev pub return {ℓ} : {S : Type 0} {A : Type ℓ} → A → Action S A
return a = λ s. (s, next a)

-- `writeCFError`, where `out` is the header map of the response writer
unfoldable pub write_cf_error : Header → ℤ → Bytes → Bytes → ViewerResponse
write_cf_error out status request_id message = record {
  status = status;
  header = assign_all (error_page_header request_id) out;
  body = error_page_body status request_id message;
}

-- an error page, and a return
unfoldable pub fail {ℓ} :
    {S : Type 0} {A : Type ℓ} → Header → Request → ℤ → Bytes → Bytes → Action S A
fail out r status request_id message = λ s. (
  s,
  replied (record {
    response = write_cf_error out status request_id message;
    request = r;
    function_generated = false;
  }),
)

-- a value, or the failure `otherwise`
unfoldable pub or_else_do {ℓ} : {S : Type 0} {A : Type ℓ} → Option A → Action S A → Action S A
or_else_do none otherwise = otherwise
or_else_do (some a) otherwise = return a

abbrev pub panic {ℓ} : {S : Type 0} {A : Type ℓ} → Cause → Action S A
panic cause = λ s. (s, panicked cause)
