-- ===== src/DataPlane/Serve/Answer.antt =====
-- The origin response that `functionResponse` (internal/dataplane/functions.go) makes.
use localfront.Base.{◌≡◌, refl, length, arith, if◌then◌else◌, false}
use localfront.Text.{Bytes, codes}
use localfront.Num.{pos, eq_ℤ, format_ℕ}
use localfront.Http.{Header, values}
use localfront.Http.Laws.{same_name, values-set}
use localfront.Cffunc.{EventResponse}
use localfront.Cffunc.Answered.{http_headers, body_bytes_of}
use localfront.DataPlane.Origin.{OriginResponse}
use localfront.DataPlane.Functions.{with_length, function_response}

-- The origin response that stands for a function's: its status (200 where it is 0), its headers
-- with the length of the body where they have none, and its body.
pub record StandsFor (answer : EventResponse) (page : OriginResponse) : Type 0 where
  pub status_is :
      page.status_code ≡ (if eq_ℤ answer.status_code (pos 0) then pos 200 else answer.status_code)
  pub body_is : page.body ≡ body_bytes_of answer
  pub is_whole : page.is_broken ≡ false
  pub headers_are :
      (m : Bytes)
      → same_name (codes "Content-Length") m ≡ false
      → values page.header m ≡ values (http_headers answer) m

values-with_length :
    (header : Header) (body m : Bytes)
    → same_name (codes "Content-Length") m ≡ false
    → values (with_length header body) m ≡ values header m
values-with_length header body m other =
    ground (arith, values-set header (codes "Content-Length") m (format_ℕ (length body)))

pub function_response-StandsFor :
    (answer : EventResponse) → StandsFor answer (function_response answer)
unfolding function_response
function_response-StandsFor answer = record {
  status_is = refl;
  body_is = refl;
  is_whole = refl;
  headers_are = λ m other. values-with_length (http_headers answer) (body_bytes_of answer) m other;
}
