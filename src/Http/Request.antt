-- ===== src/Http/Request.antt =====
-- The fields of `http.Request` that localfront reads; `path`, `raw_path` and `raw_query` are those
-- of `r.URL`, and an empty body stands for none.
use localfront.Base.{ℕ}
use localfront.Text.{Bytes}
use localfront.Http.{Header}
use localfront.Num.{ℤ}

pub record Request : Type 0 where
  pub method : Bytes
  pub path : Bytes
  pub raw_path : Bytes
  pub raw_query : Bytes
  pub request_uri : Bytes
  pub proto : Bytes
  pub proto_major : ℕ
  pub proto_minor : ℕ
  pub header : Header
  pub host : Bytes
  pub remote_addr : Bytes
  pub content_length : ℤ
  pub body : Bytes
