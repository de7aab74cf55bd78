-- ===== src/DataPlane/Fetch/Laws.antt =====
-- Custom error responses (internal/dataplane/pipeline.go).
use localfront.Base.{
  ◌≡◌, subst, true, false, Bool, List, [], ◌∷◌, Option, none, some, arith, any, if◌then◌else◌,
  Bool-cases, Option-cases, inl, inr,
}
use localfront.Text.{Bytes, is_empty}
use localfront.Num.{ℤ, eq_ℤ}
use localfront.Http.{Header, values}
use localfront.Http.Laws.{same_name}
use localfront.Http.Request.{Request}
use localfront.Config.{Distribution, ErrorResponse}
use localfront.DataPlane.Headers.{always_forwarded_headers}
use localfront.DataPlane.Headers.Laws.{values-del_all}
use localfront.DataPlane.Origin.{Network, OriginResponse}
use localfront.DataPlane.Fetch.{
  match_error_response, page_request, apply_matched, apply_error_response, with_status,
}

pub page_request-always_forwarded_headers :
    (r : Request) (er : ErrorResponse) (m : Bytes)
    → values (page_request r er).header m
      ≡ (if any (λ n. same_name n m) always_forwarded_headers then [] else values r.header m)
unfolding page_request
page_request-always_forwarded_headers r er m = values-del_all always_forwarded_headers r.header m

-- The first error response for the status, in template order.
pub data Applies (status : ℤ) : List ErrorResponse → ErrorResponse → Type 0 where
  this :
      {er : ErrorResponse} {ers : List ErrorResponse}
      → eq_ℤ er.error_code status ≡ true
      → Applies status (er ∷ ers) er
  next :
      {e er : ErrorResponse} {ers : List ErrorResponse}
      → eq_ℤ e.error_code status ≡ false
      → Applies status ers er
      → Applies status (e ∷ ers) er

match_error_response-Applies :
    (ers : List ErrorResponse) (status : ℤ) (er : ErrorResponse)
    → match_error_response ers status ≡ some er
    → Applies status ers er
unfolding match_error_response
match_error_response-Applies [] status er h = absurd (cc)
match_error_response-Applies (e ∷ ers) status er h = elim (Bool-cases (eq_ℤ e.error_code status)) [
  | inl eq ↦ let same : e ≡ er = ground arith in subst (Applies status (e ∷ ers)) same (this eq)
  | inr ne ↦ next ne (match_error_response-Applies ers status er (ground arith))
]

same_status : (a b : OriginResponse) → some a ≡ some b → b.status_code ≡ a.status_code
same_status a b h = cc

with_status_inv :
    (net : Network) (code : ℤ) (o : Option OriginResponse) (resp : OriginResponse)
    → with_status net code o ≡ some resp
    → resp.status_code ≡ code
with_status_inv net code none resp h = absurd (cc)
with_status_inv net code (some page) resp h =
    same_status (record page { status_code = code }) resp h

module _ (net : Network) (has_store : Bool) (w : net.World) (r : Request)
    (dist : Distribution) where
  apply_matched_status :
      (er : ErrorResponse) (resp replaced : OriginResponse) (viewer_headers : Header)
      (request_id : Bytes)
      → (apply_matched net has_store w r dist (some er) resp viewer_headers request_id).1
        ≡ some replaced
      → replaced.status_code ≡ er.response_code
  unfolding apply_matched
  apply_matched_status er resp replaced viewer_headers request_id h =
      elim (Bool-cases (is_empty er.response_page_path)) [
        | inl e ↦ same_status (record resp { status_code = er.response_code }) replaced (rw e at h)
        | inr e ↦ with_status_inv net er.response_code _ replaced (rw e at h)
      ]

  no_match :
      (resp replaced : OriginResponse) (viewer_headers : Header) (request_id : Bytes)
      → ¬ (apply_matched net has_store w r dist none resp viewer_headers request_id).1
        ≡ some replaced
  unfolding apply_matched
  no_match resp replaced viewer_headers request_id h = cc

  -- Where applyErrorResponse replaces a response, the first error response of the distribution
  -- for the origin's status applies, and the new status is its response code.
  pub apply_error_response-Applies :
      (resp replaced : OriginResponse) (viewer_headers : Header) (request_id : Bytes)
      → (apply_error_response net has_store w r dist resp viewer_headers request_id).1
        ≡ some replaced
      → (er : ErrorResponse) × Applies resp.status_code dist.error_responses er
        × (replaced.status_code ≡ er.response_code)
  unfolding apply_error_response
  apply_error_response-Applies resp replaced viewer_headers request_id h =
      elim (Option-cases (match_error_response dist.error_responses resp.status_code)) [
        | inl e ↦ absurd (no_match resp replaced viewer_headers request_id (rw e at h))
        | inr (er, e) ↦ (
          er,
          match_error_response-Applies _ _ er e,
          apply_matched_status er resp replaced viewer_headers request_id (rw e at h),
        )
      ]
