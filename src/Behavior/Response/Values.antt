-- ===== src/Behavior/Response/Values.antt =====
-- The response headers policy leaves no header without a value.
use localfront.Base.{Bool, List, [], ◌∷◌, Option, none, some, Option-cases, inl, inr}
use localfront.Text.{Bytes, codes, is_empty}
use localfront.Num.{format_int}
use localfront.Http.{Header}
use localfront.Http.Filled.{Filled, Filled-if, Filled-set, Filled-add, Filled-del}
use localfront.Config.{
  Behavior, ResponseHeadersPolicy, CorsConfig, CustomHeader, SecurityHeaders, HeaderToggle,
  HeaderValue, Hsts, XssProtection,
}
use localfront.Behavior.Response.{
  set_if, set_toggle, set_value, set_hsts, set_xss, apply_security_headers, add_vary, set_origin,
  set_list, apply_cors, remove_headers, custom_headers, apply_policy, apply_response_headers,
  cors_allow_origin,
}

Filled-set_if :
    (h : Header) (name value : Bytes) (override : Bool)
    → Filled h
    → Filled (set_if h name value override)
unfolding set_if
Filled-set_if h name value override f = Filled-if _ _ h (Filled-set h name value f) f

-- The four optional security headers with a value of their own.
Filled-set_toggle : (o : Option HeaderToggle) (h : Header) → Filled h → Filled (set_toggle o h)
Filled-set_toggle none h f = f
Filled-set_toggle (some v) h f = Filled-set_if h _ _ v.override f

Filled-set_value :
    (name : Bytes) (o : Option HeaderValue) (h : Header) → Filled h → Filled (set_value name o h)
Filled-set_value name none h f = f
Filled-set_value name (some v) h f = Filled-set_if h name _ v.override f

Filled-set_hsts : (o : Option Hsts) (h : Header) → Filled h → Filled (set_hsts o h)
Filled-set_hsts none h f = f
Filled-set_hsts (some v) h f = Filled-set_if h _ _ v.override f

Filled-set_xss : (o : Option XssProtection) (h : Header) → Filled h → Filled (set_xss o h)
Filled-set_xss none h f = f
Filled-set_xss (some v) h f = Filled-set_if h _ _ v.override f

Filled-apply_security_headers :
    (o : Option SecurityHeaders) (h : Header) → Filled h → Filled (apply_security_headers o h)
unfolding apply_security_headers
Filled-apply_security_headers none h f = f
Filled-apply_security_headers (some sec) h f = Filled-set_xss sec.xss_protection _ (
    Filled-set_hsts sec.strict_transport_security _ (
      Filled-set_value _ sec.content_security_policy _ (
        Filled-set_value _ sec.referrer_policy _ (
          Filled-set_value _ sec.frame_options _
            (Filled-set_toggle sec.content_type_options h f)))))

Filled-add_vary : (h : Header) (value : Bytes) → Filled h → Filled (add_vary h value)
unfolding add_vary
Filled-add_vary h value f = Filled-if _ h _ f (Filled-add h (codes "Vary") value f)

Filled-set_origin :
    (o : Bytes × Bool) (override : Bool) (h : Header) → Filled h → Filled (set_origin o override h)
Filled-set_origin (value, vary) override h f =
    let own = Filled-set_if h (codes "Access-Control-Allow-Origin") value override f in
    Filled-if (is_empty value) h _ f
      (Filled-if vary _ _ (Filled-add_vary _ (codes "Origin") own) own)

Filled-set_list :
    (name : Bytes) (items : List Bytes) (override : Bool) (h : Header)
    → Filled h
    → Filled (set_list name items override h)
Filled-set_list name [] override h f = f
Filled-set_list name (item ∷ items) override h f = Filled-set_if h name _ override f

Filled-apply_cors :
    (o : Option CorsConfig) (h : Header) (origin : Bytes)
    → Filled h
    → Filled (apply_cors o h origin)
unfolding apply_cors
Filled-apply_cors none h origin f = f
Filled-apply_cors (some cors) h origin f =
    let named =
      Filled-set_origin (cors_allow_origin cors.allow_origins origin) cors.origin_override h f in
    let methods =
      Filled-set_list (codes "Access-Control-Allow-Methods") cors.allow_methods cors.origin_override
        _ named in
    let headers =
      Filled-set_list (codes "Access-Control-Allow-Headers") cors.allow_headers cors.origin_override
        _ methods in
    let exposed =
      Filled-set_list (codes "Access-Control-Expose-Headers") cors.expose_headers
        cors.origin_override _ headers in
    let credited =
      Filled-if cors.allow_credentials _ _
        (Filled-set_if _ (codes "Access-Control-Allow-Credentials") (codes "true")
          cors.origin_override exposed)
        exposed in
    Filled-if cors.has_max_age _ _
      (Filled-set_if _ (codes "Access-Control-Max-Age") (format_int cors.max_age_sec)
        cors.origin_override credited)
      credited

Filled-remove_headers :
    (names : List Bytes) (h : Header) → Filled h → Filled (remove_headers names h)
unfolding remove_headers
Filled-remove_headers [] h f = f
Filled-remove_headers (name ∷ names) h f = Filled-remove_headers names _ (Filled-del h name f)

Filled-custom_headers :
    (chs : List CustomHeader) (h : Header) → Filled h → Filled (custom_headers chs h)
unfolding custom_headers
Filled-custom_headers [] h f = f
Filled-custom_headers (ch ∷ chs) h f =
    Filled-custom_headers chs _ (Filled-set_if h ch.name ch.value ch.override f)

Filled-apply_policy :
    (policy : ResponseHeadersPolicy) (h : Header) (origin : Bytes)
    → Filled h
    → Filled (apply_policy policy h origin)
Filled-apply_policy policy h origin f =
    let secured = Filled-apply_security_headers policy.security _ (
      Filled-custom_headers policy.custom_headers _
        (Filled-remove_headers policy.remove_headers h f)) in
    Filled-if (is_empty origin) _ _ secured (Filled-apply_cors policy.cors _ origin secured)

pub Filled-apply_response_headers :
    (b : Behavior) (h : Header) (origin : Bytes)
    → Filled h
    → Filled (apply_response_headers b h origin)
unfolding apply_response_headers
Filled-apply_response_headers b h origin f = elim (Option-cases b.response_headers_policy) [
  | inl e ↦ rw e f
  | inr (policy, e) ↦ rw e (Filled-apply_policy policy h origin f)
]
