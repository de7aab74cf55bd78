-- ===== src/Behavior/Response.antt =====
-- internal/behavior/response.go: the response headers policy.
pub mod Security
pub mod Cors
pub mod Policy
pub mod Values
use localfront.Base.{
  ℕ, true, false, Bool, not, ◌&&◌, ◌||◌, List, [], ◌∷◌, ◌++◌, Option, none, some, if◌then◌else◌,
  any, find,
}
use localfront.Text.{Bytes, codes, str_eq, is_empty, equal_fold, trim_space, split, join}
use localfront.Num.{ℤ, format_int}
use localfront.Http.{Header, values, get, set, add, del}
use localfront.Config.{
  Behavior, ResponseHeadersPolicy, CorsConfig, CustomHeader, SecurityHeaders, HeaderValue,
  HeaderToggle, Hsts, XssProtection,
}

-- `setCors`, and `setIf` of `applySecurityHeaders`
unfoldable pub set_if : Header → Bytes → Bytes → Bool → Header
set_if resp name value override =
    if override || is_empty (get resp name) then set resp name value else resp

-- `hstsValue`
unfoldable pub hsts_value : Hsts → Bytes
hsts_value h =
    (codes "max-age=" ++ format_int h.max_age_sec)
    ++ ((if h.include_subdomains then codes "; includeSubDomains" else [])
        ++ (if h.preload then codes "; preload" else []))

-- `xssValue`
unfoldable pub xss_value : XssProtection → Bytes
xss_value x =
    if not x.protection
    then codes "0"
    else codes "1"
      ++ ((if x.mode_block then codes "; mode=block" else [])
          ++ (if is_empty x.report_uri then [] else codes "; report=" ++ x.report_uri))

abbrev pub set_toggle : Option HeaderToggle → Header → Header
set_toggle none resp = resp
set_toggle (some v) resp = set_if resp (codes "X-Content-Type-Options") (codes "nosniff") v.override

abbrev pub set_value : Bytes → Option HeaderValue → Header → Header
set_value name none resp = resp
set_value name (some v) resp = set_if resp name v.value v.override

abbrev pub set_hsts : Option Hsts → Header → Header
set_hsts none resp = resp
set_hsts (some v) resp = set_if resp (codes "Strict-Transport-Security") (hsts_value v) v.override

abbrev pub set_xss : Option XssProtection → Header → Header
set_xss none resp = resp
set_xss (some v) resp = set_if resp (codes "X-XSS-Protection") (xss_value v) v.override

-- `applySecurityHeaders`
unfoldable pub apply_security_headers : Option SecurityHeaders → Header → Header
apply_security_headers none resp = resp
apply_security_headers (some sec) resp = set_xss sec.xss_protection (
    set_hsts sec.strict_transport_security (
      set_value (codes "Content-Security-Policy") sec.content_security_policy (
        set_value (codes "Referrer-Policy") sec.referrer_policy (
          set_value (codes "X-Frame-Options") sec.frame_options
            (set_toggle sec.content_type_options resp)))))

-- `corsAllowOrigin`: the value and whether the response varies on Origin.
unfoldable pub cors_allow_origin : List Bytes → Bytes → Bytes × Bool
cors_allow_origin allow_origins request_origin =
    if any (λ o. str_eq o (codes "*")) allow_origins
    then (codes "*", false)
    else if any (λ o. equal_fold o request_origin) allow_origins
    then (request_origin, true)
    else ([], false)

-- `addVary`
unfoldable pub add_vary : Header → Bytes → Header
add_vary resp value =
    if any (λ existing. any (λ part. equal_fold (trim_space part) value) (split existing b','))
      (values resp (codes "Vary"))
    then resp
    else add resp (codes "Vary") value

abbrev pub set_origin : Bytes × Bool → Bool → Header → Header
set_origin (allow_origin, vary) override resp =
    if is_empty allow_origin
    then resp
    else if vary
    then add_vary (set_if resp (codes "Access-Control-Allow-Origin") allow_origin override)
        (codes "Origin")
    else set_if resp (codes "Access-Control-Allow-Origin") allow_origin override

-- `if len(items) > 0 { setCors(resp, name, joinCors(items), override) }`
abbrev pub set_list : Bytes → List Bytes → Bool → Header → Header
set_list name [] override resp = resp
set_list name (item ∷ items) override resp =
    set_if resp name (join (item ∷ items) (codes ", ")) override

abbrev pub set_credentials : Bool → Bool → Header → Header
set_credentials allowed override resp =
    if allowed
    then set_if resp (codes "Access-Control-Allow-Credentials") (codes "true") override
    else resp

abbrev pub set_max_age : Bool → ℤ → Bool → Header → Header
set_max_age has age override resp =
    if has then set_if resp (codes "Access-Control-Max-Age") (format_int age) override else resp

-- `applyCors`
unfoldable pub apply_cors : Option CorsConfig → Header → Bytes → Header
apply_cors none resp request_origin = resp
apply_cors (some cors) resp request_origin =
    set_max_age cors.has_max_age cors.max_age_sec cors.origin_override (
      set_credentials cors.allow_credentials cors.origin_override (
        set_list (codes "Access-Control-Expose-Headers") cors.expose_headers cors.origin_override (
          set_list (codes "Access-Control-Allow-Headers") cors.allow_headers cors.origin_override (
            set_list (codes "Access-Control-Allow-Methods") cors.allow_methods cors.origin_override
              (set_origin (cors_allow_origin cors.allow_origins request_origin) cors.origin_override
                resp)))))

-- `for _, name := range policy.RemoveHeaders { resp.Del(name) }`
unfoldable pub remove_headers : List Bytes → Header → Header
remove_headers [] resp = resp
remove_headers (name ∷ names) resp = remove_headers names (del resp name)

-- the loop over `policy.CustomHeaders`
unfoldable pub custom_headers : List CustomHeader → Header → Header
custom_headers [] resp = resp
custom_headers (ch ∷ chs) resp = custom_headers chs (set_if resp ch.name ch.value ch.override)

abbrev pub apply_policy : ResponseHeadersPolicy → Header → Bytes → Header
apply_policy policy resp request_origin =
    let cleaned = remove_headers policy.remove_headers resp in
    let secured =
      apply_security_headers policy.security (custom_headers policy.custom_headers cleaned) in
    if is_empty request_origin then secured else apply_cors policy.cors secured request_origin

-- `ApplyResponseHeaders`
unfoldable pub apply_response_headers : Behavior → Header → Bytes → Header
apply_response_headers b resp request_origin = elim b.response_headers_policy [
  | none ↦ resp
  | some policy ↦ apply_policy policy resp request_origin
]
