-- ===== src/Config/Policies.antt =====
-- internal/config/policies.go: policies from their decoded properties.
pub mod Forwarded
pub mod Laws
use localfront.Base.{
  Bool, true, false, ◌||◌, ◌&&◌, not, ℕ, List, [], ◌∷◌, map, Option, none, some, if◌then◌else◌, any,
}
use localfront.Text.{Bytes, codes, str_eq, is_empty}
use localfront.Num.{ℤ, pos}
use localfront.Config.{
  ListSelection, CachePolicy, OriginRequestPolicy, CorsConfig, CustomHeader, HeaderValue,
  HeaderToggle, Hsts, XssProtection, SecurityHeaders, ResponseHeadersPolicy,
}
use localfront.Config.Props.{
  FloatOps, value_or, ForwardedCookiesProps, ForwardedValuesProps, BehaviorProps,
  HeadersConfigProps, CookiesConfigProps, QueryStringsConfigProps, CacheKeyParamsProps,
  CachePolicyConfigProps, OriginRequestPolicyConfigProps, CorsConfigProps, CustomHeaderProps,
  CustomHeadersConfigProps, RemoveHeaderProps, RemoveHeadersConfigProps, CspProps,
  ContentTypeOptionsProps, FrameOptionsProps, ReferrerPolicyProps, HstsProps, XssProtectionProps,
  SecurityHeadersConfigProps, ResponseHeadersPolicyConfigProps,
}
use localfront.Config.Policies.Forwarded.{
  nothing_selected, forwarded_headers, forwarded_cookies, forwarded_query_strings,
}

-- `defaultBehavior`
unfoldable pub default_behavior : Bytes → Bytes → Bytes
default_behavior v def = if is_empty v then def else v

abbrev pub headers_from_props : Option HeadersConfigProps → ListSelection
headers_from_props none = nothing_selected
headers_from_props (some c) = record {
  behavior = default_behavior c.header_behavior (codes "none");
  items = c.headers;
}

abbrev pub cookies_from_props : Option CookiesConfigProps → ListSelection
cookies_from_props none = nothing_selected
cookies_from_props (some c) = record {
  behavior = default_behavior c.cookie_behavior (codes "none");
  items = c.cookies;
}

abbrev pub query_strings_from_props : Option QueryStringsConfigProps → ListSelection
query_strings_from_props none = nothing_selected
query_strings_from_props (some c) = record {
  behavior = default_behavior c.query_string_behavior (codes "none");
  items = c.query_strings;
}

-- `originRequestPolicyFromProps`: `none` is the error that the configuration is required.
unfoldable pub origin_request_policy_from_props :
    Bytes → Option OriginRequestPolicyConfigProps → Option OriginRequestPolicy
origin_request_policy_from_props id none = none
origin_request_policy_from_props id (some p) = some (record {
  id = id;
  name = p.name;
  headers = headers_from_props p.headers_config;
  cookies = cookies_from_props p.cookies_config;
  query_strings = query_strings_from_props p.query_strings_config;
})

-- `corsFromProps`
unfoldable pub cors_from_props : Option CorsConfigProps → Option CorsConfig
cors_from_props none = none
cors_from_props (some c) = some (record {
  allow_credentials = value_or c.access_control_allow_credentials false;
  allow_headers = c.access_control_allow_headers;
  allow_methods = c.access_control_allow_methods;
  allow_origins = c.access_control_allow_origins;
  expose_headers = c.access_control_expose_headers;
  max_age_sec = value_or c.access_control_max_age_sec (pos 0);
  has_max_age = elim c.access_control_max_age_sec [ none ↦ false | some _ ↦ true ];
  origin_override = value_or c.origin_override false;
})

abbrev custom_header_from_props : CustomHeaderProps → CustomHeader
custom_header_from_props h = record {
  name = h.header;
  value = h.value;
  override = value_or h.override false;
}

-- `customHeadersFromProps`
unfoldable pub custom_headers_from_props : Option CustomHeadersConfigProps → List CustomHeader
custom_headers_from_props none = []
custom_headers_from_props (some c) = map custom_header_from_props c.items

-- `removeHeadersFromProps`
unfoldable pub remove_headers_from_props : Option RemoveHeadersConfigProps → List Bytes
remove_headers_from_props none = []
remove_headers_from_props (some c) = map (λ h. h.header) c.items

abbrev csp_from_props : Option CspProps → Option HeaderValue
csp_from_props none = none
csp_from_props (some v) =
    some (record { value = v.content_security_policy; override = value_or v.override false })

abbrev content_type_from_props : Option ContentTypeOptionsProps → Option HeaderToggle
content_type_from_props none = none
content_type_from_props (some v) = some (record { override = value_or v.override false })

abbrev frame_from_props : Option FrameOptionsProps → Option HeaderValue
frame_from_props none = none
frame_from_props (some v) =
    some (record { value = v.frame_option; override = value_or v.override false })

abbrev referrer_from_props : Option ReferrerPolicyProps → Option HeaderValue
referrer_from_props none = none
referrer_from_props (some v) =
    some (record { value = v.referrer_policy; override = value_or v.override false })

abbrev hsts_from_props : Option HstsProps → Option Hsts
hsts_from_props none = none
hsts_from_props (some v) = some (record {
  max_age_sec = value_or v.access_control_max_age_sec (pos 0);
  include_subdomains = value_or v.include_subdomains false;
  preload = value_or v.preload false;
  override = value_or v.override false;
})

abbrev xss_from_props : Option XssProtectionProps → Option XssProtection
xss_from_props none = none
xss_from_props (some v) = some (record {
  protection = value_or v.protection false;
  mode_block = value_or v.mode_block false;
  report_uri = v.report_uri;
  override = value_or v.override false;
})

-- `securityHeadersFromProps`
unfoldable pub security_headers_from_props :
    Option SecurityHeadersConfigProps → Option SecurityHeaders
security_headers_from_props none = none
security_headers_from_props (some c) = some (record {
  content_security_policy = csp_from_props c.content_security_policy;
  content_type_options = content_type_from_props c.content_type_options;
  frame_options = frame_from_props c.frame_options;
  referrer_policy = referrer_from_props c.referrer_policy;
  strict_transport_security = hsts_from_props c.strict_transport_security;
  xss_protection = xss_from_props c.xss_protection;
})

-- `responseHeadersPolicyFromProps`: `none` is the error that the configuration is required.
unfoldable pub response_headers_policy_from_props :
    Bytes → Option ResponseHeadersPolicyConfigProps → Option ResponseHeadersPolicy
response_headers_policy_from_props id none = none
response_headers_policy_from_props id (some p) = some (record {
  id = id;
  name = p.name;
  cors = cors_from_props p.cors_config;
  custom_headers = custom_headers_from_props p.custom_headers_config;
  remove_headers = remove_headers_from_props p.remove_headers_config;
  security = security_headers_from_props p.security_headers_config;
})

module _ (fl : FloatOps) where
  open fl use {Float, number, times, truncate}

  -- `secondsToDuration`
  unfoldable pub seconds_to_duration : Float → ℤ
  seconds_to_duration s = truncate (times s (number (pos 1000000000)))

  -- `cachePolicyFromProps`: `none` is the error that the configuration is required.
  unfoldable pub cache_policy_from_props :
      Bytes → Option (CachePolicyConfigProps fl) → Option CachePolicy
  cache_policy_from_props id none = none
  cache_policy_from_props id (some p) = some (record {
    id = id;
    name = p.name;
    min_ttl = seconds_to_duration (value_or p.min_ttl (number (pos 0)));
    default_ttl = seconds_to_duration (value_or p.default_ttl (number (pos 86400)));
    max_ttl = seconds_to_duration (value_or p.max_ttl (number (pos 31536000)));
    gzip = elim p.parameters_in_cache_key_and_forwarded_to_origin [
      | none ↦ false
      | some k ↦ value_or k.enable_accept_encoding_gzip false
    ];
    brotli = elim p.parameters_in_cache_key_and_forwarded_to_origin [
      | none ↦ false
      | some k ↦ value_or k.enable_accept_encoding_brotli false
    ];
    headers = elim p.parameters_in_cache_key_and_forwarded_to_origin [
      | none ↦ nothing_selected
      | some k ↦ headers_from_props k.headers_config
    ];
    cookies = elim p.parameters_in_cache_key_and_forwarded_to_origin [
      | none ↦ nothing_selected
      | some k ↦ cookies_from_props k.cookies_config
    ];
    query_strings = elim p.parameters_in_cache_key_and_forwarded_to_origin [
      | none ↦ nothing_selected
      | some k ↦ query_strings_from_props k.query_strings_config
    ];
  })

  -- `cachePolicyFromForwardedValues`, with `b.ForwardedValues` as its second argument: the callers
  -- have seen that it is there.
  unfoldable pub cache_policy_from_forwarded_values :
      Bytes → ForwardedValuesProps → BehaviorProps fl → CachePolicy
  cache_policy_from_forwarded_values name fv b = record {
    id = [];
    name = name;
    min_ttl = seconds_to_duration (value_or b.min_ttl (number (pos 0)));
    default_ttl = seconds_to_duration (value_or b.default_ttl (number (pos 86400)));
    max_ttl = seconds_to_duration (value_or b.max_ttl (number (pos 31536000)));
    gzip = false;
    brotli = false;
    headers = forwarded_headers fv.headers;
    cookies = forwarded_cookies fv.cookies;
    query_strings = forwarded_query_strings fv;
  }
