-- ===== src/Config/Props.antt =====
-- internal/config/props.go: the decoded properties of the resources. A pointer is an `Option`, a
-- `json.RawMessage` the bytes of its document; the decoding from JSON is the standard library's.
-- Numbers with a fraction come in through `FloatOps`.
use localfront.Base.{Bool, List, Option, none, some}
use localfront.Text.{Bytes}
use localfront.Num.{ℤ}

-- What is used of `float64`: the constants, the product, and the conversion to an `int64`.
pub record FloatOps : Type 1 where
  pub Float : Type 0
  pub number : ℤ → Float
  pub times : Float → Float → Float
  pub truncate : Float → ℤ

-- `Value` of `flexBool`, `flexInt` and `flexFloat`
abbrev pub value_or : {A : Type 0} → Option A → A → A
value_or none def = def
value_or (some v) def = v

pub record ForwardedCookiesProps : Type 0 where
  pub forward : Bytes
  pub whitelisted_names : List Bytes

pub record ForwardedValuesProps : Type 0 where
  pub query_string : Option Bool
  pub cookies : Option ForwardedCookiesProps
  pub headers : List Bytes
  pub query_string_cache_keys : List Bytes

pub record FunctionAssociationProps : Type 0 where
  pub event_type : Bytes
  pub function_arn : Bytes

pub record HeadersConfigProps : Type 0 where
  pub header_behavior : Bytes
  pub headers : List Bytes

pub record CookiesConfigProps : Type 0 where
  pub cookie_behavior : Bytes
  pub cookies : List Bytes

pub record QueryStringsConfigProps : Type 0 where
  pub query_string_behavior : Bytes
  pub query_strings : List Bytes

pub record CacheKeyParamsProps : Type 0 where
  pub enable_accept_encoding_brotli : Option Bool
  pub enable_accept_encoding_gzip : Option Bool
  pub headers_config : Option HeadersConfigProps
  pub cookies_config : Option CookiesConfigProps
  pub query_strings_config : Option QueryStringsConfigProps

pub record OriginRequestPolicyConfigProps : Type 0 where
  pub name : Bytes
  pub comment : Bytes
  pub headers_config : Option HeadersConfigProps
  pub cookies_config : Option CookiesConfigProps
  pub query_strings_config : Option QueryStringsConfigProps

pub record CorsConfigProps : Type 0 where
  pub access_control_allow_credentials : Option Bool
  pub access_control_allow_headers : List Bytes
  pub access_control_allow_methods : List Bytes
  pub access_control_allow_origins : List Bytes
  pub access_control_expose_headers : List Bytes
  pub access_control_max_age_sec : Option ℤ
  pub origin_override : Option Bool

pub record CustomHeaderProps : Type 0 where
  pub header : Bytes
  pub value : Bytes
  pub override : Option Bool

pub record CustomHeadersConfigProps : Type 0 where
  pub items : List CustomHeaderProps

pub record RemoveHeaderProps : Type 0 where
  pub header : Bytes

pub record RemoveHeadersConfigProps : Type 0 where
  pub items : List RemoveHeaderProps

pub record CspProps : Type 0 where
  pub content_security_policy : Bytes
  pub override : Option Bool

pub record ContentTypeOptionsProps : Type 0 where
  pub override : Option Bool

pub record FrameOptionsProps : Type 0 where
  pub frame_option : Bytes
  pub override : Option Bool

pub record ReferrerPolicyProps : Type 0 where
  pub referrer_policy : Bytes
  pub override : Option Bool

pub record HstsProps : Type 0 where
  pub access_control_max_age_sec : Option ℤ
  pub include_subdomains : Option Bool
  pub preload : Option Bool
  pub override : Option Bool

pub record XssProtectionProps : Type 0 where
  pub mode_block : Option Bool
  pub override : Option Bool
  pub protection : Option Bool
  pub report_uri : Bytes

pub record SecurityHeadersConfigProps : Type 0 where
  pub content_security_policy : Option CspProps
  pub content_type_options : Option ContentTypeOptionsProps
  pub frame_options : Option FrameOptionsProps
  pub referrer_policy : Option ReferrerPolicyProps
  pub strict_transport_security : Option HstsProps
  pub xss_protection : Option XssProtectionProps

pub record ResponseHeadersPolicyConfigProps : Type 0 where
  pub name : Bytes
  pub comment : Bytes
  pub cors_config : Option CorsConfigProps
  pub custom_headers_config : Option CustomHeadersConfigProps
  pub remove_headers_config : Option RemoveHeadersConfigProps
  pub security_headers_config : Option SecurityHeadersConfigProps
  pub server_timing_headers_config : Bytes

pub record OriginGroupsProps : Type 0 where
  pub quantity : Option ℤ
  pub items : List Bytes

pub record CustomOriginConfigProps : Type 0 where
  pub http_port : Option ℤ
  pub https_port : Option ℤ
  pub origin_keepalive_timeout : Option ℤ
  pub origin_protocol_policy : Bytes
  pub origin_read_timeout : Option ℤ

pub record S3OriginConfigProps : Type 0 where
  pub origin_access_identity : Bytes
  pub origin_read_timeout : Option ℤ

pub record OriginCustomHeaderProps : Type 0 where
  pub header_name : Bytes
  pub header_value : Bytes

pub record OriginProps : Type 0 where
  pub id : Bytes
  pub domain_name : Bytes
  pub origin_path : Bytes
  pub connection_attempts : Option ℤ
  pub connection_timeout : Option ℤ
  pub custom_origin_config : Option CustomOriginConfigProps
  pub s3_origin_config : Option S3OriginConfigProps
  pub origin_custom_headers : List OriginCustomHeaderProps
  pub vpc_origin_config : Bytes

pub record CustomErrorResponseProps : Type 0 where
  pub error_code : Option ℤ
  pub response_code : Option ℤ
  pub response_page_path : Bytes

pub record KvsAssociationProps : Type 0 where
  pub key_value_store_arn : Bytes

pub record FunctionConfigProps : Type 0 where
  pub comment : Bytes
  pub runtime : Bytes
  pub key_value_store_associations : List KvsAssociationProps

pub record FunctionProps : Type 0 where
  pub name : Bytes
  pub function_code : Bytes
  pub function_config : Option FunctionConfigProps

pub record ImportSourceProps : Type 0 where
  pub source_arn : Bytes
  pub source_type : Bytes

pub record KeyValueStoreProps : Type 0 where
  pub name : Bytes
  pub comment : Bytes
  pub import_source : Option ImportSourceProps

pub record PublicKeyConfigProps : Type 0 where
  pub caller_reference : Bytes
  pub comment : Bytes
  pub encoded_key : Bytes
  pub name : Bytes

pub record PublicKeyProps : Type 0 where
  pub public_key_config : Option PublicKeyConfigProps

pub record KeyGroupConfigProps : Type 0 where
  pub comment : Bytes
  pub items : List Bytes
  pub name : Bytes

pub record KeyGroupProps : Type 0 where
  pub key_group_config : Option KeyGroupConfigProps

pub record OriginAccessControlConfigProps : Type 0 where
  pub description : Bytes
  pub name : Bytes
  pub origin_access_control_origin_type : Bytes
  pub signing_behavior : Bytes
  pub signing_protocol : Bytes

pub record OriginAccessControlProps : Type 0 where
  pub origin_access_control_config : Option OriginAccessControlConfigProps

pub record OriginRequestPolicyProps : Type 0 where
  pub origin_request_policy_config : Option OriginRequestPolicyConfigProps

pub record ResponseHeadersPolicyProps : Type 0 where
  pub response_headers_policy_config : Option ResponseHeadersPolicyConfigProps

module _ (fl : FloatOps) where
  open fl use {Float}

  pub record BehaviorProps : Type 0 where
    pub path_pattern : Bytes
    pub target_origin_id : Bytes
    pub viewer_protocol_policy : Bytes
    pub allowed_methods : List Bytes
    pub cached_methods : List Bytes
    pub cache_policy_id : Bytes
    pub origin_request_policy_id : Bytes
    pub response_headers_policy_id : Bytes
    pub compress : Option Bool
    pub field_level_encryption_id : Bytes
    pub forwarded_values : Option ForwardedValuesProps
    pub function_associations : List FunctionAssociationProps
    pub lambda_function_associations : List Bytes
    pub realtime_log_config_arn : Bytes
    pub trusted_key_groups : List Bytes
    pub trusted_signers : List Bytes
    pub min_ttl : Option Float
    pub default_ttl : Option Float
    pub max_ttl : Option Float

  pub record CachePolicyConfigProps : Type 0 where
    pub name : Bytes
    pub comment : Bytes
    pub default_ttl : Option Float
    pub max_ttl : Option Float
    pub min_ttl : Option Float
    pub parameters_in_cache_key_and_forwarded_to_origin : Option CacheKeyParamsProps

  pub record CachePolicyProps : Type 0 where
    pub cache_policy_config : Option CachePolicyConfigProps

  -- `distributionConfigProps`, without what the code ignores
  pub record DistributionConfigProps : Type 0 where
    pub aliases : List Bytes
    pub cnames : List Bytes
    pub continuous_deployment_policy_id : Bytes
    pub custom_error_responses : List CustomErrorResponseProps
    pub default_cache_behavior : Option BehaviorProps
    pub cache_behaviors : List BehaviorProps
    pub default_root_object : Bytes
    pub enabled : Option Bool
    pub origin_groups : Option OriginGroupsProps
    pub origins : List OriginProps
    pub anycast_ip_list_id : Bytes
    pub tenant_config : Bytes

  pub record DistributionProps : Type 0 where
    pub distribution_config : Option DistributionConfigProps
