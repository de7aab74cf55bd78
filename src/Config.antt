-- ===== src/Config.antt =====
-- internal/config/model.go: the resolved configuration that the data plane serves from. Pointers
-- are values, since nothing is changed after a load; one that may be nil is an `Option`.
pub mod Props
pub mod Policies
pub mod Build
use localfront.Base.{Bool, true, false, ◌||◌, List, [], ◌∷◌, ◌++◌, Option, any}
use localfront.Text.{Bytes, str_eq, equal_fold}
use localfront.Num.{ℤ}

pub record OriginCustomHeader : Type 0 where
  pub name : Bytes
  pub value : Bytes

pub record CustomOrigin : Type 0 where
  pub host : Bytes
  pub http_port : ℤ
  pub https_port : ℤ
  pub protocol_policy : Bytes
  pub read_timeout : ℤ
  pub keepalive_timeout : ℤ

pub record S3Origin : Type 0 where
  pub bucket : Bytes
  pub region : Bytes

pub record Origin : Type 0 where
  pub id : Bytes
  pub origin_path : Bytes
  pub custom_headers : List OriginCustomHeader
  pub custom : Option CustomOrigin
  pub s3 : Option S3Origin
  pub connection_attempts : ℤ
  pub connection_timeout : ℤ

pub record ErrorResponse : Type 0 where
  pub error_code : ℤ
  pub response_code : ℤ
  pub response_page_path : Bytes

pub record ListSelection : Type 0 where
  pub behavior : Bytes
  pub items : List Bytes

-- `ListSelection.Contains`
unfoldable pub selection_contains : ListSelection → Bytes → Bool
selection_contains s name = any (λ it. str_eq it name) s.items

-- `ListSelection.ContainsFold`
unfoldable pub selection_contains_fold : ListSelection → Bytes → Bool
selection_contains_fold s name = any (λ it. equal_fold it name) s.items

pub record CachePolicy : Type 0 where
  pub id : Bytes
  pub name : Bytes
  pub min_ttl : ℤ
  pub default_ttl : ℤ
  pub max_ttl : ℤ
  pub gzip : Bool
  pub brotli : Bool
  pub headers : ListSelection
  pub cookies : ListSelection
  pub query_strings : ListSelection

pub record OriginRequestPolicy : Type 0 where
  pub id : Bytes
  pub name : Bytes
  pub headers : ListSelection
  pub cookies : ListSelection
  pub query_strings : ListSelection

pub record CorsConfig : Type 0 where
  pub allow_credentials : Bool
  pub allow_headers : List Bytes
  pub allow_methods : List Bytes
  pub allow_origins : List Bytes
  pub expose_headers : List Bytes
  pub max_age_sec : ℤ
  pub has_max_age : Bool
  pub origin_override : Bool

pub record CustomHeader : Type 0 where
  pub name : Bytes
  pub value : Bytes
  pub override : Bool

pub record HeaderValue : Type 0 where
  pub value : Bytes
  pub override : Bool

pub record HeaderToggle : Type 0 where
  pub override : Bool

pub record Hsts : Type 0 where
  pub max_age_sec : ℤ
  pub include_subdomains : Bool
  pub preload : Bool
  pub override : Bool

pub record XssProtection : Type 0 where
  pub protection : Bool
  pub mode_block : Bool
  pub report_uri : Bytes
  pub override : Bool

pub record SecurityHeaders : Type 0 where
  pub content_security_policy : Option HeaderValue
  pub content_type_options : Option HeaderToggle
  pub frame_options : Option HeaderValue
  pub referrer_policy : Option HeaderValue
  pub strict_transport_security : Option Hsts
  pub xss_protection : Option XssProtection

pub record ResponseHeadersPolicy : Type 0 where
  pub id : Bytes
  pub name : Bytes
  pub cors : Option CorsConfig
  pub custom_headers : List CustomHeader
  pub remove_headers : List Bytes
  pub security : Option SecurityHeaders

pub record KeyValueStore : Type 0 where
  pub logical_id : Bytes
  pub name : Bytes
  pub id : Bytes
  pub arn : Bytes
  pub import_source_arn : Bytes

pub record Function : Type 0 where
  pub logical_id : Bytes
  pub name : Bytes
  pub arn : Bytes
  pub runtime : Bytes
  pub source : Bytes
  pub key_value_stores : List KeyValueStore

pub record PublicKey : Type 0 where
  pub logical_id : Bytes
  pub id : Bytes
  pub name : Bytes
  pub encoded_key : Bytes

pub record KeyGroup : Type 0 where
  pub logical_id : Bytes
  pub id : Bytes
  pub name : Bytes
  pub keys : List PublicKey

pub record OriginAccessControl : Type 0 where
  pub logical_id : Bytes
  pub id : Bytes
  pub name : Bytes

-- A path pattern of "" stands for the default behavior.
pub record Behavior : Type 0 where
  pub path_pattern : Bytes
  pub origin : Origin
  pub viewer_protocol_policy : Bytes
  pub allowed_methods : List Bytes
  pub cached_methods : List Bytes
  pub compress : Bool
  pub cache_policy : Option CachePolicy
  pub origin_request_policy : Option OriginRequestPolicy
  pub response_headers_policy : Option ResponseHeadersPolicy
  pub trusted_key_groups : List KeyGroup
  pub viewer_request : Option Function
  pub viewer_response : Option Function

pub record Distribution : Type 0 where
  pub logical_id : Bytes
  pub id : Bytes
  pub arn : Bytes
  pub domain_name : Bytes
  pub aliases : List Bytes
  pub enabled : Bool
  pub default_root_object : Bytes
  pub origins : List Origin
  pub default_behavior : Behavior
  pub behaviors : List Behavior
  pub error_responses : List ErrorResponse

-- `Distribution.Hostnames`
unfoldable pub hostnames : Distribution → List Bytes
hostnames d = d.domain_name ∷ d.aliases

pub record Config : Type 0 where
  pub distributions : List Distribution
  pub functions : List Function
  pub key_value_stores : List KeyValueStore
  pub key_groups : List KeyGroup
  pub public_keys : List PublicKey
  pub origin_access_controls : List OriginAccessControl
  pub warnings : List Bytes
