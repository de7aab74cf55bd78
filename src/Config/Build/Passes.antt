-- ===== src/Config/Build/Passes.antt =====
-- `Build` of internal/config/build.go, on resolved resources, with the managed policies of
-- internal/config/managed.go. The decoding of properties comes in as a `Decoder`.
pub mod Laws
use localfront.Base.{
  ℕ, Bool, true, false, not, ◌||◌, List, [], ◌∷◌, ◌++◌, Option, none, some, if◌then◌else◌, any,
}
use localfront.Text.{Bytes, codes, is_empty, str_eq}
use localfront.Text.Map.{StrMap, lookup, put}
use localfront.Config.{Config, CachePolicy, OriginRequestPolicy, ResponseHeadersPolicy}
use localfront.Config.Props.{
  FloatOps, DistributionProps, CachePolicyProps, CachePolicyConfigProps, OriginRequestPolicyProps,
  OriginRequestPolicyConfigProps, ResponseHeadersPolicyProps, ResponseHeadersPolicyConfigProps,
  FunctionProps, KeyValueStoreProps, PublicKeyProps, KeyGroupProps, OriginAccessControlProps,
}
use localfront.Config.Policies.{
  cache_policy_from_props, origin_request_policy_from_props, response_headers_policy_from_props,
}
use localfront.Config.Build.{
  Fault, Checked, ok, failed, ◌>>=◌, ◌>>◌, or_fault, wrap, malformed_properties, config_required,
  in_resource,
}
use localfront.Config.Build.Ids.{public_key_id, oac_id, uuid_id, function_arn_of}
use localfront.Config.Build.Behaviors.{Builder}
use localfront.Config.Build.Distributions.{add_distribution_resource}
use localfront.Config.Build.Resources.{
  add_oac, add_key_value_store, add_public_key, add_key_group, add_origin_request_policy,
  add_response_headers_policy, add_function,
}

-- The resource types, in the order of the passes.
pub data Kind : Type 0 where
  origin_access_control key_value_store public_key key_group cache_policy : Kind
  origin_request_policy response_headers_policy function distribution : Kind

abbrev pub passes : List Kind
passes =
    origin_access_control ∷ key_value_store ∷ public_key ∷ key_group ∷ cache_policy
    ∷ origin_request_policy ∷ response_headers_policy ∷ function ∷ distribution ∷ []

abbrev pub kind_name : Kind → Bytes
kind_name origin_access_control = codes "AWS::CloudFront::OriginAccessControl"
kind_name key_value_store = codes "AWS::CloudFront::KeyValueStore"
kind_name public_key = codes "AWS::CloudFront::PublicKey"
kind_name key_group = codes "AWS::CloudFront::KeyGroup"
kind_name cache_policy = codes "AWS::CloudFront::CachePolicy"
kind_name origin_request_policy = codes "AWS::CloudFront::OriginRequestPolicy"
kind_name response_headers_policy = codes "AWS::CloudFront::ResponseHeadersPolicy"
kind_name function = codes "AWS::CloudFront::Function"
kind_name distribution = codes "AWS::CloudFront::Distribution"

-- `cfntmpl.RawResource`: of its properties, those that are plain strings.
pub record RawResource : Type 0 where
  pub logical_id : Bytes
  pub type : Bytes
  pub literals : StrMap Bytes

-- `rawStringProp` of internal/config/refs.go
unfoldable pub raw_string_prop : RawResource → Bytes → Option Bytes
raw_string_prop res key = elim (lookup key res.literals) [
  | none ↦ none
  | some s ↦ if is_empty s then none else some s
]

-- `rawFunctionName`
unfoldable pub raw_function_name : RawResource → Bytes
raw_function_name res = elim (raw_string_prop res (codes "Name")) [
  | none ↦ res.logical_id
  | some name ↦ name
]

-- `newRefValuer`, and `rawByLogicalID`: the last resource of a name counts.
unfoldable pub index_raw : List RawResource → StrMap RawResource → StrMap RawResource
index_raw [] m = m
index_raw (r ∷ rs) m = index_raw rs (put r.logical_id r m)

abbrev pub function_name_of : Option RawResource → Bytes → Bytes
function_name_of none logical_id = logical_id
function_name_of (some res) logical_id = raw_function_name res

-- `builder` at the start, with the managed policies
abbrev pub no_config : List Bytes → Config
no_config warnings = record {
  distributions = [];
  functions = [];
  key_value_stores = [];
  key_groups = [];
  public_keys = [];
  origin_access_controls = [];
  warnings = warnings;
}

module _ (fl : FloatOps) where
  -- `decodeProps` for each kind of resource; `none` is an error.
  pub record Decoder : Type 1 where
    pub Properties : Type 0
    pub decode_origin_access_control : Properties → Option OriginAccessControlProps
    pub decode_key_value_store : Properties → Option KeyValueStoreProps
    pub decode_public_key : Properties → Option PublicKeyProps
    pub decode_key_group : Properties → Option KeyGroupProps
    pub decode_cache_policy : Properties → Option (CachePolicyProps fl)
    pub decode_origin_request_policy : Properties → Option OriginRequestPolicyProps
    pub decode_response_headers_policy : Properties → Option ResponseHeadersPolicyProps
    pub decode_function : Properties → Option FunctionProps
    pub decode_distribution : Properties → Option (DistributionProps fl)

  -- `managedPoliciesFile`, decoded
  pub record ManagedPolicies : Type 0 where
    pub cache_policies : List (Bytes × Option (CachePolicyConfigProps fl))
    pub origin_request_policies : List (Bytes × Option OriginRequestPolicyConfigProps)
    pub response_headers_policies : List (Bytes × Option ResponseHeadersPolicyConfigProps)

  -- one loop of `loadManaged`
  unfoldable pub load_policies {ℓ} :
      {A : Type ℓ} {B : Type 0}
      → (Bytes → A → Option B)
      → List (Bytes × A)
      → StrMap B
      → Checked (StrMap B)
  load_policies f [] m = ok m
  load_policies f ((id, config) ∷ entries) m = do
    p ← or_fault (f id config) config_required
    load_policies f entries (put id p m)

  -- `cachePolicy`
  unfoldable pub add_cache_policy : Builder → Bytes → CachePolicyProps fl → Checked Builder
  add_cache_policy b id p = do
    cp ← or_fault (cache_policy_from_props fl id p.cache_policy_config) config_required
    ok (record b { cache_policies = put cp.id cp b.cache_policies })

  module _ (sum : Bytes → Bytes) (dec : Decoder) where
    open dec use {Properties}

    -- `cfntmpl.Resource`
    pub record Resource : Type 0 where
      pub logical_id : Bytes
      pub type : Bytes
      pub properties : Properties
      pub source : Bytes

    -- one step of a pass
    unfoldable pub add_resource : StrMap RawResource → Kind → Builder → Resource → Checked Builder
    add_resource raw origin_access_control b res = do
      p ← or_fault (dec.decode_origin_access_control res.properties) malformed_properties
      ok (add_oac (oac_id sum res.logical_id) res.logical_id p b)
    add_resource raw key_value_store b res = do
      p ← or_fault (dec.decode_key_value_store res.properties) malformed_properties
      add_key_value_store b (uuid_id sum (codes "key-value-store") res.logical_id) res.logical_id p
    add_resource raw public_key b res = do
      p ← or_fault (dec.decode_public_key res.properties) malformed_properties
      add_public_key b (public_key_id sum res.logical_id) res.logical_id p
    add_resource raw key_group b res = do
      p ← or_fault (dec.decode_key_group res.properties) malformed_properties
      add_key_group b (uuid_id sum (codes "key-group") res.logical_id) res.logical_id p
    add_resource raw cache_policy b res = do
      p ← or_fault (dec.decode_cache_policy res.properties) malformed_properties
      add_cache_policy b (uuid_id sum (codes "cache-policy") res.logical_id) p
    add_resource raw origin_request_policy b res = do
      p ← or_fault (dec.decode_origin_request_policy res.properties) malformed_properties
      add_origin_request_policy b (uuid_id sum (codes "origin-request-policy") res.logical_id) p
    add_resource raw response_headers_policy b res = do
      p ← or_fault (dec.decode_response_headers_policy res.properties) malformed_properties
      add_response_headers_policy b (uuid_id sum (codes "response-headers-policy") res.logical_id) p
    add_resource raw function b res = do
      p ← or_fault (dec.decode_function res.properties) malformed_properties
      add_function b (function_arn_of (function_name_of (lookup res.logical_id raw) res.logical_id))
          res.logical_id p
    add_resource raw distribution b res = do
      p ← or_fault (dec.decode_distribution res.properties) malformed_properties
      add_distribution_resource fl sum b res.logical_id p

    unfoldable pub run_pass : StrMap RawResource → Kind → Builder → List Resource → Checked Builder
    run_pass raw kind b [] = ok b
    run_pass raw kind b (res ∷ rest) = do
      next ←
          if not (str_eq res.type (kind_name kind))
          then ok b
          else wrap (in_resource res.source res.logical_id) (add_resource raw kind b res)
      run_pass raw kind next rest

    unfoldable pub run_passes :
        StrMap RawResource → List Kind → Builder → List Resource → Checked Builder
    run_passes raw [] b resources = ok b
    run_passes raw (kind ∷ kinds) b resources = do
      next ← run_pass raw kind b resources
      run_passes raw kinds next resources

    -- `Build` behind `Resolve`, with the warnings so far
    unfoldable pub build :
        ManagedPolicies → List RawResource → List Resource → List Bytes → Checked Config
    build managed raw resources warnings = do
      cache_policies ← load_policies (cache_policy_from_props fl) managed.cache_policies []
      origin_request_policies ←
          load_policies origin_request_policy_from_props managed.origin_request_policies []
      response_headers_policies ←
          load_policies response_headers_policy_from_props managed.response_headers_policies []
      b ←
          run_passes (index_raw raw []) passes
            (record {
              cfg = no_config warnings;
              cache_policies = cache_policies;
              origin_request_policies = origin_request_policies;
              response_headers_policies = response_headers_policies;
              public_keys = [];
              key_groups = [];
              functions_by_arn = [];
              kvs_by_arn = [];
              alias_owner = [];
            })
            resources
      ok b.cfg
