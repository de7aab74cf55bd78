-- ===== src/Config/Build/Behaviors.antt =====
-- `buildBehavior` of internal/config/build.go, and what it calls.
pub mod Laws
use localfront.Base.{
  ℕ, suc, Bool, true, false, not, ◌||◌, ◌&&◌, List, [], ◌∷◌, ◌++◌, map, Option, none, some,
  if◌then◌else◌,
}
use localfront.Text.{Bytes, codes, is_empty, str_eq, to_upper}
use localfront.Text.Map.{StrMap, lookup, put}
use localfront.Text.Sort.{sort_strings}
use localfront.Num.{format_ℕ}
use localfront.Config.{
  Config, Origin, CachePolicy, OriginRequestPolicy, ResponseHeadersPolicy, KeyGroup, PublicKey,
  Function, KeyValueStore, Behavior,
}
use localfront.Config.Props.{
  FloatOps, value_or, BehaviorProps, ForwardedValuesProps, FunctionAssociationProps,
}
use localfront.Config.Policies.{cache_policy_from_forwarded_values}
use localfront.Config.Build.{
  Fault, Checked, ok, failed, ◌>>=◌, ◌>>◌, refuse, or_fault, wrap, is_unresolved, in_association,
  invalid_methods, unknown_origin, default_path_pattern, path_pattern_required, lambda_at_edge,
  field_level_encryption, realtime_logs, trusted_signers_unsupported, unresolved_reference,
  missing_reference, two_cache_settings, no_cache_settings, two_origin_request_settings,
  duplicate_association, invalid_event_type,
}

-- The maps of `builder`, and the configuration that it fills.
pub record Builder : Type 0 where
  pub cfg : Config
  pub cache_policies : StrMap CachePolicy
  pub origin_request_policies : StrMap OriginRequestPolicy
  pub response_headers_policies : StrMap ResponseHeadersPolicy
  pub public_keys : StrMap PublicKey
  pub key_groups : StrMap KeyGroup
  pub functions_by_arn : StrMap Function
  pub kvs_by_arn : StrMap KeyValueStore
  pub alias_owner : StrMap Bytes

-- `slices.Equal`
unfoldable pub strings_eq : List Bytes → List Bytes → Bool
strings_eq [] [] = true
strings_eq [] (_ ∷ _) = false
strings_eq (_ ∷ _) [] = false
strings_eq (a ∷ ss) (b ∷ ts) = str_eq a b && strings_eq ss ts

abbrev pub methods_get_head : List Bytes
methods_get_head = codes "GET" ∷ codes "HEAD" ∷ []

abbrev pub methods_get_head_options : List Bytes
methods_get_head_options = codes "GET" ∷ codes "HEAD" ∷ codes "OPTIONS" ∷ []

abbrev pub methods_all : List Bytes
methods_all =
    codes "DELETE"
    ∷ codes "GET"
    ∷ codes "HEAD"
    ∷ codes "OPTIONS"
    ∷ codes "PATCH"
    ∷ codes "POST"
    ∷ codes "PUT"
    ∷ []

-- the switch of `normalizeMethods` on the sorted list
unfoldable pub known_methods : Bytes → List Bytes → Bool → List Bytes → Checked (List Bytes)
known_methods kind methods allow_all out =
    if strings_eq out methods_get_head
      || strings_eq out methods_get_head_options
      || allow_all && strings_eq out methods_all
    then ok out
    else failed (invalid_methods kind methods)

-- `normalizeMethods`
unfoldable pub normalize_methods : Bytes → List Bytes → List Bytes → Bool → Checked (List Bytes)
normalize_methods kind [] def allow_all = ok def
normalize_methods kind (m ∷ ms) def allow_all =
    known_methods kind (m ∷ ms) allow_all (sort_strings (map to_upper (m ∷ ms)))

abbrev pub is_nil {ℓ} : {A : Type ℓ} → List A → Bool
is_nil [] = true
is_nil (_ ∷ _) = false

abbrev pub is_none {ℓ} : {A : Type ℓ} → Option A → Bool
is_none none = true
is_none (some _) = false

-- `resolvePolicy`
unfoldable pub resolve_policy {ℓ} :
    {A : Type ℓ} → StrMap A → Bytes → Bytes → Bytes → Checked (Option A)
resolve_policy policies [] prop_name kind = ok none
resolve_policy policies (c ∷ id) prop_name kind = do
  refuse (is_unresolved (c ∷ id)) (unresolved_reference prop_name (c ∷ id))
  p ← or_fault (lookup (c ∷ id) policies) (missing_reference kind (c ∷ id))
  ok (some p)

-- `resolveTrustedKeyGroups`
unfoldable pub resolve_trusted_key_groups : StrMap KeyGroup → List Bytes → Checked (List KeyGroup)
resolve_trusted_key_groups known [] = ok []
resolve_trusted_key_groups known (id ∷ ids) = do
  refuse (is_unresolved id) (unresolved_reference (codes "TrustedKeyGroups entry") id)
  kg ← or_fault (lookup id known) (missing_reference (codes "key group") id)
  rest ← resolve_trusted_key_groups known ids
  ok (kg ∷ rest)

-- the slot of `behaviorFunctionSlot`, which must be empty, and is filled
unfoldable pub fill_slot : Behavior → Bytes → Function → Checked Behavior
fill_slot bh event_type fn =
    if str_eq event_type (codes "viewer-request")
    then (do
      refuse (not (is_none bh.viewer_request)) (duplicate_association event_type)
      ok (record bh { viewer_request = some fn }))
    else if str_eq event_type (codes "viewer-response")
    then (do
      refuse (not (is_none bh.viewer_response)) (duplicate_association event_type)
      ok (record bh { viewer_response = some fn }))
    else failed (invalid_event_type event_type)

-- one round of `applyFunctionAssociations`
unfoldable pub associate : StrMap Function → Behavior → FunctionAssociationProps → Checked Behavior
associate known bh assoc = do
  refuse (is_unresolved assoc.function_arn)
      (unresolved_reference (codes "FunctionARN") assoc.function_arn)
  fn ←
      or_fault (lookup assoc.function_arn known)
        (missing_reference (codes "function") assoc.function_arn)
  fill_slot bh assoc.event_type fn

-- `applyFunctionAssociations`, from the association `i` on
unfoldable pub apply_function_associations :
    StrMap Function → ℕ → Behavior → List FunctionAssociationProps → Checked Behavior
apply_function_associations known i bh [] = ok bh
apply_function_associations known i bh (assoc ∷ assocs) = do
  next ← wrap (in_association i) (associate known bh assoc)
  apply_function_associations known (suc i) next assocs

module _ (fl : FloatOps) where
  -- `validateBehaviorShape`
  unfoldable pub validate_behavior_shape : BehaviorProps fl → Bool → Checked (Unit {0})
  validate_behavior_shape props is_default = do
    refuse (is_default && not (is_empty props.path_pattern)) default_path_pattern
    refuse (not is_default && is_empty props.path_pattern) path_pattern_required
    refuse (not (is_nil props.lambda_function_associations)) lambda_at_edge
    refuse (not (is_empty props.field_level_encryption_id)) field_level_encryption
    refuse (not (is_empty props.realtime_log_config_arn)) realtime_logs
    refuse (not (is_nil props.trusted_signers)) trusted_signers_unsupported

  -- the name of a policy made of a `ForwardedValues` block
  abbrev legacy_name : Bytes → ℕ → Bytes
  legacy_name dist_logical_id idx =
      codes "legacy-forwarded-values-" ++ (dist_logical_id ++ (codes "-" ++ format_ℕ idx))

  cache_policy_of :
      StrMap CachePolicy
      → BehaviorProps fl
      → Bytes
      → Option ForwardedValuesProps
      → Bytes
      → ℕ
      → Checked (Option CachePolicy)
  cache_policy_of known props (c ∷ id) (some fv) dist_logical_id idx = failed two_cache_settings
  cache_policy_of known props (c ∷ id) none dist_logical_id idx =
      resolve_policy known (c ∷ id) (codes "CachePolicyId") (codes "cache policy")
  cache_policy_of known props [] (some fv) dist_logical_id idx =
      ok (some (cache_policy_from_forwarded_values fl (legacy_name dist_logical_id idx) fv props))
  cache_policy_of known props [] none dist_logical_id idx = failed no_cache_settings

  -- `resolveCachePolicy`
  unfoldable pub resolve_cache_policy :
      StrMap CachePolicy → BehaviorProps fl → Bytes → ℕ → Checked (Option CachePolicy)
  unfolding cache_policy_of
  resolve_cache_policy known props dist_logical_id idx =
      cache_policy_of known props props.cache_policy_id props.forwarded_values dist_logical_id idx

  -- `resolveOriginRequestPolicy`
  unfoldable pub resolve_origin_request_policy :
      StrMap OriginRequestPolicy → BehaviorProps fl → Checked (Option OriginRequestPolicy)
  resolve_origin_request_policy known props =
      if is_empty props.origin_request_policy_id then ok none else (do
        refuse (not (is_none props.forwarded_values)) two_origin_request_settings
        resolve_policy known props.origin_request_policy_id (codes "OriginRequestPolicyId")
            (codes "origin request policy"))

  -- `buildBehavior`
  unfoldable pub build_behavior :
      Builder → BehaviorProps fl → StrMap Origin → Bool → Bytes → ℕ → Checked Behavior
  build_behavior b props origins is_default dist_logical_id idx = do
    validate_behavior_shape props is_default
    origin ←
        or_fault (lookup props.target_origin_id origins) (unknown_origin props.target_origin_id)
    allowed ← normalize_methods (codes "AllowedMethods") props.allowed_methods methods_get_head true
    cached ← normalize_methods (codes "CachedMethods") props.cached_methods methods_get_head false
    cache_policy ← resolve_cache_policy b.cache_policies props dist_logical_id idx
    origin_request_policy ← resolve_origin_request_policy b.origin_request_policies props
    response_headers_policy ←
        resolve_policy b.response_headers_policies props.response_headers_policy_id
          (codes "ResponseHeadersPolicyId") (codes "response headers policy")
    groups ← resolve_trusted_key_groups b.key_groups props.trusted_key_groups
    apply_function_associations b.functions_by_arn 0
        (record {
          path_pattern = props.path_pattern;
          origin = origin;
          viewer_protocol_policy = props.viewer_protocol_policy;
          allowed_methods = allowed;
          cached_methods = cached;
          compress = value_or props.compress false;
          cache_policy = cache_policy;
          origin_request_policy = origin_request_policy;
          response_headers_policy = response_headers_policy;
          trusted_key_groups = groups;
          viewer_request = none;
          viewer_response = none;
        })
        props.function_associations
