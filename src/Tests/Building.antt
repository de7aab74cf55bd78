-- ===== src/Tests/Building.antt =====
-- A configuration built from one distribution with one origin.
use mathlib.Core.List.{Memᴰ}
use localfront.Base.{◌≡◌, refl, true, false, [], ◌∷◌, Option, none, some}
use localfront.Text.{Bytes, codes, text_ops}
use localfront.Text.Map.{lookup, put}
use localfront.Text.Sort.{sort_strings, str_leb, insert_sorted}
use localfront.Num.{ℤ, pos, num_ops}
use localfront.Config.{Config, Distribution}
use localfront.Config.Props.{
  FloatOps, ForwardedValuesProps, BehaviorProps, OriginProps, DistributionConfigProps,
  DistributionProps,
}
use localfront.Config.Policies.Forwarded.{
  forwarded_headers, forwarded_cookies, forwarded_query_strings,
}
use localfront.Config.Policies.{cache_policy_from_forwarded_values, seconds_to_duration}
use localfront.Config.Build.{ok, ◌>>=◌, ◌>>◌, refuse, or_fault, wrap, is_unresolved}
use localfront.Config.Build.Ids.{id_suffix, distribution_id, distribution_arn, distribution_domain}
use localfront.Config.Build.Origins.{check_protocol_policy, base_origin, origin_kind, build_origin}
use localfront.Config.Build.Behaviors.{
  strings_eq, known_methods, normalize_methods, resolve_policy, resolve_trusted_key_groups,
  apply_function_associations, validate_behavior_shape, resolve_cache_policy,
  resolve_origin_request_policy, build_behavior,
}
use localfront.Config.Build.Distributions.{
  claim_alias, claim_aliases, build_origins, build_error_responses, build_behaviors, check_features,
  build_default_behavior, build_distribution, add_distribution_resource,
}
use localfront.Config.Build.Distributions.Laws.{ValidDistribution}
use localfront.Config.Build.Passes.{
  Decoder, ManagedPolicies, Resource, index_raw, load_policies, add_resource, run_pass, run_passes,
  build,
}
use localfront.Config.Build.Passes.Laws.{build-ValidDistribution, build-aliases}
use localfront.Tests.Samples.{web}

abbrev pub whole : FloatOps
whole = record { Float = ℤ; number = λ n. n; times = λ a b. b; truncate = λ n. n }

-- A hash that is as long as its text.
abbrev pub plain_sum : Bytes → Bytes
plain_sum s = s

abbrev only_distributions : Decoder whole
only_distributions = record {
  Properties = Option (DistributionProps whole);
  decode_origin_access_control = λ _. none;
  decode_key_value_store = λ _. none;
  decode_public_key = λ _. none;
  decode_key_group = λ _. none;
  decode_cache_policy = λ _. none;
  decode_origin_request_policy = λ _. none;
  decode_response_headers_policy = λ _. none;
  decode_function = λ _. none;
  decode_distribution = λ p. p;
}

abbrev unmanaged : ManagedPolicies whole
unmanaged = record {
  cache_policies = [];
  origin_request_policies = [];
  response_headers_policies = [];
}

abbrev web_props : OriginProps
web_props = record {
  id = codes "web";
  domain_name = codes "web.internal";
  origin_path = [];
  connection_attempts = none;
  connection_timeout = none;
  custom_origin_config = some (record {
    http_port = none;
    https_port = none;
    origin_keepalive_timeout = none;
    origin_protocol_policy = codes "http-only";
    origin_read_timeout = none;
  });
  s3_origin_config = none;
  origin_custom_headers = [];
  vpc_origin_config = [];
}

abbrev forwarded : ForwardedValuesProps
forwarded = record {
  query_string = some false;
  cookies = none;
  headers = codes "Accept" ∷ [];
  query_string_cache_keys = [];
}

abbrev default_props : BehaviorProps whole
default_props = record {
  path_pattern = [];
  target_origin_id = codes "web";
  viewer_protocol_policy = codes "allow-all";
  allowed_methods = codes "options" ∷ codes "get" ∷ codes "head" ∷ [];
  cached_methods = [];
  cache_policy_id = [];
  origin_request_policy_id = [];
  response_headers_policy_id = [];
  compress = none;
  field_level_encryption_id = [];
  forwarded_values = some forwarded;
  function_associations = [];
  lambda_function_associations = [];
  realtime_log_config_arn = [];
  trusted_key_groups = [];
  trusted_signers = [];
  min_ttl = none;
  default_ttl = none;
  max_ttl = none;
}

abbrev site_config : DistributionConfigProps whole
site_config = record {
  aliases = codes "WWW.test" ∷ [];
  cnames = codes "www.test" ∷ [];
  continuous_deployment_policy_id = [];
  custom_error_responses = [];
  default_cache_behavior = some default_props;
  cache_behaviors = [];
  default_root_object = codes "/index.html";
  enabled = none;
  origin_groups = none;
  origins = web_props ∷ [];
  anycast_ip_list_id = [];
  tenant_config = [];
}

abbrev site_resource : Resource whole plain_sum only_distributions
site_resource = record {
  logical_id = codes "Site";
  type = codes "AWS::CloudFront::Distribution";
  properties = some (record { distribution_config = some site_config });
  source = codes "site.yaml";
}

abbrev site : Distribution
site = record {
  logical_id = codes "Site";
  id = codes "E27HIG70JI7DCW";
  arn = codes "arn:aws:cloudfront::123456789012:distribution/E27HIG70JI7DCW";
  domain_name = codes "e27hig70ji7dcw.cloudfront.localhost";
  aliases = codes "www.test" ∷ [];
  enabled = true;
  default_root_object = codes "index.html";
  origins = web ∷ [];
  default_behavior = record {
    path_pattern = [];
    origin = web;
    viewer_protocol_policy = codes "allow-all";
    allowed_methods = codes "GET" ∷ codes "HEAD" ∷ codes "OPTIONS" ∷ [];
    cached_methods = codes "GET" ∷ codes "HEAD" ∷ [];
    compress = false;
    cache_policy = some (record {
      id = [];
      name = codes "legacy-forwarded-values-Site-0";
      min_ttl = pos 1000000000;
      default_ttl = pos 1000000000;
      max_ttl = pos 1000000000;
      gzip = false;
      brotli = false;
      headers = record { behavior = codes "whitelist"; items = codes "Accept" ∷ [] };
      cookies = record { behavior = codes "none"; items = [] };
      query_strings = record { behavior = codes "none"; items = [] };
    });
    origin_request_policy = none;
    response_headers_policy = none;
    trusted_key_groups = [];
    viewer_request = none;
    viewer_response = none;
  };
  behaviors = [];
  error_responses = [];
}

abbrev site_built : Config
site_built = record {
  distributions = site ∷ [];
  functions = [];
  key_value_stores = [];
  key_groups = [];
  public_keys = [];
  origin_access_controls = [];
  warnings = [];
}

build_site :
    build whole plain_sum only_distributions unmanaged [] (site_resource ∷ []) [] ≡ ok site_built
unfolding text_ops num_ops lookup put sort_strings ◌>>=◌ ◌>>◌ refuse or_fault wrap is_unresolved
    cache_policy_from_forwarded_values seconds_to_duration id_suffix distribution_id
    distribution_arn distribution_domain check_protocol_policy base_origin origin_kind build_origin
    strings_eq known_methods normalize_methods resolve_policy resolve_trusted_key_groups
    apply_function_associations validate_behavior_shape resolve_cache_policy
    resolve_origin_request_policy build_behavior claim_alias claim_aliases build_origins
    build_error_responses build_behaviors check_features build_default_behavior build_distribution
    add_distribution_resource forwarded_headers forwarded_cookies forwarded_query_strings str_leb
    insert_sorted index_raw load_policies add_resource run_pass run_passes build
build_site = refl

build-ValidDistribution_example : ValidDistribution whole site
build-ValidDistribution_example =
    build-ValidDistribution whole plain_sum only_distributions unmanaged [] (site_resource ∷ []) []
      site_built site build_site (Memᴰ.head refl)

build-aliases_example : site.logical_id ≡ site.logical_id
build-aliases_example =
    build-aliases whole plain_sum only_distributions unmanaged [] (site_resource ∷ []) [] site_built
      site site (codes "www.test") build_site (Memᴰ.head refl) (Memᴰ.head refl) (Memᴰ.head refl)
      (Memᴰ.head refl)
