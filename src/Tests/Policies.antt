-- ===== src/Tests/Policies.antt =====
-- Policies from decoded properties, with whole numbers in place of `float64`.
use localfront.Base.{◌≡◌, true, [], ◌∷◌, none, some}
use localfront.Text.{codes}
use localfront.Num.{ℤ}
use localfront.Config.Props.{FloatOps, ForwardedValuesProps, BehaviorProps}
use localfront.Config.Policies.{cache_policy_from_forwarded_values}
use localfront.Config.Policies.Laws.{
  passes_header, passes_cookie, passes_param, forwarded_values-passes,
}
use localfront.Behavior.Forward.{forwards_header, cookie_selected, query_selected}

abbrev whole : FloatOps
whole = record { Float = ℤ; number = λ n. n; times = λ a b. b; truncate = λ n. n }

abbrev legacy : ForwardedValuesProps
legacy = record {
  query_string = some true;
  cookies = some (record { forward = codes "whitelist"; whitelisted_names = codes "session" ∷ [] });
  headers = codes "Accept" ∷ [];
  query_string_cache_keys = [];
}

abbrev behavior : BehaviorProps whole
behavior = record {
  path_pattern = codes "/api/*";
  target_origin_id = codes "web";
  viewer_protocol_policy = codes "allow-all";
  allowed_methods = [];
  cached_methods = [];
  cache_policy_id = [];
  origin_request_policy_id = [];
  response_headers_policy_id = [];
  compress = none;
  field_level_encryption_id = [];
  forwarded_values = some legacy;
  function_associations = [];
  lambda_function_associations = [];
  realtime_log_config_arn = [];
  trusted_key_groups = [];
  trusted_signers = [];
  min_ttl = none;
  default_ttl = none;
  max_ttl = none;
}

forwarded_values-passes_example :
    let policy = some (cache_policy_from_forwarded_values whole (codes "legacy") legacy behavior) in
    (forwards_header policy none (codes "accept") ≡ passes_header legacy.headers (codes "accept"))
    × (cookie_selected policy none (codes "accept") ≡ passes_cookie legacy.cookies (codes "accept"))
    × (query_selected policy none (codes "accept") ≡ passes_param legacy (codes "accept"))
forwarded_values-passes_example =
    forwarded_values-passes whole (codes "legacy") legacy behavior (codes "accept")
