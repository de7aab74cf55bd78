-- ===== src/Config/Build/Distributions.antt =====
-- `distribution` of internal/config/build.go.
pub mod Laws
pub mod Aliases
use localfront.Base.{
  ℕ, suc, ◌+◌, Bool, true, false, not, ◌||◌, ◌&&◌, List, [], ◌∷◌, ◌++◌, map, Option, none, some,
  ltb, if◌then◌else◌,
}
use localfront.Text.{Bytes, codes, is_empty, str_eq, to_lower, has_prefix, trim_prefix}
use localfront.Text.Map.{StrMap, lookup, put}
use localfront.Num.{ℤ, pos, lt_ℤ}
use localfront.Config.{Config, Distribution, Origin, Behavior, ErrorResponse}
use localfront.Config.Props.{
  FloatOps, value_or, DistributionProps, DistributionConfigProps, BehaviorProps, OriginProps,
  OriginGroupsProps, CustomErrorResponseProps,
}
use localfront.Config.Build.{
  Fault, Checked, ok, failed, ◌>>=◌, ◌>>◌, refuse, or_fault, wrap, is_unresolved, config_required,
  continuous_deployment, anycast, multi_tenant, origin_groups, unresolved_alias, alias_taken,
  origin_required, in_origin, duplicate_origin, default_behavior_required, in_default_behavior,
  in_behavior, in_error_response, error_code_required, page_path_slash,
}
use localfront.Config.Build.Ids.{distribution_id, distribution_arn, distribution_domain}
use localfront.Config.Build.Origins.{build_origin}
use localfront.Config.Build.Behaviors.{Builder, build_behavior, is_nil}

-- The owners of the aliases so far, and the aliases of the distribution.
abbrev pub Claims : Type 0
Claims = StrMap Bytes × List Bytes

abbrev claim_free : Bytes → Bytes → Option Bytes → Claims → Checked Claims
claim_free alias me none (owners, mine) = ok (put alias me owners, mine ++ alias ∷ [])
claim_free alias me (some owner) claims =
    if str_eq owner me then ok claims else failed (alias_taken alias owner)

-- one round of the loop over the aliases
unfoldable pub claim_alias : Bytes → Claims → Bytes → Checked Claims
claim_alias me claims alias = do
  refuse (is_unresolved alias) (unresolved_alias alias)
  claim_free (to_lower alias) me (lookup (to_lower alias) claims.0) claims

unfoldable pub claim_aliases : Bytes → Claims → List Bytes → Checked Claims
claim_aliases me claims [] = ok claims
claim_aliases me claims (alias ∷ aliases) = do
  next ← claim_alias me claims alias
  claim_aliases me next aliases

-- The origins so far, by ID and in order.
abbrev pub Origins : Type 0
Origins = StrMap Origin × List Origin

abbrev add_origin : Option Origin → Origin → Origins → Checked Origins
add_origin none o (by_id, all) = ok (put o.id o by_id, all ++ o ∷ [])
add_origin (some _) o origins = failed (duplicate_origin o.id)

-- the loop over the origins, from the origin `i` on
unfoldable pub build_origins : ℕ → Origins → List OriginProps → Checked Origins
build_origins i origins [] = ok origins
build_origins i origins (op ∷ ops) = do
  o ← wrap (in_origin i) (build_origin op)
  next ← wrap (in_origin i) (add_origin (lookup o.id origins.0) o origins)
  build_origins (suc i) next ops

-- one round of the loop over the custom error responses
unfoldable pub build_error_response : CustomErrorResponseProps → Checked ErrorResponse
build_error_response er = do
  code ← or_fault er.error_code error_code_required
  refuse
      (not (is_empty er.response_page_path) && not (has_prefix er.response_page_path (codes "/")))
      page_path_slash
  ok (record {
    error_code = code;
    response_code = value_or er.response_code code;
    response_page_path = er.response_page_path;
  })

unfoldable pub build_error_responses :
    ℕ → List CustomErrorResponseProps → Checked (List ErrorResponse)
build_error_responses i [] = ok []
build_error_responses i (er ∷ ers) = do
  resp ← wrap (in_error_response i) (build_error_response er)
  rest ← build_error_responses (suc i) ers
  ok (resp ∷ rest)

-- whether there are origin groups
abbrev has_groups : Option OriginGroupsProps → Bool
has_groups none = false
has_groups (some og) = lt_ℤ (pos 0) (value_or og.quantity (pos 0)) || not (is_nil og.items)

module _ (fl : FloatOps) where
  unfoldable pub build_behaviors :
      Builder → StrMap Origin → Bytes → ℕ → List (BehaviorProps fl) → Checked (List Behavior)
  build_behaviors b origins dist_logical_id i [] = ok []
  build_behaviors b origins dist_logical_id i (props ∷ rest) = do
    bh ← wrap (in_behavior i) (build_behavior fl b props origins false dist_logical_id i)
    bhs ← build_behaviors b origins dist_logical_id (suc i) rest
    ok (bh ∷ bhs)

  -- the features that are not supported
  unfoldable pub check_features : DistributionConfigProps fl → Checked (Unit {0})
  check_features c = do
    refuse (not (is_empty c.continuous_deployment_policy_id)) continuous_deployment
    refuse (not (is_empty c.anycast_ip_list_id)) anycast
    refuse (not (is_empty c.tenant_config)) multi_tenant
    refuse (has_groups c.origin_groups) origin_groups

  -- the behavior of all other paths
  unfoldable pub build_default_behavior :
      Builder → StrMap Origin → Bytes → Option (BehaviorProps fl) → Checked Behavior
  build_default_behavior b origins dist_logical_id none = failed default_behavior_required
  build_default_behavior b origins dist_logical_id (some props) =
      wrap in_default_behavior (build_behavior fl b props origins true dist_logical_id 0)

  module _ (sum : Bytes → Bytes) where
    -- the distribution, without a check
    abbrev pub assemble :
        Bytes
        → DistributionConfigProps fl
        → List Bytes
        → List Origin
        → Behavior
        → List Behavior
        → List ErrorResponse
        → Distribution
    assemble logical_id c aliases origins default_behavior behaviors error_responses = record {
      logical_id = logical_id;
      id = distribution_id sum logical_id;
      arn = distribution_arn (distribution_id sum logical_id);
      domain_name = distribution_domain (distribution_id sum logical_id);
      aliases = aliases;
      enabled = value_or c.enabled true;
      default_root_object = trim_prefix c.default_root_object (codes "/");
      origins = origins;
      default_behavior = default_behavior;
      behaviors = behaviors;
      error_responses = error_responses;
    }

    abbrev disabled_warning : Bytes → Bool → List Bytes
    disabled_warning logical_id true = []
    disabled_warning logical_id false =
        (codes "distribution "
          ++ (logical_id ++ codes " is disabled (Enabled: false) and will not be served"))
        ∷ []

    -- the builder behind a distribution
    abbrev pub add_to : Builder → StrMap Bytes → Distribution → Builder
    add_to b owners d =
        let cfg = b.cfg in
        record b {
          cfg = record cfg {
            distributions = cfg.distributions ++ d ∷ [];
            warnings = cfg.warnings ++ disabled_warning d.logical_id d.enabled;
          };
          alias_owner = owners;
        }

    -- `distribution`, from its configuration on
    unfoldable pub build_distribution :
        Builder → Bytes → DistributionConfigProps fl → Checked Builder
    build_distribution b logical_id c = do
      check_features c
      claims ← claim_aliases logical_id (b.alias_owner, []) (c.aliases ++ c.cnames)
      refuse (is_nil c.origins) origin_required
      origins ← build_origins 0 ([], []) c.origins
      default_behavior ← build_default_behavior b origins.0 logical_id c.default_cache_behavior
      behaviors ← build_behaviors b origins.0 logical_id 0 c.cache_behaviors
      error_responses ← build_error_responses 0 c.custom_error_responses
      ok (
          add_to b claims.0
            (assemble logical_id c claims.1 origins.1 default_behavior behaviors error_responses))

    -- `distribution`, its properties decoded
    unfoldable pub add_distribution_resource :
        Builder → Bytes → DistributionProps fl → Checked Builder
    add_distribution_resource b logical_id p = do
      c ← or_fault p.distribution_config config_required
      build_distribution b logical_id c
