-- ===== src/DataPlane/Routes.antt =====
-- Host routing of internal/dataplane/dataplane.go.
pub mod Exact
pub mod Sound
use localfront.Base.{
  ℕ, ◌≡◌, ◌≢◌, refl, true, false, Bool, not, ◌&&◌, ◌||◌, List, [], ◌∷◌, ◌++◌, Option, none, some,
  if◌then◌else◌, any,
}
use localfront.Text.{Bytes, codes, is_empty, str_eq, to_lower, cut_prefix, cut_suffix, contains}
use localfront.Text.Map.{StrMap, lookup, put}
use localfront.Config.{Config, Distribution}

pub record WildcardRoute : Type 0 where
  pub suffix : Bytes
  pub dist : Distribution

pub record RouteTable : Type 0 where
  pub exact : StrMap Distribution
  pub wildcard : List WildcardRoute

-- one alias of `buildRoutes`
unfoldable pub add_alias : RouteTable → Distribution → Bytes → RouteTable
add_alias t d alias = elim (cut_prefix (to_lower alias) (codes "*")) [
  | some rest ↦ record t { wildcard = t.wildcard ++ record { suffix = rest; dist = d } ∷ [] }
  | none ↦ record t { exact = put (to_lower alias) d t.exact }
]

unfoldable pub add_aliases : RouteTable → Distribution → List Bytes → RouteTable
add_aliases t d [] = t
add_aliases t d (alias ∷ aliases) = add_aliases (add_alias t d alias) d aliases

-- one distribution of `buildRoutes`
unfoldable pub add_distribution : RouteTable → Distribution → RouteTable
add_distribution t d =
    if not d.enabled
    then t
    else add_aliases (record t { exact = put (to_lower d.domain_name) d t.exact }) d d.aliases

unfoldable pub build_from : RouteTable → List Distribution → RouteTable
build_from t [] = t
build_from t (d ∷ ds) = build_from (add_distribution t d) ds

abbrev pub no_routes : RouteTable
no_routes = record { exact = []; wildcard = [] }

-- `buildRoutes`
unfoldable pub build_routes : Config → RouteTable
build_routes cfg = build_from no_routes cfg.distributions

-- `ok && label != "" && !strings.Contains(label, ".")`
abbrev pub is_one_label : Option Bytes → Bool
is_one_label none = false
is_one_label (some label) = not (is_empty label) && not (contains label (codes "."))

unfoldable pub match_wildcard : List WildcardRoute → Bytes → Option Distribution
match_wildcard [] host = none
match_wildcard (w ∷ ws) host =
    if is_one_label (cut_suffix host w.suffix) then some w.dist else match_wildcard ws host

-- `routeTable.match`
unfoldable pub match_host : RouteTable → Bytes → Option Distribution
match_host t host = elim (lookup host t.exact) [
  | some d ↦ some d
  | none ↦ match_wildcard t.wildcard host
]

-- Named on the `unfolding` line of a test, it opens the functions above.
unfoldable pub route_ops : Unit {0}
unfolding add_alias add_aliases add_distribution build_from build_routes match_wildcard match_host
    lookup put
route_ops = tt
