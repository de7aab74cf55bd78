-- ===== src/DataPlane/Routes/Exact.antt =====
-- Host routing (internal/dataplane/dataplane.go): domain names and aliases without a wildcard.
use localfront.Base.{
  ◌≡◌, refl, ◌∙◌, inl, inr, true, false, Bool, ◌&&◌, ◌||◌, List, [], ◌∷◌, ◌++◌, Option, none, some,
  arith, if◌then◌else◌, any, Option-cases, All,
}
use localfront.Text.{Bytes, codes, str_eq, to_lower, cut_prefix}
use localfront.Text.Map.{lookup, put, lookup-put}
use localfront.Config.{Config, Distribution}
use localfront.DataPlane.Routes.{
  RouteTable, add_alias, add_aliases, add_distribution, build_from, build_routes, match_host,
  no_routes,
}

-- An alias without a wildcard names the host.
abbrev pub is_plain : Option Bytes → Bool
is_plain none = true
is_plain (some _) = false

unfoldable pub names_host : Bytes → Bytes → Bool
names_host host alias =
    is_plain (cut_prefix (to_lower alias) (codes "*")) && str_eq (to_lower alias) host

-- The distribution is enabled, and its domain name or an alias is the host.
unfoldable pub claims : Distribution → Bytes → Bool
claims d host =
    d.enabled && (str_eq (to_lower d.domain_name) host || any (names_host host) d.aliases)

lookup-add_alias :
    (t : RouteTable) (d : Distribution) (alias host : Bytes)
    → lookup host (add_alias t d alias).exact
      ≡ (if names_host host alias then some d else lookup host t.exact)
unfolding add_alias names_host
lookup-add_alias t d alias host = elim (Option-cases (cut_prefix (to_lower alias) (codes "*"))) [
  | inl e ↦ rw (e, add_alias) (lookup-put (to_lower alias) host d t.exact)
  | inr (rest, e) ↦ rw (e, add_alias)
]

lookup-add_aliases :
    (aliases : List Bytes) (t : RouteTable) (d : Distribution) (host : Bytes)
    → lookup host (add_aliases t d aliases).exact
      ≡ (if any (names_host host) aliases then some d else lookup host t.exact)
unfolding add_aliases
lookup-add_aliases [] t d host = refl
lookup-add_aliases (alias ∷ aliases) t d host = ground (
  arith,
  lookup-add_aliases aliases (add_alias t d alias) d host,
  lookup-add_alias t d alias host,
)

pub lookup-add_distribution :
    (t : RouteTable) (d : Distribution) (host : Bytes)
    → lookup host (add_distribution t d).exact
      ≡ (if claims d host then some d else lookup host t.exact)
unfolding add_distribution claims
lookup-add_distribution t d host =
    let base = record t { exact = put (to_lower d.domain_name) d t.exact } in
    ground (
      arith,
      lookup-add_aliases d.aliases base d host,
      lookup-put (to_lower d.domain_name) host d t.exact,
    )

lookup-build_from_silent :
    (ds : List Distribution) (t : RouteTable) (host : Bytes)
    → All (λ d. claims d host ≡ false) ds
    → lookup host (build_from t ds).exact ≡ lookup host t.exact
unfolding build_from
lookup-build_from_silent [] t host _ = refl
lookup-build_from_silent (d ∷ ds) t host (h, hs) =
    lookup-build_from_silent ds (add_distribution t d) host hs
    ∙ lookup-add_distribution t d host
    ∙ rw h

lookup-build_from :
    (earlier later : List Distribution) (t : RouteTable) (d : Distribution) (host : Bytes)
    → claims d host ≡ true
    → All (λ e. claims e host ≡ false) later
    → lookup host (build_from t (earlier ++ d ∷ later)).exact ≡ some d
unfolding build_from
lookup-build_from [] later t d host h hs =
    lookup-build_from_silent later (add_distribution t d) host hs
    ∙ lookup-add_distribution t d host
    ∙ rw h
lookup-build_from (e ∷ earlier) later t d host h hs =
    lookup-build_from earlier later (add_distribution t e) d host h hs

-- An enabled distribution whose domain name or plain alias is the host serves it, whatever
-- wildcards the others have, if no distribution behind it in the configuration claims the same
-- host.
pub match_host-claims :
    (cfg : Config) (earlier later : List Distribution) (d : Distribution) (host : Bytes)
    → cfg.distributions ≡ earlier ++ d ∷ later
    → claims d host ≡ true
    → All (λ e. claims e host ≡ false) later
    → match_host (build_routes cfg) host ≡ some d
unfolding match_host build_routes
match_host-claims cfg earlier later d host e h hs =
    let found = lookup-build_from earlier later no_routes d host h hs in
    rw e (rw (found, match_host))
