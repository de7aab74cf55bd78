-- ===== src/DataPlane/Routes/Sound.antt =====
-- Host routing (internal/dataplane/dataplane.go): the names of the distribution that a host gets.
use mathlib.Core.List.{Memᴰ}
use localfront.Base.{
  ◌≡◌, refl, sym, ◌⊎◌, inl, inr, true, false, not, ◌&&◌, List, [], ◌∷◌, some, arith, Bool-cases,
  Option-cases, All, All-append, subst,
}
use localfront.Text.{Bytes, codes, to_lower, cut_prefix, cut_suffix, is_empty, contains}
use localfront.Text.Map.{lookup, put}
use localfront.Config.{Config, Distribution}
use localfront.DataPlane.Routes.{
  RouteTable, WildcardRoute, add_alias, add_aliases, add_distribution, build_from, build_routes,
  is_one_label, match_wildcard, match_host, no_routes,
}
use localfront.DataPlane.Routes.Exact.{claims, lookup-add_distribution}

-- The suffix is what an alias of the distribution has behind its `*`.
pub record HasWildcard (d : Distribution) (suffix : Bytes) : Type 0 where
  pub alias : Bytes
  pub listed : Memᴰ alias d.aliases
  pub cut : cut_prefix (to_lower alias) (codes "*") ≡ some suffix

-- The host is one label in front of the suffix.
pub record OneLabel (host suffix : Bytes) : Type 0 where
  pub label : Bytes
  pub cut : cut_suffix host suffix ≡ some label
  pub some_label : is_empty label ≡ false
  pub no_dot : contains label (codes ".") ≡ false

pub record Routed (cfg : Config) (host : Bytes) (d : Distribution) : Type 0 where
  pub listed : Memᴰ d cfg.distributions
  pub enabled : d.enabled ≡ true
  pub named :
      (claims d host ≡ true) ⊎ ((suffix : Bytes) × HasWildcard d suffix × OneLabel host suffix)

one_label :
    (host suffix : Bytes) → is_one_label (cut_suffix host suffix) ≡ true → OneLabel host suffix
one_label host suffix h = elim (Option-cases (cut_suffix host suffix)) [
  | inl e ↦ absurd (cc (rw e at h))
  | inr (label, e) ↦
      let k : (not (is_empty label) && not (contains label (codes "."))) ≡ true = rw e at h in
      record { label = label; cut = e; some_label = ground arith; no_dot = ground arith }
]

All-mem {ℓ} :
    {A : Type ℓ} (xs ys : List A) → ((x : A) → Memᴰ x xs → Memᴰ x ys) → All (λ x. Memᴰ x ys) xs
All-mem [] ys f = tt
All-mem (x ∷ xs) ys f = (f x (Memᴰ.head refl), All-mem xs ys (λ y m. f y (Memᴰ.tail m)))

claims_enabled : (d : Distribution) (k : Bytes) → claims d k ≡ true → d.enabled ≡ true
unfolding claims
claims_enabled d k h = ground arith

module _ (all_dists : List Distribution) where
  record Owned (w : WildcardRoute) : Type 0 where
    listed : Memᴰ w.dist all_dists
    enabled : w.dist.enabled ≡ true
    wild : HasWildcard w.dist w.suffix

  record Inv (t : RouteTable) : Type 0 where
    exact :
        (k : Bytes) (d : Distribution)
        → lookup k t.exact ≡ some d
        → Memᴰ d all_dists × (claims d k ≡ true)
    wildcard : All Owned t.wildcard

  add_aliases-Owned :
      (d : Distribution)
      → Memᴰ d all_dists
      → d.enabled ≡ true
      → (aliases : List Bytes) (t : RouteTable) → All (λ a. Memᴰ a d.aliases) aliases
      → All Owned t.wildcard
      → All Owned (add_aliases t d aliases).wildcard
  unfolding add_aliases add_alias
  add_aliases-Owned d m on [] t _ h = h
  add_aliases-Owned d m on (a ∷ aliases) t (k, ks) h =
      add_aliases-Owned d m on aliases (add_alias t d a) ks
        (elim (Option-cases (cut_prefix (to_lower a) (codes "*"))) [
          | inl e ↦ rw (e, add_alias) h
          | inr (rest, e) ↦
              rw (e, add_alias)
                (All-append Owned t.wildcard (record { suffix = rest; dist = d } ∷ []) h (
                  record {
                    listed = m;
                    enabled = on;
                    wild = record { alias = a; listed = k; cut = e };
                  },
                  tt,
                ))
        ])

  add_distribution-Inv :
      (t : RouteTable) (d : Distribution) → Memᴰ d all_dists → Inv t → Inv (add_distribution t d)
  add_distribution-Inv t d m i = record {
    exact = λ k e h. elim (Bool-cases (claims d k)) [
      | inl c ↦
          let same : d ≡ e = ground (arith, lookup-add_distribution t d k) in
          subst (λ x. Memᴰ x all_dists × (claims x k ≡ true)) same (m, c)
      | inr c ↦ i.exact k e (ground (arith, lookup-add_distribution t d k))
    ];
    wildcard = elim (Bool-cases d.enabled) [
      | inl on ↦
          subst (λ (r : RouteTable). All Owned r.wildcard) (sym (add_enabled t d on))
            (add_aliases-Owned d m on d.aliases
              (record t { exact = put (to_lower d.domain_name) d t.exact })
              (All-mem d.aliases d.aliases (λ x n. n)) i.wildcard)
      | inr off ↦
          subst (λ (r : RouteTable). All Owned r.wildcard) (sym (add_disabled t d off)) i.wildcard
    ];
  }
    where
      add_enabled :
          (r : RouteTable) (c : Distribution)
          → c.enabled ≡ true
          → add_distribution r c
            ≡ add_aliases (record r { exact = put (to_lower c.domain_name) c r.exact }) c c.aliases
      add_enabled r c on = unfold add_distribution in simp on

      add_disabled :
          (r : RouteTable) (c : Distribution) → c.enabled ≡ false → add_distribution r c ≡ r
      add_disabled r c off = unfold add_distribution in simp off

  build_from-Inv :
      (ds : List Distribution) (t : RouteTable)
      → All (λ d. Memᴰ d all_dists) ds
      → Inv t
      → Inv (build_from t ds)
  unfolding build_from
  build_from-Inv [] t _ i = i
  build_from-Inv (d ∷ ds) t (m, ms) i =
      build_from-Inv ds (add_distribution t d) ms (add_distribution-Inv t d m i)

  no_routes-Inv : Inv no_routes
  unfolding lookup
  no_routes-Inv = record { exact = λ k d h. cc; wildcard = tt }

match_wildcard-Routed :
    (cfg : Config) (ws : List WildcardRoute) (host : Bytes) (d : Distribution)
    → All (Owned cfg.distributions) ws
    → match_wildcard ws host ≡ some d
    → Routed cfg host d
unfolding match_wildcard
match_wildcard-Routed cfg [] host d _ h = cc
match_wildcard-Routed cfg (w ∷ ws) host d (o, os) h =
    elim (Bool-cases (is_one_label (cut_suffix host w.suffix))) [
      | inl e ↦
          let same : w.dist ≡ d = ground arith in
          subst (Routed cfg host) same (record {
            listed = o.listed;
            enabled = o.enabled;
            named = inr (w.suffix, o.wild, one_label host w.suffix e);
          })
      | inr e ↦ match_wildcard-Routed cfg ws host d os (rw e at h)
    ]

-- A host is routed only to an enabled distribution of the configuration that has the host as
-- its domain name or as an alias, or a wildcard alias that covers the host by exactly one
-- label.
pub match_host-Routed :
    (cfg : Config) (host : Bytes) (d : Distribution)
    → match_host (build_routes cfg) host ≡ some d
    → Routed cfg host d
unfolding match_host build_routes
match_host-Routed cfg host d h =
    let i =
      build_from-Inv cfg.distributions cfg.distributions no_routes
        (All-mem cfg.distributions cfg.distributions (λ x m. m))
        (no_routes-Inv cfg.distributions) in
    elim (Option-cases (lookup host (build_from no_routes cfg.distributions).exact)) [
      | inl e ↦ match_wildcard-Routed cfg _ host d i.wildcard (rw (e, match_host) at h)
      | inr (x, e) ↦
          let same : x ≡ d = ground arith in
          let (m, c) = i.exact host x e in
          subst (Routed cfg host) same
            (record { listed = m; enabled = claims_enabled x host c; named = inl c })
    ]
