-- ===== src/Config/Build/Passes/Laws.antt =====
-- What every configuration that was built is like.
use mathlib.Core.List.{Memᴰ}
use mathlib.Core.List.Memᴰ
use localfront.Base.{
  ◌≡◌, refl, sym, subst, inl, inr, Bool, true, false, List, [], ◌∷◌, some, All, if◌then◌else◌,
}
use localfront.Text.{Bytes}
use localfront.Text.Map.{StrMap, lookup}
use localfront.Config.{Config, Distribution}
use localfront.Config.Props.{
  FloatOps, DistributionProps, CachePolicyProps, OriginRequestPolicyProps,
  ResponseHeadersPolicyProps, FunctionProps, KeyValueStoreProps, PublicKeyProps, KeyGroupProps,
  OriginAccessControlProps,
}
use localfront.Config.Build.{Checked, ok}
use localfront.Config.Build.Ensures.{
  Ensures, Ensures-ok, Ensures-any, Ensures->>=, Ensures-refuse, Ensures-or_fault, Ensures-wrap,
  Ensures-eq, Ensures-both,
}
use localfront.Config.Build.Behaviors.{Builder}
use localfront.Config.Build.Distributions.{add_distribution_resource}
use localfront.Config.Build.Distributions.Laws.{
  ValidDistribution, Adds, build_distribution-ValidDistribution,
}
use localfront.Config.Build.Distributions.Aliases.{Owned, build_distribution-Owned}
use localfront.Config.Build.Resources.{
  add_oac, add_key_value_store, add_public_key, add_key_group, add_origin_request_policy,
  add_response_headers_policy, add_function,
}
use localfront.Config.Build.Passes.{
  Kind, origin_access_control, key_value_store, public_key, key_group, cache_policy,
  origin_request_policy, response_headers_policy, function, distribution, passes, RawResource,
  index_raw, Decoder, ManagedPolicies, add_cache_policy, Resource, add_resource, run_pass,
  run_passes, build,
}

-- No distribution was added.
abbrev Same : Builder → Builder → Type 0
Same b c = (c.cfg.distributions ≡ b.cfg.distributions) × (c.alias_owner ≡ b.alias_owner)

add_oac-Same :
    (b : Builder) (id me : Bytes) (p : OriginAccessControlProps) → Same b (add_oac id me p b)
unfolding add_oac
add_oac-Same b id me p = (refl, refl)

add_key_value_store-Same :
    (b : Builder) (id me : Bytes) (p : KeyValueStoreProps)
    → Ensures (Same b) (add_key_value_store b id me p)
unfolding add_key_value_store
add_key_value_store-Same b id me p =
    Ensures-refuse _ _ _ _
      (λ _. Ensures->>= (λ _. Unit) _ _ _ (Ensures-any _) (λ arn _. Ensures-ok _ _ (refl, refl)))

add_public_key-Same :
    (b : Builder) (id me : Bytes) (p : PublicKeyProps) → Ensures (Same b) (add_public_key b id me p)
unfolding add_public_key
add_public_key-Same b id me p =
    Ensures-or_fault _ _ _ _ (λ c _. Ensures-refuse _ _ _ _ (λ _. Ensures-ok _ _ (refl, refl)))

add_key_group-Same :
    (b : Builder) (id me : Bytes) (p : KeyGroupProps) → Ensures (Same b) (add_key_group b id me p)
unfolding add_key_group
add_key_group-Same b id me p =
    Ensures-or_fault _ _ _ _
      (λ c _. Ensures->>= (λ _. Unit) _ _ _ (Ensures-any _) (λ keys _. Ensures-ok _ _ (refl, refl)))

add_origin_request_policy-Same :
    (b : Builder) (id : Bytes) (p : OriginRequestPolicyProps)
    → Ensures (Same b) (add_origin_request_policy b id p)
unfolding add_origin_request_policy
add_origin_request_policy-Same b id p =
    Ensures-or_fault _ _ _ _ (λ orp _. Ensures-ok _ _ (refl, refl))

add_response_headers_policy-Same :
    (b : Builder) (id : Bytes) (p : ResponseHeadersPolicyProps)
    → Ensures (Same b) (add_response_headers_policy b id p)
unfolding add_response_headers_policy
add_response_headers_policy-Same b id p =
    Ensures-or_fault _ _ _ _ (λ rhp _. Ensures-ok _ _ (refl, refl))

add_function-Same :
    (b : Builder) (arn me : Bytes) (p : FunctionProps) → Ensures (Same b) (add_function b arn me p)
unfolding add_function
add_function-Same b arn me p = Ensures-refuse _ _ _ _ (λ _. Ensures-refuse _ _ _ _ (λ _.
    Ensures->>= (λ _. Unit) _ _ _ (Ensures-any _) (λ settings _. Ensures-ok _ _ (refl, refl))))

module _ (fl : FloatOps) (sum : Bytes → Bytes) (dec : Decoder fl) where
  add_cache_policy-Same :
      (b : Builder) (id : Bytes) (p : CachePolicyProps fl)
      → Ensures (Same b) (add_cache_policy fl b id p)
  unfolding add_cache_policy
  add_cache_policy-Same b id p = Ensures-or_fault _ _ _ _ (λ cp _. Ensures-ok _ _ (refl, refl))

  -- Every alias has its owner, and every distribution is valid.
  record Sound (b : Builder) : Type 0 where
    owned : Owned b
    valid : (d : Distribution) → Memᴰ d b.cfg.distributions → ValidDistribution fl d

  Sound-Same : (b c : Builder) → Sound b → Same b c → Sound c
  unfolding Owned
  Sound-Same b c s (p, q) = record {
    owned = λ d m.
        subst (λ owners. All (λ a. lookup a owners ≡ some d.logical_id) d.aliases) (sym q)
          (s.owned d (subst (Memᴰ d) p m));
    valid = λ d m. s.valid d (subst (Memᴰ d) p m);
  }

  Sound-Adds : (b c : Builder) → Sound b → Owned c → Adds fl b c → Sound c
  unfolding Adds
  Sound-Adds b c s o (d, e, v) = record {
    owned = o;
    valid = λ x m. elim (Memᴰ.append_cases b.cfg.distributions (subst (Memᴰ x) e m)) [
      | inl old ↦ s.valid x old
      | inr new ↦ only d x v new
    ];
  }
    where
      only :
          (d x : Distribution) → ValidDistribution fl d → Memᴰ x (d ∷ []) → ValidDistribution fl x
      only d x v (Memᴰ.head p) = subst (ValidDistribution fl) (sym p) v
      only d x v (Memᴰ.tail m) = absurd (Memᴰ.not-nil m)

  add_distribution_resource-Sound :
      (b : Builder) (me : Bytes) (p : DistributionProps fl)
      → Sound b
      → Ensures Sound (add_distribution_resource fl sum b me p)
  unfolding add_distribution_resource
  add_distribution_resource-Sound b me p s = Ensures-or_fault _ _ _ _ (λ c _.
      Ensures-both _ _ _ _ (build_distribution-Owned fl sum b me c s.owned)
        (build_distribution-ValidDistribution fl sum b me c) (λ d o a. Sound-Adds b d s o a))

  Sound-from : (b : Builder) (m : Checked Builder) → Sound b → Ensures (Same b) m → Ensures Sound m
  Sound-from b m s h = Ensures-both _ _ _ m h h (λ c k _. Sound-Same b c s k)

  add_resource-Sound :
      (raw : StrMap RawResource) (kind : Kind) (b : Builder) (res : Resource fl sum dec)
      → Sound b
      → Ensures Sound (add_resource fl sum dec raw kind b res)
  unfolding add_resource
  add_resource-Sound raw origin_access_control b res s =
      Ensures-or_fault _ _ _ _ (λ p _. Ensures-ok _ _ (Sound-Same b _ s (add_oac-Same b _ _ p)))
  add_resource-Sound raw key_value_store b res s =
      Ensures-or_fault _ _ _ _ (λ p _. Sound-from b _ s (add_key_value_store-Same b _ _ p))
  add_resource-Sound raw public_key b res s =
      Ensures-or_fault _ _ _ _ (λ p _. Sound-from b _ s (add_public_key-Same b _ _ p))
  add_resource-Sound raw key_group b res s =
      Ensures-or_fault _ _ _ _ (λ p _. Sound-from b _ s (add_key_group-Same b _ _ p))
  add_resource-Sound raw cache_policy b res s =
      Ensures-or_fault _ _ _ _ (λ p _. Sound-from b _ s (add_cache_policy-Same b _ p))
  add_resource-Sound raw origin_request_policy b res s =
      Ensures-or_fault _ _ _ _ (λ p _. Sound-from b _ s (add_origin_request_policy-Same b _ p))
  add_resource-Sound raw response_headers_policy b res s =
      Ensures-or_fault _ _ _ _ (λ p _. Sound-from b _ s (add_response_headers_policy-Same b _ p))
  add_resource-Sound raw function b res s =
      Ensures-or_fault _ _ _ _ (λ p _. Sound-from b _ s (add_function-Same b _ _ p))
  add_resource-Sound raw distribution b res s =
      Ensures-or_fault _ _ _ _ (λ p _. add_distribution_resource-Sound b res.logical_id p s)

  Ensures-if :
      (t : Bool) (m n : Checked Builder)
      → Ensures Sound m
      → Ensures Sound n
      → Ensures Sound (if t then m else n)
  Ensures-if true m n h k = h
  Ensures-if false m n h k = k

  run_pass-Sound :
      (raw : StrMap RawResource) (kind : Kind) (b : Builder) (rs : List (Resource fl sum dec))
      → Sound b
      → Ensures Sound (run_pass fl sum dec raw kind b rs)
  unfolding run_pass
  run_pass-Sound raw kind b [] s = Ensures-ok _ b s
  run_pass-Sound raw kind b (res ∷ rs) s =
      Ensures->>= Sound _ _ _
        (Ensures-if _ _ _ (Ensures-ok _ b s)
          (Ensures-wrap _ _ _ (add_resource-Sound raw kind b res s)))
        (λ next t. run_pass-Sound raw kind next rs t)

  run_passes-Sound :
      (raw : StrMap RawResource) (kinds : List Kind) (b : Builder) (rs : List (Resource fl sum dec))
      → Sound b
      → Ensures Sound (run_passes fl sum dec raw kinds b rs)
  unfolding run_passes
  run_passes-Sound raw [] b rs s = Ensures-ok _ b s
  run_passes-Sound raw (kind ∷ kinds) b rs s =
      Ensures->>= Sound _ _ _ (run_pass-Sound raw kind b rs s)
        (λ next t. run_passes-Sound raw kinds next rs t)

  Sound-start : (b : Builder) → b.cfg.distributions ≡ [] → Sound b
  unfolding Owned
  Sound-start b e = record {
    owned = λ d m. absurd (Memᴰ.not-nil (subst (Memᴰ d) e m));
    valid = λ d m. absurd (Memᴰ.not-nil (subst (Memᴰ d) e m));
  }

  -- Some owner map has the owners of all aliases, and every distribution is valid.
  SoundConfig : Config → Type 0
  SoundConfig cfg =
      ((owners : StrMap Bytes) × ((d : Distribution)
          → Memᴰ d cfg.distributions
          → All (λ a. lookup a owners ≡ some d.logical_id) d.aliases))
      × ((d : Distribution) → Memᴰ d cfg.distributions → ValidDistribution fl d)

  SoundConfig-cfg : (b : Builder) → Sound b → SoundConfig b.cfg
  unfolding SoundConfig Owned
  SoundConfig-cfg b s = ((b.alias_owner, s.owned), s.valid)

  module _ (managed : ManagedPolicies fl) (raw : List RawResource)
      (resources : List (Resource fl sum dec)) (warnings : List Bytes) where
    build-SoundConfig : Ensures SoundConfig (build fl sum dec managed raw resources warnings)
    unfolding build
    build-SoundConfig =
        Ensures->>= (λ _. Unit) _ _ _ (Ensures-any _)
          (λ cps _.
            Ensures->>= (λ _. Unit) _ _ _ (Ensures-any _)
              (λ orps _.
                Ensures->>= (λ _. Unit) _ _ _ (Ensures-any _)
                  (λ rhps _.
                    Ensures->>= Sound _ _ _
                      (run_passes-Sound (index_raw raw []) passes _ resources (Sound-start _ refl))
                      (λ b s. Ensures-ok _ _ (SoundConfig-cfg b s)))))

    -- For every decoder, hash and input on which Build succeeds, each distribution of the
    -- configuration is valid: each of its origins is a custom origin or an S3 origin and not
    -- both; each behavior targets one of these origins, has a cache policy, allows GET and
    -- HEAD, those and OPTIONS, or all seven methods, and caches one of the first two lists;
    -- the default behavior has no path pattern, and every other one has.
    pub build-ValidDistribution :
        (cfg : Config) (d : Distribution)
        → build fl sum dec managed raw resources warnings ≡ ok cfg
        → Memᴰ d cfg.distributions
        → ValidDistribution fl d
    unfolding SoundConfig
    build-ValidDistribution cfg d e m = (Ensures-eq SoundConfig _ cfg build-SoundConfig e).1 d m

    -- For every decoder, hash and input on which Build succeeds, two distributions of the
    -- configuration with a common alias have the same logical ID.
    pub build-aliases :
        (cfg : Config) (d f : Distribution) (alias : Bytes)
        → build fl sum dec managed raw resources warnings ≡ ok cfg
        → Memᴰ d cfg.distributions
        → Memᴰ f cfg.distributions
        → Memᴰ alias d.aliases
        → Memᴰ alias f.aliases
        → d.logical_id ≡ f.logical_id
    unfolding SoundConfig
    build-aliases cfg d f alias e m n a b =
        let ((owners, owned), _) = Ensures-eq SoundConfig _ cfg build-SoundConfig e in
        same_owner owners alias (All-of_Mem _ d.aliases alias (owned d m) a)
          (All-of_Mem _ f.aliases alias (owned f n) b)
      where
        All-of_Mem : (P : Bytes → Type 0) (xs : List Bytes) (x : Bytes) → All P xs → Memᴰ x xs → P x
        All-of_Mem P [] x _ m = absurd (Memᴰ.not-nil m)
        All-of_Mem P (y ∷ xs) x (h, hs) (Memᴰ.head p) = subst P (sym p) h
        All-of_Mem P (y ∷ xs) x (h, hs) (Memᴰ.tail m) = All-of_Mem P xs x hs m

        same_owner :
            {i j : Bytes} (owners : StrMap Bytes) (a : Bytes)
            → lookup a owners ≡ some i
            → lookup a owners ≡ some j
            → i ≡ j
        same_owner owners a h k = cc
