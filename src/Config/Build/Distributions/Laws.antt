-- ===== src/Config/Build/Distributions/Laws.antt =====
-- What a distribution that was built is like.
use mathlib.Core.List.{Memᴰ}
use mathlib.Core.List.Memᴰ
use localfront.Base.{
  ◌≡◌, ◌≢◌, refl, inl, inr, true, false, ℕ, suc, List, [], ◌∷◌, ◌++◌, Option, none, some, arith,
  All, All-append, Bool-cases,
}
use localfront.Text.{Bytes, str_eq}
use localfront.Text.Map.{StrMap, lookup, put, lookup-put}
use localfront.Config.{Origin, Distribution}
use localfront.Config.Props.{FloatOps, BehaviorProps, OriginProps, DistributionConfigProps}
use localfront.Config.Build.Ensures.{
  Ensures, Ensures-ok, Ensures-failed, Ensures-any, Ensures->>=, Ensures->>, Ensures-refuse,
  Ensures-wrap,
}
use localfront.Config.Build.Origins.Laws.{OneKind, build_origin-OneKind}
use localfront.Config.Build.Behaviors.{Builder}
use localfront.Config.Build.Behaviors.Laws.{ValidBehavior, build_behavior-ValidBehavior}
use localfront.Config.Build.Distributions.{
  Origins, add_origin, build_origins, build_behaviors, build_default_behavior, build_distribution,
}

-- The origins by ID are among those in order, and each has one kind.
record ValidOrigins (origins : Origins) : Type 0 where
  listed : (id : Bytes) (o : Origin) → lookup id origins.0 ≡ some o → Memᴰ o origins.1
  kinds : All OneKind origins.1

add_origin-ValidOrigins :
    (taken : Option Origin) (o : Origin) (origins : Origins)
    → OneKind o
    → ValidOrigins origins
    → Ensures ValidOrigins (add_origin taken o origins)
add_origin-ValidOrigins (some _) o origins k v = Ensures-failed _ _
add_origin-ValidOrigins none o (by_id, all) k v = Ensures-ok _ _ (record {
  listed = λ id p h. elim (Bool-cases (str_eq o.id id)) [
    | inl e ↦ Memᴰ.append_right all (Memᴰ.head (new id p h e))
    | inr e ↦ Memᴰ.append_left (o ∷ []) (v.listed id p (old id p h e))
  ];
  kinds = All-append OneKind all (o ∷ []) v.kinds (k, tt);
})
  where
    new :
        (id : Bytes) (p : Origin)
        → lookup id (put o.id o by_id) ≡ some p
        → str_eq o.id id ≡ true
        → p ≡ o
    new id p h e = ground (arith, lookup-put o.id id o by_id)

    old :
        (id : Bytes) (p : Origin)
        → lookup id (put o.id o by_id) ≡ some p
        → str_eq o.id id ≡ false
        → lookup id by_id ≡ some p
    old id p h e = ground (arith, lookup-put o.id id o by_id)

no_origins : ValidOrigins ([], [])
unfolding lookup
no_origins = record { listed = λ id o h. absurd (nothing-ne-some o h); kinds = tt }
  where
    nothing-ne-some : (o : Origin) → none ≢ some o
    nothing-ne-some o = cc

build_origins-ValidOrigins :
    (i : ℕ) (origins : Origins) (ops : List OriginProps)
    → ValidOrigins origins
    → Ensures ValidOrigins (build_origins i origins ops)
unfolding build_origins
build_origins-ValidOrigins i origins [] v = Ensures-ok _ origins v
build_origins-ValidOrigins i origins (op ∷ ops) v =
    Ensures->>= OneKind _ _ _ (Ensures-wrap _ _ _ (build_origin-OneKind op)) (λ o k.
      Ensures->>= ValidOrigins _ _ _
        (Ensures-wrap _ _ _ (add_origin-ValidOrigins (lookup o.id origins.0) o origins k v))
        (λ next w. build_origins-ValidOrigins (suc i) next ops w))

module _ (fl : FloatOps) where
  build_behaviors-ValidBehavior :
      (P : Origin → Type 0) (b : Builder) (origins : StrMap Origin) (me : Bytes) (i : ℕ)
      (rest : List (BehaviorProps fl))
      → ((id : Bytes) (o : Origin) → lookup id origins ≡ some o → P o)
      → Ensures (All (ValidBehavior P false)) (build_behaviors fl b origins me i rest)
  unfolding build_behaviors
  build_behaviors-ValidBehavior P b origins me i [] h = Ensures-ok _ _ tt
  build_behaviors-ValidBehavior P b origins me i (props ∷ rest) h =
      Ensures->>= (ValidBehavior P false) _ _ _
        (Ensures-wrap _ _ _ (build_behavior-ValidBehavior fl P b props origins false me i h))
        (λ bh v.
          Ensures->>= (All (ValidBehavior P false)) _ _ _
            (build_behaviors-ValidBehavior P b origins me (suc i) rest h)
            (λ bhs vs. Ensures-ok _ _ (v, vs)))

  build_default_behavior-ValidBehavior :
      (P : Origin → Type 0) (b : Builder) (origins : StrMap Origin) (me : Bytes)
      (o : Option (BehaviorProps fl))
      → ((id : Bytes) (o : Origin) → lookup id origins ≡ some o → P o)
      → Ensures (ValidBehavior P true) (build_default_behavior fl b origins me o)
  unfolding build_default_behavior
  build_default_behavior-ValidBehavior P b origins me none h = Ensures-failed _ _
  build_default_behavior-ValidBehavior P b origins me (some props) h =
      Ensures-wrap _ _ _ (build_behavior-ValidBehavior fl P b props origins true me 0 h)

  -- Every behavior goes to an origin of the distribution, and every origin is of one kind.
  pub record ValidDistribution (d : Distribution) : Type 0 where
    pub origin_kinds : All OneKind d.origins
    pub default_valid : ValidBehavior (λ o. Memᴰ o d.origins) true d.default_behavior
    pub behaviors_valid : All (ValidBehavior (λ o. Memᴰ o d.origins) false) d.behaviors

  -- One distribution was added, and it is valid.
  unfoldable pub Adds : Builder → Builder → Type 0
  Adds b c =
      (d : Distribution) × (c.cfg.distributions ≡ b.cfg.distributions ++ d ∷ [])
      × ValidDistribution d

  pub build_distribution-ValidDistribution :
      (sum : Bytes → Bytes) (b : Builder) (me : Bytes) (c : DistributionConfigProps fl)
      → Ensures (Adds b) (build_distribution fl sum b me c)
  unfolding build_distribution Adds
  build_distribution-ValidDistribution sum b me c =
      Ensures->> (λ _. Unit) _ _ _ (Ensures-any _)
        (λ _.
          Ensures->>= (λ _. Unit) _ _ _ (Ensures-any _)
            (λ claims _. Ensures-refuse _ _ _ _ (λ _.
              Ensures->>= ValidOrigins _ _ _
                (build_origins-ValidOrigins 0 ([], []) c.origins no_origins)
                (λ origins v.
                  Ensures->>= (ValidBehavior (λ o. Memᴰ o origins.1) true) _ _ _
                    (build_default_behavior-ValidBehavior _ b origins.0 me c.default_cache_behavior
                      v.listed)
                    (λ default_behavior w.
                      Ensures->>= (All (ValidBehavior (λ o. Memᴰ o origins.1) false)) _ _ _
                        (build_behaviors-ValidBehavior _ b origins.0 me 0 c.cache_behaviors
                          v.listed)
                        (λ behaviors ws.
                          Ensures->>= (λ _. Unit) _ _ _ (Ensures-any _)
                            (λ ers _. Ensures-ok _ _ (
                              _,
                              refl,
                              record {
                                origin_kinds = v.kinds;
                                default_valid = w;
                                behaviors_valid = ws;
                              },
                            ))))))))
