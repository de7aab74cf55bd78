-- ===== src/Config/Build/References/Kept.antt =====
-- What kept names mean for the maps of the builder, and each kind of resource.
use localfront.Base.{
  ◌≡◌, ◌≢◌, sym, ◌∙◌, inl, inr, true, false, none, some, if◌then◌else◌, Bool-cases,
}
use localfront.Text.{Bytes, str_eq}
use localfront.Text.Map.{StrMap, lookup, put, lookup-put}
use localfront.Config.Props.{FloatOps, DistributionConfigProps}
use localfront.Config.Build.Ensures.{
  Ensures, Ensures-ok, Ensures-any, Ensures->>=, Ensures->>, Ensures-refuse, Ensures-or_fault,
}
use localfront.Config.Build.Behaviors.{Builder}
use localfront.Config.Build.Distributions.{build_distribution, add_distribution_resource}
use localfront.Config.Build.Resources.{
  add_oac, add_key_value_store, add_public_key, add_key_group, add_origin_request_policy,
  add_response_headers_policy, add_function,
}
use localfront.Config.Build.Passes.{
  Kind, origin_access_control, key_value_store, public_key, key_group, cache_policy,
  origin_request_policy, response_headers_policy, function, distribution, RawResource, Decoder,
  add_cache_policy, Resource, add_resource,
}
use localfront.Config.Build.References.Registered.{Known, Registered}

-- The names of one map are names of the other.
abbrev Kept {ℓ} : {A : Type ℓ} → StrMap A → StrMap A → Type ℓ
Kept m n = (id : Bytes) → Known m id → Known n id

same {ℓ} : {A : Type ℓ} (m : StrMap A) → Kept m m
same m id h = h

put-Kept : {A : Type 0} (key : Bytes) (a : A) (m : StrMap A) → Kept m (put key a m)
put-Kept key a m id h e = elim (Bool-cases (str_eq key id)) [
  | inl t ↦ none-ne-some (sym e ∙ lookup-put key id a m ∙ hit t)
  | inr t ↦ h (keep t)
]
  where
    none-ne-some : none ≢ some a
    none-ne-some = cc

    hit : str_eq key id ≡ true → (if str_eq key id then some a else lookup id m) ≡ some a
    hit t = rw t

    keep : str_eq key id ≡ false → lookup id m ≡ none
    keep t = sym (lookup-put key id a m ∙ rw t) ∙ e

-- Every map of the builder that references are looked up in has kept its names.
pub record Grows (b c : Builder) : Type 0 where
  pub stores : Kept b.kvs_by_arn c.kvs_by_arn
  pub keys : Kept b.public_keys c.public_keys
  pub groups : Kept b.key_groups c.key_groups
  pub caches : Kept b.cache_policies c.cache_policies
  pub requests : Kept b.origin_request_policies c.origin_request_policies
  pub responses : Kept b.response_headers_policies c.response_headers_policies
  pub functions : Kept b.functions_by_arn c.functions_by_arn

pub Registered-Grows :
    (kind : Kind) (b c : Builder) (id : Bytes)
    → Grows b c
    → Registered kind b id
    → Registered kind c id
unfolding Registered
Registered-Grows key_value_store b c id g h = g.stores id h
Registered-Grows public_key b c id g h = g.keys id h
Registered-Grows key_group b c id g h = g.groups id h
Registered-Grows cache_policy b c id g h = g.caches id h
Registered-Grows origin_request_policy b c id g h = g.requests id h
Registered-Grows response_headers_policy b c id g h = g.responses id h
Registered-Grows function b c id g h = g.functions id h
Registered-Grows origin_access_control b c id g h = tt
Registered-Grows distribution b c id g h = tt

pub Grows-refl : (b : Builder) → Grows b b
Grows-refl b = record {
  stores = same _;
  keys = same _;
  groups = same _;
  caches = same _;
  requests = same _;
  responses = same _;
  functions = same _;
}

pub Grows-trans : (a b c : Builder) → Grows a b → Grows b c → Grows a c
Grows-trans a b c g h = record {
  stores = λ id k. h.stores id (g.stores id k);
  keys = λ id k. h.keys id (g.keys id k);
  groups = λ id k. h.groups id (g.groups id k);
  caches = λ id k. h.caches id (g.caches id k);
  requests = λ id k. h.requests id (g.requests id k);
  responses = λ id k. h.responses id (g.responses id k);
  functions = λ id k. h.functions id (g.functions id k);
}

-- A builder whose maps are those of `b`, each with at most one entry more.
Grows-of :
    (b c : Builder)
    → Kept b.kvs_by_arn c.kvs_by_arn
    → Kept b.public_keys c.public_keys
    → Kept b.key_groups c.key_groups
    → Kept b.functions_by_arn c.functions_by_arn
    → Kept b.cache_policies c.cache_policies
    → Kept b.origin_request_policies c.origin_request_policies
    → Kept b.response_headers_policies c.response_headers_policies
    → Grows b c
Grows-of b c s k g f p q r = record {
  stores = s;
  keys = k;
  groups = g;
  caches = p;
  requests = q;
  responses = r;
  functions = f;
}

module _ (fl : FloatOps) (sum : Bytes → Bytes) (dec : Decoder fl) (raw : StrMap RawResource) where
  build_distribution-Grows :
      (b : Builder) (me : Bytes) (c : DistributionConfigProps fl)
      → Ensures (Grows b) (build_distribution fl sum b me c)
  unfolding build_distribution
  build_distribution-Grows b me c =
      Ensures->> (λ _. Unit) _ _ _ (Ensures-any _)
        (λ _.
          Ensures->>= (λ _. Unit) _ _ _ (Ensures-any _)
            (λ claims _. Ensures-refuse _ _ _ _ (λ _.
              Ensures->>= (λ _. Unit) _ _ _ (Ensures-any _)
                (λ origins _.
                  Ensures->>= (λ _. Unit) _ _ _ (Ensures-any _)
                    (λ default_behavior _.
                      Ensures->>= (λ _. Unit) _ _ _ (Ensures-any _)
                        (λ behaviors _.
                          Ensures->>= (λ _. Unit) _ _ _ (Ensures-any _)
                            (λ ers _. Ensures-ok _ _ (
                              Grows-of b _ (same _) (same _) (same _) (same _) (same _) (same _)
                                (same _)))))))))

  pub add_resource-Grows :
      (kind : Kind) (b : Builder) (res : Resource fl sum dec)
      → Ensures (Grows b) (add_resource fl sum dec raw kind b res)
  unfolding add_resource add_oac add_key_value_store add_public_key add_key_group add_cache_policy
      add_origin_request_policy add_response_headers_policy add_function add_distribution_resource
  add_resource-Grows origin_access_control b res = Ensures-or_fault _ _ _ _ (λ p _.
      Ensures-ok _ _ (Grows-of b _ (same _) (same _) (same _) (same _) (same _) (same _) (same _)))
  add_resource-Grows key_value_store b res = Ensures-or_fault _ _ _ _ (λ p _.
      Ensures-refuse _ _ _ _ (λ _.
        Ensures->>= (λ _. Unit) _ _ _ (Ensures-any _)
          (λ arn _.
            Ensures-ok _ _ (
              Grows-of b _ (put-Kept _ _ _) (same _) (same _) (same _) (same _) (same _)
                (same _)))))
  add_resource-Grows public_key b res = Ensures-or_fault _ _ _ _ (λ p _.
      Ensures-or_fault _ _ _ _ (λ c _. Ensures-refuse _ _ _ _ (λ _.
        Ensures-ok _ _
          (Grows-of b _ (same _) (put-Kept _ _ _) (same _) (same _) (same _) (same _) (same _)))))
  add_resource-Grows key_group b res = Ensures-or_fault _ _ _ _ (λ p _.
      Ensures-or_fault _ _ _ _ (λ c _.
        Ensures->>= (λ _. Unit) _ _ _ (Ensures-any _)
          (λ keys _.
            Ensures-ok _ _ (
              Grows-of b _ (same _) (same _) (put-Kept _ _ _) (same _) (same _) (same _)
                (same _)))))
  add_resource-Grows function b res = Ensures-or_fault _ _ _ _ (λ p _. Ensures-refuse _ _ _ _ (λ _.
      Ensures-refuse _ _ _ _ (λ _.
        Ensures->>= (λ _. Unit) _ _ _ (Ensures-any _)
          (λ settings _. Ensures-ok _ _ (
            Grows-of b _ (same _) (same _) (same _) (put-Kept _ _ _) (same _) (same _) (same _))))))
  add_resource-Grows cache_policy b res = Ensures-or_fault _ _ _ _ (λ p _.
      Ensures-or_fault _ _ _ _ (λ c _.
        Ensures-ok _ _
          (Grows-of b _ (same _) (same _) (same _) (same _) (put-Kept _ _ _) (same _) (same _))))
  add_resource-Grows origin_request_policy b res = Ensures-or_fault _ _ _ _ (λ p _.
      Ensures-or_fault _ _ _ _ (λ c _.
        Ensures-ok _ _
          (Grows-of b _ (same _) (same _) (same _) (same _) (same _) (put-Kept _ _ _) (same _))))
  add_resource-Grows response_headers_policy b res = Ensures-or_fault _ _ _ _ (λ p _.
      Ensures-or_fault _ _ _ _ (λ c _.
        Ensures-ok _ _
          (Grows-of b _ (same _) (same _) (same _) (same _) (same _) (same _) (put-Kept _ _ _))))
  add_resource-Grows distribution b res =
      Ensures-or_fault _ _ _ _
        (λ p _. Ensures-or_fault _ _ _ _ (λ c _. build_distribution-Grows b res.logical_id c))
