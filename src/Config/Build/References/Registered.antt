-- ===== src/Config/Build/References/Registered.antt =====
-- The map in which a kind of resource is looked up, and one step of a pass.
use localfront.Base.{◌≡◌, ◌≢◌, refl, sym, ap, ◌∙◌, Option, none, some}
use localfront.Text.{Bytes}
use localfront.Text.Laws.{str_eq_refl}
use localfront.Text.Map.{StrMap, lookup, put, lookup-put}
use localfront.Config.Props.{
  FloatOps, CachePolicyConfigProps, OriginRequestPolicyConfigProps,
  ResponseHeadersPolicyConfigProps,
}
use localfront.Config.{CachePolicy, OriginRequestPolicy, ResponseHeadersPolicy}
use localfront.Config.Policies.{
  cache_policy_from_props, origin_request_policy_from_props, response_headers_policy_from_props,
}
use localfront.Config.Build.Ids.{function_arn_of}
use localfront.Config.Build.Ensures.{
  Ensures, Ensures-ok, Ensures-any, Ensures->>=, Ensures-refuse, Ensures-or_fault,
}
use localfront.Config.Build.Behaviors.{Builder}
use localfront.Config.Build.Resources.{
  add_key_value_store, add_public_key, add_key_group, add_origin_request_policy,
  add_response_headers_policy, add_function,
}
use localfront.Config.Build.Passes.{
  Kind, origin_access_control, key_value_store, public_key, key_group, cache_policy,
  origin_request_policy, response_headers_policy, function, distribution, RawResource, Decoder,
  add_cache_policy, Resource, add_resource, function_name_of,
}
use localfront.Config.Build.References.Laws.{own_id}

abbrev pub Known {ℓ} : {A : Type ℓ} → StrMap A → Bytes → Type ℓ
Known m id = lookup id m ≢ none

-- The map of the builder in which a resource of that kind is looked up.
unfoldable pub Registered : Kind → Builder → Bytes → Type 0
Registered key_value_store b id = Known b.kvs_by_arn id
Registered public_key b id = Known b.public_keys id
Registered key_group b id = Known b.key_groups id
Registered cache_policy b id = Known b.cache_policies id
Registered origin_request_policy b id = Known b.origin_request_policies id
Registered response_headers_policy b id = Known b.response_headers_policies id
Registered function b id = Known b.functions_by_arn id
Registered origin_access_control b id = Unit
Registered distribution b id = Unit

Known-put : {A : Type 0} (id key : Bytes) (a : A) (m : StrMap A) → key ≡ id → Known (put key a m) id
Known-put id key a m e h = none-ne-some (sym h ∙ found)
  where
    none-ne-some : {A : Type 0} {a : A} → none ≢ some a
    none-ne-some = cc

    found : lookup id (put key a m) ≡ some a
    found = lookup-put key id a m ∙ rw (e, str_eq_refl id)

origin_request_policy-id :
    (id : Bytes) (c : Option OriginRequestPolicyConfigProps) (p : OriginRequestPolicy)
    → origin_request_policy_from_props id c ≡ some p
    → p.id ≡ id
unfolding origin_request_policy_from_props
origin_request_policy-id id none p h = cc
origin_request_policy-id id (some c) p h = ap (λ o. elim o [ none ↦ id | some q ↦ q.id ]) (sym h)

response_headers_policy-id :
    (id : Bytes) (c : Option ResponseHeadersPolicyConfigProps) (p : ResponseHeadersPolicy)
    → response_headers_policy_from_props id c ≡ some p
    → p.id ≡ id
unfolding response_headers_policy_from_props
response_headers_policy-id id none p h = cc
response_headers_policy-id id (some c) p h = ap (λ o. elim o [ none ↦ id | some q ↦ q.id ]) (sym h)

module _ (fl : FloatOps) (sum : Bytes → Bytes) (dec : Decoder fl) (raw : StrMap RawResource) where
  cache_policy-id :
      (id : Bytes) (c : Option (CachePolicyConfigProps fl)) (p : CachePolicy)
      → cache_policy_from_props fl id c ≡ some p
      → p.id ≡ id
  unfolding cache_policy_from_props
  cache_policy-id id none p h = cc
  cache_policy-id id (some c) p h = ap (λ o. elim o [ none ↦ id | some q ↦ q.id ]) (sym h)

  pub add_resource-own_id :
      (kind : Kind) (b : Builder) (res : Resource fl sum dec) (r : RawResource)
      → lookup res.logical_id raw ≡ some r
      → Ensures
          (λ c. Registered kind c (own_id sum kind r res.logical_id))
          (add_resource fl sum dec raw kind b res)
  unfolding add_resource add_key_value_store add_public_key add_key_group add_cache_policy
      add_origin_request_policy add_response_headers_policy add_function own_id Registered
  add_resource-own_id origin_access_control b res r h =
      Ensures-or_fault _ _ _ _ (λ p _. Ensures-ok _ _ tt)
  add_resource-own_id key_value_store b res r h = Ensures-or_fault _ _ _ _ (λ p _.
      Ensures-refuse _ _ _ _ (λ _.
        Ensures->>= (λ _. Unit) _ _ _ (Ensures-any _)
          (λ arn _. Ensures-ok _ _ (Known-put _ _ _ b.kvs_by_arn refl))))
  add_resource-own_id public_key b res r h = Ensures-or_fault _ _ _ _ (λ p _.
      Ensures-or_fault _ _ _ _
        (λ c _. Ensures-refuse _ _ _ _ (λ _. Ensures-ok _ _ (Known-put _ _ _ b.public_keys refl))))
  add_resource-own_id key_group b res r h = Ensures-or_fault _ _ _ _ (λ p _.
      Ensures-or_fault _ _ _ _ (λ c _.
        Ensures->>= (λ _. Unit) _ _ _ (Ensures-any _)
          (λ keys _. Ensures-ok _ _ (Known-put _ _ _ b.key_groups refl))))
  add_resource-own_id cache_policy b res r h = Ensures-or_fault _ _ _ _ (λ p _.
      Ensures-or_fault _ _ _ _ (λ c e.
        Ensures-ok _ _
          (Known-put _ _ _ b.cache_policies (cache_policy-id _ p.cache_policy_config c e))))
  add_resource-own_id origin_request_policy b res r h = Ensures-or_fault _ _ _ _ (λ p _.
      Ensures-or_fault _ _ _ _ (λ c e. Ensures-ok _ _ (
        Known-put _ _ _ b.origin_request_policies
          (origin_request_policy-id _ p.origin_request_policy_config c e))))
  add_resource-own_id response_headers_policy b res r h = Ensures-or_fault _ _ _ _ (λ p _.
      Ensures-or_fault _ _ _ _ (λ c e. Ensures-ok _ _ (
        Known-put _ _ _ b.response_headers_policies
          (response_headers_policy-id _ p.response_headers_policy_config c e))))
  add_resource-own_id function b res r h = Ensures-or_fault _ _ _ _ (λ p _.
      Ensures-refuse _ _ _ _ (λ _. Ensures-refuse _ _ _ _ (λ _.
        Ensures->>= (λ _. Unit) _ _ _ (Ensures-any _)
          (λ settings _. Ensures-ok _ _ (
            Known-put _ _ _ b.functions_by_arn
              (ap (λ o. function_arn_of (function_name_of o res.logical_id)) h))))))
  add_resource-own_id distribution b res r h = Ensures-or_fault _ _ _ _ (λ p _. Ensures-any _)
