-- ===== src/Config/Build/Behaviors/Laws.antt =====
-- What a behavior that was built is like.
use localfront.Base.{
  ◌≡◌, ◌≢◌, refl, ◌⊎◌, inl, inr, Bool, true, false, not, ◌&&◌, ℕ, suc, List, [], ◌∷◌, Option, none,
  some, arith, Bool-cases,
}
use localfront.Text.{Bytes, codes, is_empty, str_eq}
use localfront.Text.Map.{StrMap, lookup}
use localfront.Text.Laws.{eq_of_str_eq}
use localfront.Config.{Origin, CachePolicy, Function, Behavior}
use localfront.Config.Props.{
  FloatOps, BehaviorProps, ForwardedValuesProps, FunctionAssociationProps,
}
use localfront.Config.Build.Ensures.{
  Ensures, Ensures-ok, Ensures-failed, Ensures-any, Ensures-const, Ensures->>=, Ensures->>,
  Ensures-refuse, Ensures-or_fault, Ensures-wrap,
}
use localfront.Config.Build.Behaviors.{
  Builder, strings_eq, methods_get_head, methods_get_head_options, methods_all, known_methods,
  normalize_methods, resolve_policy, fill_slot, associate, apply_function_associations,
  validate_behavior_shape, cache_policy_of, resolve_cache_policy, build_behavior,
}

-- The method lists that a behavior may have, with all seven methods where `allow_all`.
abbrev pub AllowedMethods : Bool → List Bytes → Type 0
AllowedMethods allow_all ms =
    (ms ≡ methods_get_head)
    ⊎ (ms ≡ methods_get_head_options)
    ⊎ (allow_all ≡ true) × (ms ≡ methods_all)

eq_of_strings_eq : (ss ts : List Bytes) → strings_eq ss ts ≡ true → ss ≡ ts
unfolding strings_eq
eq_of_strings_eq [] [] h = refl
eq_of_strings_eq [] (t ∷ ts) h = absurd (cc)
eq_of_strings_eq (s ∷ ss) [] h = absurd (cc)
eq_of_strings_eq (s ∷ ss) (t ∷ ts) h =
    let heads = eq_of_str_eq s t (ground arith) in
    let tails = eq_of_strings_eq ss ts (ground arith) in cc

known_methods-AllowedMethods :
    (kind : Bytes) (ms : List Bytes) (allow_all : Bool) (out : List Bytes)
    → Ensures (AllowedMethods allow_all) (known_methods kind ms allow_all out)
unfolding known_methods
known_methods-AllowedMethods kind ms allow_all out =
    elim (Bool-cases (strings_eq out methods_get_head)) [
      | inl e ↦ rw e (Ensures-ok _ out (inl (eq_of_strings_eq out _ e)))
      | inr e ↦ elim (Bool-cases (strings_eq out methods_get_head_options)) [
        | inl f ↦ rw (e, f) (Ensures-ok _ out (inr (inl (eq_of_strings_eq out _ f))))
        | inr f ↦ elim (Bool-cases (allow_all && strings_eq out methods_all)) [
          | inl g ↦
              rw (e, f, g)
                (Ensures-ok _ out (inr (inr (ground arith, eq_of_strings_eq out _ (ground arith)))))
          | inr g ↦ rw (e, f, g) (Ensures-failed _ _)
        ]
      ]
    ]

normalize_methods-AllowedMethods :
    (kind : Bytes) (ms : List Bytes) (allow_all : Bool)
    → Ensures (AllowedMethods allow_all) (normalize_methods kind ms methods_get_head allow_all)
unfolding normalize_methods
normalize_methods-AllowedMethods kind [] allow_all = Ensures-ok _ _ (inl refl)
normalize_methods-AllowedMethods kind (m ∷ ms) allow_all =
    known_methods-AllowedMethods kind (m ∷ ms) allow_all _

-- A behavior whose origin is one of those in `P`.
pub record ValidBehavior (P : Origin → Type 0) (is_default : Bool) (bh : Behavior) : Type 0 where
  pub origin_is : P bh.origin
  pub has_cache_policy : bh.cache_policy ≢ none
  pub allowed : AllowedMethods true bh.allowed_methods
  pub cached : AllowedMethods false bh.cached_methods
  pub pattern : is_empty bh.path_pattern ≡ is_default

module _ (P : Origin → Type 0) (d : Bool) where
  fill_slot-ValidBehavior :
      (bh : Behavior) (event_type : Bytes) (fn : Function)
      → ValidBehavior P d bh
      → Ensures (ValidBehavior P d) (fill_slot bh event_type fn)
  unfolding fill_slot
  fill_slot-ValidBehavior bh event_type fn v =
      elim (Bool-cases (str_eq event_type (codes "viewer-request"))) [
        | inl e ↦ rw e (
            Ensures-refuse _ _ _ _ (λ _. Ensures-ok _ _ (record {
              origin_is = v.origin_is;
              has_cache_policy = v.has_cache_policy;
              allowed = v.allowed;
              cached = v.cached;
              pattern = v.pattern;
            })))
        | inr e ↦ elim (Bool-cases (str_eq event_type (codes "viewer-response"))) [
          | inl f ↦
              rw (e, f)
                (Ensures-refuse _ _ _ _ (λ _. Ensures-ok _ _ (record {
                  origin_is = v.origin_is;
                  has_cache_policy = v.has_cache_policy;
                  allowed = v.allowed;
                  cached = v.cached;
                  pattern = v.pattern;
                })))
          | inr f ↦ rw (e, f) (Ensures-failed _ _)
        ]
      ]

  associate-ValidBehavior :
      (known : StrMap Function) (bh : Behavior) (assoc : FunctionAssociationProps)
      → ValidBehavior P d bh
      → Ensures (ValidBehavior P d) (associate known bh assoc)
  unfolding associate
  associate-ValidBehavior known bh assoc v =
      Ensures-refuse _ _ _ _
        (λ _. Ensures-or_fault _ _ _ _ (λ fn _. fill_slot-ValidBehavior bh assoc.event_type fn v))

  apply_function_associations-ValidBehavior :
      (known : StrMap Function) (i : ℕ) (bh : Behavior) (assocs : List FunctionAssociationProps)
      → ValidBehavior P d bh
      → Ensures (ValidBehavior P d) (apply_function_associations known i bh assocs)
  unfolding apply_function_associations
  apply_function_associations-ValidBehavior known i bh [] v = Ensures-ok _ bh v
  apply_function_associations-ValidBehavior known i bh (assoc ∷ assocs) v =
      Ensures->>= (ValidBehavior P d) _ _ _
        (Ensures-wrap _ _ _ (associate-ValidBehavior known bh assoc v))
        (λ next w. apply_function_associations-ValidBehavior known (suc i) next assocs w)

resolve_policy-some :
    {A : Type 0} (policies : StrMap A) (c : ℕ) (id prop_name kind : Bytes)
    → Ensures (λ o. o ≢ none) (resolve_policy policies (c ∷ id) prop_name kind)
unfolding resolve_policy
resolve_policy-some policies c id prop_name kind =
    Ensures-refuse _ _ _ _ (λ _. Ensures-or_fault _ _ _ _ (λ p _. Ensures-ok _ (some p) (cc)))

module _ (fl : FloatOps) where
  cache_policy_of-some :
      (known : StrMap CachePolicy) (props : BehaviorProps fl) (id : Bytes)
      (fv : Option ForwardedValuesProps) (me : Bytes) (idx : ℕ)
      → Ensures (λ o. o ≢ none) (cache_policy_of fl known props id fv me idx)
  unfolding cache_policy_of
  cache_policy_of-some known props (c ∷ id) (some fv) me idx = Ensures-failed _ _
  cache_policy_of-some known props (c ∷ id) none me idx = resolve_policy-some known c id _ _
  cache_policy_of-some known props [] (some fv) me idx = Ensures-ok _ _ (cc)
  cache_policy_of-some known props [] none me idx = Ensures-failed _ _

  resolve_cache_policy-some :
      (known : StrMap CachePolicy) (props : BehaviorProps fl) (me : Bytes) (idx : ℕ)
      → Ensures (λ o. o ≢ none) (resolve_cache_policy fl known props me idx)
  unfolding resolve_cache_policy
  resolve_cache_policy-some known props me idx =
      cache_policy_of-some known props props.cache_policy_id props.forwarded_values me idx

  pattern_shape :
      (props : BehaviorProps fl) (d : Bool)
      → Ensures (λ _. is_empty props.path_pattern ≡ d) (validate_behavior_shape fl props d)
  unfolding validate_behavior_shape
  pattern_shape props d = Ensures-refuse _ _ _ _ (λ a. Ensures-refuse _ _ _ _ (λ b.
      Ensures-refuse _ _ _ _ (λ _. Ensures-refuse _ _ _ _ (λ _.
        Ensures-refuse _ _ _ _
          (λ _. Ensures-const _ _ (shape d (is_empty props.path_pattern) a b))))))
    where
      shape : (d e : Bool) → (d && not e) ≡ false → (not d && e) ≡ false → e ≡ d
      shape true true h k = refl
      shape true false h k = absurd (cc)
      shape false true h k = absurd (cc)
      shape false false h k = refl

  pub build_behavior-ValidBehavior :
      (P : Origin → Type 0) (b : Builder) (props : BehaviorProps fl) (origins : StrMap Origin)
      (d : Bool) (me : Bytes) (idx : ℕ)
      → ((id : Bytes) (o : Origin) → lookup id origins ≡ some o → P o)
      → Ensures (ValidBehavior P d) (build_behavior fl b props origins d me idx)
  unfolding build_behavior
  build_behavior-ValidBehavior P b props origins d me idx h =
      Ensures->> (λ _. is_empty props.path_pattern ≡ d) _ _ _ (pattern_shape props d)
        (λ pattern. Ensures-or_fault _ _ _ _ (λ origin found.
          Ensures->>= (AllowedMethods true) _ _ _
            (normalize_methods-AllowedMethods _ props.allowed_methods true)
            (λ allowed am.
              Ensures->>= (AllowedMethods false) _ _ _
                (normalize_methods-AllowedMethods _ props.cached_methods false)
                (λ cached cm.
                  Ensures->>= (λ o. o ≢ none) _ _ _
                    (resolve_cache_policy-some b.cache_policies props me idx)
                    (λ cache_policy some_policy.
                      Ensures->>= (λ _. Unit) _ _ _ (Ensures-any _)
                        (λ orp _.
                          Ensures->>= (λ _. Unit) _ _ _ (Ensures-any _)
                            (λ rhp _.
                              Ensures->>= (λ _. Unit) _ _ _ (Ensures-any _)
                                (λ groups _.
                                  apply_function_associations-ValidBehavior P d b.functions_by_arn 0
                                    _ props.function_associations
                                    (record {
                                      origin_is = h props.target_origin_id origin found;
                                      has_cache_policy = some_policy;
                                      allowed = am;
                                      cached = cm;
                                      pattern = pattern;
                                    })))))))))
