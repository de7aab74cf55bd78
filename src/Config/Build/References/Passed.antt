-- ===== src/Config/Build/References/Passed.antt =====
-- All passes over the resources, and the IDs that references evaluate to.
use mathlib.Core.List.{Memᴰ}
use mathlib.Core.List.Memᴰ
use localfront.Base.{
  ◌≡◌, ◌≢◌, refl, sym, ap, ◌∙◌, subst, Bool, true, false, not, List, [], ◌∷◌, some, if◌then◌else◌,
}
use localfront.Text.{Bytes, str_eq}
use localfront.Text.Laws.{str_eq_iff}
use localfront.Text.Map.{StrMap, lookup}
use localfront.Config.Props.{FloatOps}
use localfront.Config.Build.{Fault, Checked, ok, ◌>>=◌, wrap}
use localfront.Config.Build.Ensures.{
  Ensures, Ensures-ok, Ensures-any, Ensures->>=, Ensures-wrap, Ensures-eq, Ensures-both,
}
use localfront.Config.Build.Behaviors.{Builder}
use localfront.Config.Build.Passes.{
  Kind, origin_access_control, key_value_store, public_key, key_group, cache_policy,
  origin_request_policy, response_headers_policy, function, distribution, passes, kind_name,
  RawResource, Decoder, Resource, add_resource, run_pass, run_passes,
}
use localfront.Config.Build.References.Laws.{reference, own_id, reference-own_id}
use localfront.Config.Build.References.Registered.{Registered, add_resource-own_id}
use localfront.Config.Build.References.Kept.{
  Grows, Grows-refl, Grows-trans, Registered-Grows, add_resource-Grows,
}

module _ (fl : FloatOps) (sum : Bytes → Bytes) (dec : Decoder fl) (raw : StrMap RawResource) where
  Ensures-if :
      (P : Builder → Type 0) (t : Bool) (m n : Checked Builder)
      → Ensures P m
      → Ensures P n
      → Ensures P (if t then m else n)
  Ensures-if P true m n h k = h
  Ensures-if P false m n h k = k

  -- One resource in one pass.
  step-Grows :
      (kind : Kind) (b : Builder) (res : Resource fl sum dec) (t : Bool) (f : Fault → Fault)
      → Ensures (Grows b) (if t then ok b else wrap f (add_resource fl sum dec raw kind b res))
  step-Grows kind b res t f =
      Ensures-if _ t _ _ (Ensures-ok _ b (Grows-refl b))
        (Ensures-wrap _ _ _ (add_resource-Grows fl sum dec raw kind b res))

  -- What grows in a first step, and in the rest, grows.
  after :
      (b : Builder) (m : Checked Builder) (k : Builder → Checked Builder)
      → Ensures (Grows b) m
      → ((next : Builder) → Ensures (Grows next) (k next))
      → Ensures (Grows b) (m >>= k)
  after b m k h g = Ensures->>= (Grows b) (Grows b) m k h (λ next s.
      Ensures-both _ (λ _. Unit) (Grows b) (k next) (g next) (Ensures-any _)
        (λ c t _. Grows-trans b next c s t))

  run_pass-Grows :
      (kind : Kind) (b : Builder) (rs : List (Resource fl sum dec))
      → Ensures (Grows b) (run_pass fl sum dec raw kind b rs)
  unfolding run_pass
  run_pass-Grows kind b [] = Ensures-ok _ b (Grows-refl b)
  run_pass-Grows kind b (res ∷ rs) =
      after b _ _ (step-Grows kind b res _ _) (λ next. run_pass-Grows kind next rs)

  run_passes-Grows :
      (kinds : List Kind) (b : Builder) (rs : List (Resource fl sum dec))
      → Ensures (Grows b) (run_passes fl sum dec raw kinds b rs)
  unfolding run_passes
  run_passes-Grows [] b rs = Ensures-ok _ b (Grows-refl b)
  run_passes-Grows (kind ∷ kinds) b rs =
      after b _ _ (run_pass-Grows kind b rs) (λ next. run_passes-Grows kinds next rs)

  -- What holds behind the first step, and is kept by the rest, holds.
  kept :
      (kind : Kind) (id : Bytes) (m : Checked Builder) (k : Builder → Checked Builder)
      → Ensures (λ c. Registered kind c id) m
      → ((next : Builder) → Ensures (Grows next) (k next))
      → Ensures (λ c. Registered kind c id) (m >>= k)
  kept kind id m k h g =
      Ensures->>= (λ c. Registered kind c id) (λ c. Registered kind c id) m k h
        (λ next s.
          Ensures-both _ (λ _. Unit) (λ c. Registered kind c id) (k next) (g next) (Ensures-any _)
            (λ c t _. Registered-Grows kind next c id t s))

  module _ (kind : Kind) (r : RawResource) where
    -- What the resource is registered under
    RegisteredAs : Resource fl sum dec → Builder → Type 0
    RegisteredAs res c = Registered kind c (own_id sum kind r res.logical_id)

    step-Registered :
        (b : Builder) (res : Resource fl sum dec) (f : Fault → Fault)
        → lookup res.logical_id raw ≡ some r
        → res.type ≡ kind_name kind
        → Ensures (RegisteredAs res) (
            if not (str_eq res.type (kind_name kind))
            then ok b
            else wrap f (add_resource fl sum dec raw kind b res))
    unfolding RegisteredAs
    step-Registered b res f h t =
        taken _ (str_eq res.type (kind_name kind)) _ _ ((str_eq_iff res.type (kind_name kind)).1 t)
          (Ensures-wrap _ _ _ (add_resource-own_id fl sum dec raw kind b res r h))
      where
        taken :
            (P : Builder → Type 0) (same_type : Bool) (m n : Checked Builder)
            → same_type ≡ true
            → Ensures P n
            → Ensures P (if not same_type then m else n)
        taken P true m n e k = k
        taken P false m n e k = absurd (false-ne-true e)
          where
            false-ne-true : false ≢ true
            false-ne-true = cc

    run_pass-Registered :
        (b : Builder) (rs : List (Resource fl sum dec)) (res : Resource fl sum dec)
        → Memᴰ res rs
        → lookup res.logical_id raw ≡ some r
        → res.type ≡ kind_name kind
        → Ensures (RegisteredAs res) (run_pass fl sum dec raw kind b rs)
    unfolding run_pass RegisteredAs
    run_pass-Registered b [] res m h t = absurd (Memᴰ.not-nil m)
    run_pass-Registered b (x ∷ rs) res (Memᴰ.head p) h t =
        subst (λ y. Ensures (RegisteredAs y) (run_pass fl sum dec raw kind b (x ∷ rs))) (sym p)
          (kept kind (own_id sum kind r x.logical_id) _ _
            (step-Registered b x _ (ap (λ y. lookup y.logical_id raw) (sym p) ∙ h)
              (ap (λ y. y.type) (sym p) ∙ t))
            (λ next. run_pass-Grows kind next rs))
    run_pass-Registered b (x ∷ rs) res (Memᴰ.tail m) h t =
        Ensures->>= (λ _. Unit) _ _ _ (Ensures-any _)
          (λ next _. run_pass-Registered next rs res m h t)

    run_kinds-Registered :
        (kinds : List Kind) (b : Builder) (rs : List (Resource fl sum dec))
        (res : Resource fl sum dec)
        → Memᴰ kind kinds
        → Memᴰ res rs
        → lookup res.logical_id raw ≡ some r
        → res.type ≡ kind_name kind
        → Ensures (RegisteredAs res) (run_passes fl sum dec raw kinds b rs)
    unfolding run_passes RegisteredAs
    run_kinds-Registered [] b rs res k m h t = absurd (Memᴰ.not-nil k)
    run_kinds-Registered (x ∷ kinds) b rs res (Memᴰ.head p) m h t =
        kept kind _ _ _
          (subst (λ y. Ensures (RegisteredAs res) (run_pass fl sum dec raw y b rs)) p
            (run_pass-Registered b rs res m h t))
          (λ next. run_passes-Grows kinds next rs)
    run_kinds-Registered (x ∷ kinds) b rs res (Memᴰ.tail k) m h t =
        Ensures->>= (λ _. Unit) _ _ _ (Ensures-any _)
          (λ next _. run_kinds-Registered kinds next rs res k m h t)

  has_pass : (kind : Kind) → Memᴰ kind passes
  has_pass origin_access_control = Memᴰ.head refl
  has_pass key_value_store = Memᴰ.tail (Memᴰ.head refl)
  has_pass public_key = Memᴰ.tail (Memᴰ.tail (Memᴰ.head refl))
  has_pass key_group = Memᴰ.tail (Memᴰ.tail (Memᴰ.tail (Memᴰ.head refl)))
  has_pass cache_policy = Memᴰ.tail (Memᴰ.tail (Memᴰ.tail (Memᴰ.tail (Memᴰ.head refl))))
  has_pass origin_request_policy =
      Memᴰ.tail (Memᴰ.tail (Memᴰ.tail (Memᴰ.tail (Memᴰ.tail (Memᴰ.head refl)))))
  has_pass response_headers_policy =
      Memᴰ.tail (Memᴰ.tail (Memᴰ.tail (Memᴰ.tail (Memᴰ.tail (Memᴰ.tail (Memᴰ.head refl))))))
  has_pass function =
      Memᴰ.tail
        (Memᴰ.tail (Memᴰ.tail (Memᴰ.tail (Memᴰ.tail (Memᴰ.tail (Memᴰ.tail (Memᴰ.head refl)))))))
  has_pass distribution = Memᴰ.tail (
      Memᴰ.tail
        (Memᴰ.tail (Memᴰ.tail (Memᴰ.tail (Memᴰ.tail (Memᴰ.tail (Memᴰ.tail (Memᴰ.head refl))))))))

  -- Where all passes succeed from any builder, and a resource has the type of its raw
  -- resource, one of the nine supported types: the reference to it (Fn::GetAtt Arn for a
  -- key-value store, Ref for the others) evaluates to an ID, and the builder has that ID in
  -- its map for the type behind all passes, whatever other resources were added. Origin access
  -- controls and distributions have no such map.
  pub run_passes-Registered :
      (kind : Kind) (b c : Builder) (rs : List (Resource fl sum dec)) (res : Resource fl sum dec)
      (r : RawResource)
      → Memᴰ res rs
      → res.type ≡ kind_name kind
      → lookup res.logical_id raw ≡ some r
      → r.type ≡ res.type
      → run_passes fl sum dec raw passes b rs ≡ ok c
      → (id : Bytes) × (reference sum kind raw res.logical_id ≡ some id) × Registered kind c id
  unfolding RegisteredAs
  run_passes-Registered kind b c rs res r m t h s e = (
    own_id sum kind r res.logical_id,
    reference-own_id sum kind raw res.logical_id r h (s ∙ t),
    Ensures-eq _ _ c (run_kinds-Registered kind r passes b rs res (has_pass kind) m h t) e,
  )
