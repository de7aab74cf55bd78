-- ===== src/Config/Build/Distributions/Aliases.antt =====
-- The owners of aliases.
use mathlib.Core.List.{Memᴰ}
use mathlib.Core.List.Memᴰ
use localfront.Base.{
  ◌≡◌, ◌≢◌, sym, ap, ◌∙◌, subst, inl, inr, List, [], ◌∷◌, ◌++◌, none, some, arith, All, All-append,
  Bool-cases, Option-cases,
}
use localfront.Text.{Bytes, str_eq, to_lower}
use localfront.Text.Laws.{str_eq_iff, str_eq_refl}
use localfront.Text.Map.{StrMap, lookup, put, lookup-put}
use localfront.Config.{Distribution}
use localfront.Config.Props.{FloatOps, DistributionConfigProps}
use localfront.Config.Build.Ensures.{
  Ensures, Ensures-ok, Ensures-failed, Ensures-any, Ensures->>=, Ensures->>, Ensures-refuse,
}
use localfront.Config.Build.Behaviors.{Builder}
use localfront.Config.Build.Distributions.{
  Claims, claim_free, claim_alias, claim_aliases, build_distribution, add_to,
}

-- What was owned is owned still.
abbrev pub Extends : StrMap Bytes → StrMap Bytes → Type 0
Extends old now = (k owner : Bytes) → lookup k old ≡ some owner → lookup k now ≡ some owner

-- The distribution `me` owns its aliases, and the others own theirs as before.
record Claimed (me : Bytes) (old : StrMap Bytes) (claims : Claims) : Type 0 where
  extends : Extends old claims.0
  mine : All (λ a. lookup a claims.0 ≡ some me) claims.1

All-imp : (P Q : Bytes → Type 0) (xs : List Bytes) → ((x : Bytes) → P x → Q x) → All P xs → All Q xs
All-imp P Q [] f _ = tt
All-imp P Q (x ∷ xs) f (h, hs) = (f x h, All-imp P Q xs f hs)

none-ne-some : {owner : Bytes} → none ≢ some owner
none-ne-some = cc

put_own : (alias me : Bytes) (owners : StrMap Bytes) → lookup alias (put alias me owners) ≡ some me
put_own alias me owners = ground (arith, lookup-put alias alias me owners, str_eq_refl alias)

put_free :
    (alias me k owner : Bytes) (owners : StrMap Bytes)
    → lookup alias owners ≡ none
    → lookup k owners ≡ some owner
    → lookup k (put alias me owners) ≡ some owner
put_free alias me k owner owners free h = elim (Bool-cases (str_eq alias k)) [
  | inl e ↦
      let same : lookup alias owners ≡ lookup k owners =
        ap (λ a. lookup a owners) ((str_eq_iff alias k).0 e) in
      absurd (none-ne-some (sym free ∙ same ∙ h))
  | inr e ↦ ground (arith, lookup-put alias k me owners)
]

claim_free-Claimed :
    (me alias : Bytes) (old : StrMap Bytes) (claims : Claims)
    → Claimed me old claims
    → Ensures (Claimed me old) (claim_free alias me (lookup alias claims.0) claims)
claim_free-Claimed me alias old (owners, mine) c = elim (Option-cases (lookup alias owners)) [
  | inl free ↦ rw free (
      Ensures-ok _ _ (record {
        extends = λ k owner h. put_free alias me k owner owners free (c.extends k owner h);
        mine =
            All-append (λ a. lookup a (put alias me owners) ≡ some me) mine (alias ∷ [])
              (All-imp _ _ mine (λ a h. put_free alias me a me owners free h) c.mine)
              (put_own alias me owners, tt);
      }))
  | inr (owner, taken) ↦ elim (Bool-cases (str_eq owner me)) [
    | inl same ↦ rw (taken, same) (Ensures-ok _ _ c)
    | inr other ↦ rw (taken, other) (Ensures-failed _ _)
  ]
]

claim_aliases-Claimed :
    (me : Bytes) (old : StrMap Bytes) (claims : Claims) (aliases : List Bytes)
    → Claimed me old claims
    → Ensures (Claimed me old) (claim_aliases me claims aliases)
unfolding claim_aliases claim_alias
claim_aliases-Claimed me old claims [] c = Ensures-ok _ claims c
claim_aliases-Claimed me old claims (alias ∷ aliases) c =
    Ensures->>= (Claimed me old) _ _ _
      (Ensures-refuse _ _ _ _ (λ _. claim_free-Claimed me (to_lower alias) old claims c))
      (λ next d. claim_aliases-Claimed me old next aliases d)

-- The builder knows the owner of every alias of its distributions.
unfoldable pub Owned : Builder → Type 0
Owned b =
    (d : Distribution)
    → Memᴰ d b.cfg.distributions
    → All (λ a. lookup a b.alias_owner ≡ some d.logical_id) d.aliases

module _ (fl : FloatOps) (sum : Bytes → Bytes) where
  Owned-add_to :
      (b : Builder) (owners : StrMap Bytes) (d : Distribution)
      → Owned b
      → Extends b.alias_owner owners
      → All (λ a. lookup a owners ≡ some d.logical_id) d.aliases
      → Owned (add_to fl sum b owners d)
  unfolding Owned
  Owned-add_to b owners d h extends mine e m = elim (Memᴰ.append_cases b.cfg.distributions m) [
    | inl old ↦ All-imp _ _ e.aliases (λ a. extends a e.logical_id) (h e old)
    | inr new ↦ own e new
  ]
    where
      own :
          (e : Distribution)
          → Memᴰ e (d ∷ [])
          → All (λ a. lookup a owners ≡ some e.logical_id) e.aliases
      own e (Memᴰ.head p) =
          subst (λ (q : Distribution). All (λ a. lookup a owners ≡ some q.logical_id) q.aliases)
            (sym p) mine
      own e (Memᴰ.tail m) = absurd (Memᴰ.not-nil m)

  pub build_distribution-Owned :
      (b : Builder) (me : Bytes) (c : DistributionConfigProps fl)
      → Owned b
      → Ensures Owned (build_distribution fl sum b me c)
  unfolding build_distribution
  build_distribution-Owned b me c h =
      Ensures->> (λ _. Unit) _ _ _ (Ensures-any _)
        (λ _.
          Ensures->>= (Claimed me b.alias_owner) _ _ _
            (claim_aliases-Claimed me b.alias_owner (b.alias_owner, []) (c.aliases ++ c.cnames)
              (record { extends = λ k owner e. e; mine = tt }))
            (λ claims k. Ensures-refuse _ _ _ _ (λ _.
              Ensures->>= (λ _. Unit) _ _ _ (Ensures-any _)
                (λ origins _.
                  Ensures->>= (λ _. Unit) _ _ _ (Ensures-any _)
                    (λ default_behavior _.
                      Ensures->>= (λ _. Unit) _ _ _ (Ensures-any _)
                        (λ behaviors _.
                          Ensures->>= (λ _. Unit) _ _ _ (Ensures-any _)
                            (λ ers _.
                              Ensures-ok _ _ (Owned-add_to b claims.0 _ h k.extends k.mine))))))))
