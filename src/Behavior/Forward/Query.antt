-- ===== src/Behavior/Forward/Query.antt =====
-- `filterQuery` (internal/behavior/forward.go) against the parts of a query string.
use mathlib.Core.List.{Memᴰ}
use mathlib.Core.List.Memᴰ
use localfront.Base.{
  ◌≡◌, ◌≢◌, refl, sym, ◌∙◌, ◌↔◌, inl, inr, true, false, Bool, not, ◌||◌, List, [], ◌∷◌, any, Option,
  none, some, filter, arith, Bool-cases,
}
use localfront.Text.{Bytes, codes, str_eq, split, text_ops}
use localfront.Text.Laws.{str_eq_iff, eq_of_str_eq}
use localfront.Text.Parts.{keep_parts, split-keep_parts}
use localfront.Config.{ListSelection, CachePolicy, OriginRequestPolicy, selection_contains}
use localfront.Behavior.Forward.{
  on, list_selected, query_selected, decoded_key, keeps_param, filter_query,
}

-- The names that a list of a policy selects: all, the listed ones, or all but these.
pub data Selects (sel : ListSelection) (name : Bytes) : Type 0 where
  all : sel.behavior ≡ codes "all" → Selects sel name
  listed : sel.behavior ≡ codes "whitelist" → Memᴰ name sel.items → Selects sel name
  not_listed : sel.behavior ≡ codes "allExcept" → ¬ Memᴰ name sel.items → Selects sel name

-- A parameter of a name reaches the origin if one of the two policies selects it.
pub data SelectedBy (cache : Option CachePolicy) (orp : Option OriginRequestPolicy) (name : Bytes)
    : Type 0 where
  by_cache_policy :
      (p : CachePolicy) → cache ≡ some p → Selects p.query_strings name → SelectedBy cache orp name
  by_origin_request_policy :
      (p : OriginRequestPolicy)
      → orp ≡ some p
      → Selects p.query_strings name
      → SelectedBy cache orp name

has_iff :
    (name : Bytes) (items : List Bytes) → (any (λ i. str_eq i name) items ≡ true) ↔ Memᴰ name items
has_iff name items = (to items, from items)
  where
    to : (items : List Bytes) → any (λ i. str_eq i name) items ≡ true → Memᴰ name items
    to [] h = absurd (cc)
    to (i ∷ is) h = elim (Bool-cases (str_eq i name)) [
      | inl e ↦ Memᴰ.head (sym (eq_of_str_eq i name e))
      | inr e ↦ Memᴰ.tail (to is (ground arith))
    ]

    from : (items : List Bytes) → Memᴰ name items → any (λ i. str_eq i name) items ≡ true
    from [] m = absurd (Memᴰ.not-nil m)
    from (i ∷ is) (Memᴰ.head p) = let e = (str_eq_iff i name).1 (sym p) in ground arith
    from (i ∷ is) (Memᴰ.tail m) = let later = from is m in ground arith

list_selected-Selects :
    (sel : ListSelection) (name : Bytes) → list_selected sel name ≡ true → Selects sel name
unfolding list_selected selection_contains
list_selected-Selects sel name h = elim (Bool-cases (str_eq sel.behavior (codes "all"))) [
  | inl e ↦ all (eq_of_str_eq _ _ e)
  | inr no_all ↦ elim (Bool-cases (str_eq sel.behavior (codes "whitelist"))) [
    | inl e ↦ listed (eq_of_str_eq _ _ e) ((has_iff name sel.items).0 (ground arith))
    | inr no_list ↦ elim (Bool-cases (str_eq sel.behavior (codes "allExcept"))) [
      | inl e ↦
          not_listed (eq_of_str_eq _ _ e)
            (λ m. let found = (has_iff name sel.items).1 m in absurd (ground arith))
      | inr none_of_them ↦ absurd (ground arith)
    ]
  ]
]

Selects-list_selected :
    (sel : ListSelection) (name : Bytes) → Selects sel name → list_selected sel name ≡ true
unfolding list_selected selection_contains text_ops
Selects-list_selected sel name (all e) = rw e
Selects-list_selected sel name (listed e m) = rw e ((has_iff name sel.items).1 m)
Selects-list_selected sel name (not_listed e n) =
    rw e (not_true _ (λ h. n ((has_iff name sel.items).0 h)))
  where
    not_true : (b : Bool) → b ≢ true → not b ≡ true
    not_true true h = absurd (h refl)
    not_true false h = refl

module _ (cache : Option CachePolicy) (orp : Option OriginRequestPolicy) where
  query_selected_iff :
      (name : Bytes) → (query_selected cache orp name ≡ true) ↔ SelectedBy cache orp name
  unfolding query_selected
  query_selected_iff name = (to cache orp, from)
    where
      to :
          (c : Option CachePolicy) (p : Option OriginRequestPolicy)
          → query_selected c p name ≡ true
          → SelectedBy c p name
      to none none h = absurd (cc)
      to none (some p) h = by_origin_request_policy p refl (list_selected-Selects _ name h)
      to (some c) p h = elim (Bool-cases (list_selected c.query_strings name)) [
        | inl e ↦ by_cache_policy c refl (list_selected-Selects _ name e)
        | inr e ↦ by_other c p e h
      ]
        where
          by_other :
              (c : CachePolicy) (p : Option OriginRequestPolicy)
              → list_selected c.query_strings name ≡ false
              → (list_selected c.query_strings name
                  || on p (λ q. list_selected q.query_strings name))
                ≡ true
              → SelectedBy (some c) p name
          by_other c none e h = absurd (ground arith)
          by_other c (some q) e h =
              by_origin_request_policy q refl (list_selected-Selects _ name (ground arith))

      from : SelectedBy cache orp name → query_selected cache orp name ≡ true
      from (by_cache_policy p e h) =
          let selected = Selects-list_selected _ name h in rw e (ground arith)
      from (by_origin_request_policy p e h) =
          let selected = Selects-list_selected _ name h in rw e (ground arith)

  -- A parameter that is not empty, and whose decoded name a policy selects.
  abbrev pub IsForwarded : Bytes → Type 0
  IsForwarded param = (param ≢ []) × SelectedBy cache orp (decoded_key param)

  pub keeps_param_iff : (param : Bytes) → (keeps_param cache orp param ≡ true) ↔ IsForwarded param
  unfolding keeps_param
  keeps_param_iff param = (to param, from param)
    where
      to : (param : Bytes) → keeps_param cache orp param ≡ true → IsForwarded param
      to [] h = absurd (cc)
      to (c ∷ s) h = (cc, (query_selected_iff _).0 h)

      from : (param : Bytes) → IsForwarded param → keeps_param cache orp param ≡ true
      from [] (n, _) = absurd (n refl)
      from (c ∷ s) (_, h) = (query_selected_iff _).1 h

  same_bool : (a b : Bool) → (a ≡ true → b ≡ true) → (b ≡ true → a ≡ true) → a ≡ b
  same_bool true b f g = sym (f refl)
  same_bool false true f g = g refl
  same_bool false false f g = refl

  filter_same :
      (keep : Bytes → Bool)
      → ((param : Bytes) → (keep param ≡ true) ↔ IsForwarded param)
      → (params : List Bytes) → filter (keeps_param cache orp) params ≡ filter keep params
  filter_same keep is [] = refl
  filter_same keep is (p ∷ params) =
      let e : keeps_param cache orp p ≡ keep p =
        same_bool _ _ (λ h. (is p).1 ((keeps_param_iff p).0 h))
          (λ h. (keeps_param_iff p).1 ((is p).0 h)) in
      ground (arith, filter_same keep is params)

  filter_query-keep_parts :
      (q : Bytes) → filter_query cache orp q ≡ keep_parts b'&' (keeps_param cache orp) q
  unfolding filter_query keep_parts
  filter_query-keep_parts q = refl

  keeps_param-nil : keeps_param cache orp [] ≡ false
  unfolding keeps_param
  keeps_param-nil = refl

  -- The parameters that reach the origin are, in the viewer's order and encoding, the viewer's
  -- parameters that are not empty and whose decoded name the cache policy or the origin
  -- request policy selects (all names, the listed names, or all but the listed names), if
  -- there is one: `keep` is any test of that.
  pub split-filter_query :
      (keep : Bytes → Bool)
      → ((param : Bytes) → (keep param ≡ true) ↔ IsForwarded param)
      → (q : Bytes) → filter keep (split q b'&') ≢ []
      → split (filter_query cache orp q) b'&' ≡ filter keep (split q b'&')
  split-filter_query keep is q h =
      let e = filter_same keep is (split q b'&') in
      rw filter_query-keep_parts
        (split-keep_parts b'&' (keeps_param cache orp) q keeps_param-nil (λ n. h (sym e ∙ n)) ∙ e)
