-- ===== src/Text/Parts.antt =====
-- Splitting a text, keeping some of its parts and joining them again.
use localfront.Base.{
  ℕ, ◌≡◌, ◌≢◌, refl, sym, ap, ◌∙◌, inl, inr, true, false, Bool, List, [], ◌∷◌, if◌then◌else◌,
  Bool-cases, All, filter,
}
use localfront.Text.{Bytes, is_empty, split, join}
use localfront.Text.Split.{Lacks, split-join, split-Lacks, All-filter}

pub eq-nil_of_is_empty : (s : Bytes) → is_empty s ≡ true → s ≡ []
eq-nil_of_is_empty [] h = refl
eq-nil_of_is_empty (c ∷ s) h = cc

module _ (sep : ℕ) (keep : Bytes → Bool) where
  unfoldable pub keep_parts : Bytes → Bytes
  keep_parts s = if is_empty s then [] else join (filter keep (split s sep)) (sep ∷ [])

  split-join-filter :
      (s : Bytes)
      → filter keep (split s sep) ≢ []
      → split (join (filter keep (split s sep)) (sep ∷ [])) sep ≡ filter keep (split s sep)
  split-join-filter s h =
      split-join (filter keep (split s sep)) sep h
        (All-filter (Lacks sep) keep _ (split-Lacks s sep))

  keep_parts_empty : (s : Bytes) → is_empty s ≡ true → keep_parts s ≡ []
  unfolding keep_parts
  keep_parts_empty s t = rw t

  keep_parts_nonempty :
      (s : Bytes) → is_empty s ≡ false → keep_parts s ≡ join (filter keep (split s sep)) (sep ∷ [])
  unfolding keep_parts
  keep_parts_nonempty s t = rw t

  split-nil : split [] sep ≡ [] ∷ []
  unfolding split
  split-nil = refl

  -- The parts behind the filter are the kept ones, in order, if an empty part is not kept.
  pub split-keep_parts :
      (s : Bytes)
      → keep [] ≡ false
      → filter keep (split s sep) ≢ []
      → split (keep_parts s) sep ≡ filter keep (split s sep)
  split-keep_parts s blank h = elim (Bool-cases (is_empty s)) [
    | inl t ↦ absurd (h (rw (eq-nil_of_is_empty s t, split-nil, blank)))
    | inr t ↦ rw (keep_parts_nonempty s t) (split-join-filter s h)
  ]

  join-nil : join [] (sep ∷ []) ≡ []
  unfolding join
  join-nil = refl

  -- On parts that were joined, the filter works part by part.
  pub keep_parts-join :
      (ps : List Bytes)
      → keep [] ≡ false
      → ps ≢ []
      → All (Lacks sep) ps
      → keep_parts (join ps (sep ∷ [])) ≡ join (filter keep ps) (sep ∷ [])
  keep_parts-join ps blank some_part h = elim (Bool-cases (is_empty (join ps (sep ∷ [])))) [
    | inl t ↦
        let e : ps ≡ [] ∷ [] =
          sym (split-join ps sep some_part h)
          ∙ ap (λ s. split s sep) (eq-nil_of_is_empty _ t)
          ∙ split-nil in
        rw (keep_parts_empty _ t) (rw (e, blank) (sym join-nil))
    | inr t ↦ rw (keep_parts_nonempty _ t) (rw (split-join ps sep some_part h))
  ]
