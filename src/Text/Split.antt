-- ===== src/Text/Split.antt =====
-- Splitting and joining.
use localfront.Base.{
  none, some, length, take-length_append, ℕ, ◌≡◌, ◌≢◌, refl, ap, ◌∙◌, Bool, List, [], ◌∷◌, ◌++◌,
  arith, some, length, take-length_append, ◌==◌, Bool-cases, inl, inr, All, filter,
}
use localfront.Text.{Bytes, push_first, split, join, index_byte, before_byte}

abbrev pub Lacks : ℕ → Bytes → Type 0
Lacks b = All (λ c. c ≢ b)

pub split-ne-nil : (s : Bytes) (sep : ℕ) → split s sep ≢ []
unfolding split
split-ne-nil [] sep = cc
split-ne-nil (c ∷ s) sep = elim (Bool-cases (c == sep)) [
  | inl e ↦ rw e (cc)
  | inr e ↦ rw e (push_first-ne-nil (split s sep))
]
  where
    push_first-ne-nil : (ps : List Bytes) → push_first c ps ≢ []
    push_first-ne-nil [] = cc
    push_first-ne-nil (p ∷ ps) = cc

All-push_first :
    (sep c : ℕ) (ps : List Bytes) → c ≢ sep → All (Lacks sep) ps → All (Lacks sep) (push_first c ps)
unfolding push_first
All-push_first sep c [] h k = ((h, tt), tt)
All-push_first sep c (p ∷ ps) h (k, ks) = ((h, k), ks)

-- No part of a split holds the separator.
pub split-Lacks : (s : Bytes) (sep : ℕ) → All (Lacks sep) (split s sep)
unfolding split
split-Lacks [] sep = (tt, tt)
split-Lacks (c ∷ s) sep = elim (Bool-cases (c == sep)) [
  | inl e ↦ rw e (tt, split-Lacks s sep)
  | inr e ↦ rw e (All-push_first sep c (split s sep) (ground arith) (split-Lacks s sep))
]

split-no_sep : (p : Bytes) (sep : ℕ) → Lacks sep p → split p sep ≡ p ∷ []
unfolding split
split-no_sep [] sep _ = refl
split-no_sep (c ∷ p) sep (h, k) = ground (arith, split-no_sep p sep k)

split-append :
    (p : Bytes) (sep : ℕ) (rest : Bytes)
    → Lacks sep p
    → split (p ++ (sep ∷ rest)) sep ≡ p ∷ split rest sep
unfolding split
split-append [] sep rest _ = ground arith
split-append (c ∷ p) sep rest (h, k) = ground (arith, split-append p sep rest k)

-- Splitting a join gives the parts back, if there is a part and none holds the separator.
pub split-join :
    (ps : List Bytes) (sep : ℕ) → ps ≢ [] → All (Lacks sep) ps → split (join ps (sep ∷ [])) sep ≡ ps
unfolding join
split-join [] sep h _ = absurd (h refl)
split-join (p ∷ []) sep _ (h, _) = split-no_sep p sep h
split-join (p ∷ q ∷ ps) sep _ (h, hs) =
    split-append p sep (join (q ∷ ps) (sep ∷ [])) h
    ∙ ap (λ r. p ∷ r) (split-join (q ∷ ps) sep (cc) hs)

pub All-filter :
    (P : Bytes → Type 0) (keep : Bytes → Bool) (ps : List Bytes) → All P ps → All P (filter keep ps)
All-filter P keep [] _ = tt
All-filter P keep (p ∷ ps) (h, hs) = elim (Bool-cases (keep p)) [
  | inl e ↦ rw e (h, All-filter P keep ps hs)
  | inr e ↦ rw e (All-filter P keep ps hs)
]

index_byte-append :
    (p : Bytes) (b : ℕ) (s : Bytes) → Lacks b p → index_byte (p ++ (b ∷ s)) b ≡ some (length p)
unfolding index_byte
index_byte-append [] b s _ = ground arith
index_byte-append (c ∷ p) b s (h, k) = ground (arith, index_byte-append p b s k)

-- What stands before the first `b`.
pub before_byte-append :
    (p : Bytes) (b : ℕ) (s : Bytes) → Lacks b p → before_byte (p ++ (b ∷ s)) b ≡ p
unfolding before_byte
before_byte-append p b s h =
    rw (index_byte-append p b s h, before_byte) (take-length_append p (b ∷ s))

index_byte-Lacks : (p : Bytes) (b : ℕ) → Lacks b p → index_byte p b ≡ none
unfolding index_byte
index_byte-Lacks [] b _ = refl
index_byte-Lacks (c ∷ p) b (h, k) = ground (arith, index_byte-Lacks p b k)

pub before_byte-Lacks : (p : Bytes) (b : ℕ) → Lacks b p → before_byte p b ≡ p
unfolding before_byte
before_byte-Lacks p b h = rw (index_byte-Lacks p b h, before_byte)
