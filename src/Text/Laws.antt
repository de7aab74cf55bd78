-- ===== src/Text/Laws.antt =====
-- Equality, folding and prefixes of byte strings.
use localfront.Base.{ℕ, ◌≡◌, refl, sym, ap₂, ◌↔◌, true, [], ◌∷◌, ◌++◌, some, arith, Bool_ext}
use localfront.Text.{Bytes, str_eq, lower_byte, to_lower, equal_fold, cut_prefix}

pub str_eq_refl : (s : Bytes) → str_eq s s ≡ true
unfolding str_eq
str_eq_refl [] = refl
str_eq_refl (c ∷ s) = ground (arith, str_eq_refl s)

pub eq_of_str_eq : (s t : Bytes) → str_eq s t ≡ true → s ≡ t
unfolding str_eq
eq_of_str_eq [] [] h = refl
eq_of_str_eq [] (_ ∷ _) h = cc
eq_of_str_eq (_ ∷ _) [] h = cc
eq_of_str_eq (c ∷ s) (d ∷ t) h = ground (arith, eq_of_str_eq s t)

pub str_eq_iff : (s t : Bytes) → (str_eq s t ≡ true) ↔ (s ≡ t)
str_eq_iff s t = (eq_of_str_eq s t, λ e. rw e (str_eq_refl t))

pub str_eq_sym : (s t : Bytes) → str_eq s t ≡ str_eq t s
str_eq_sym s t =
    Bool_ext _ _ (λ h. (str_eq_iff t s).1 (sym ((str_eq_iff s t).0 h)))
      (λ h. (str_eq_iff s t).1 (sym ((str_eq_iff t s).0 h)))

pub lower_byte_idem : (c : ℕ) → lower_byte (lower_byte c) ≡ lower_byte c
unfolding lower_byte
lower_byte_idem c = ground arith

pub to_lower_idem : (s : Bytes) → to_lower (to_lower s) ≡ to_lower s
unfolding to_lower
to_lower_idem [] = refl
to_lower_idem (c ∷ s) = ap₂ ◌∷◌ (lower_byte_idem c) (to_lower_idem s)

pub equal_fold_iff : (s t : Bytes) → (equal_fold s t ≡ true) ↔ (to_lower s ≡ to_lower t)
unfolding equal_fold
equal_fold_iff s t = str_eq_iff (to_lower s) (to_lower t)

pub equal_fold_refl : (s : Bytes) → equal_fold s s ≡ true
equal_fold_refl s = (equal_fold_iff s s).1 refl

-- `CutPrefix` succeeds exactly on texts that begin with the prefix, and gives the rest.
pub cut_prefix-append : (pre s : Bytes) → cut_prefix (pre ++ s) pre ≡ some s
unfolding cut_prefix
cut_prefix-append [] s = refl
cut_prefix-append (c ∷ pre) s = ground (arith, cut_prefix-append pre s)

pub cut_prefix-eq-some : (s pre t : Bytes) → cut_prefix s pre ≡ some t → s ≡ pre ++ t
unfolding cut_prefix
cut_prefix-eq-some s [] t h = ground arith
cut_prefix-eq-some [] (_ ∷ _) t h = cc
cut_prefix-eq-some (c ∷ s) (d ∷ pre) t h = ground (arith, cut_prefix-eq-some s pre t)
