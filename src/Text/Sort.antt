-- ===== src/Text/Sort.antt =====
-- `sort.Strings`, and the keys of a map in that order.
use localfront.Base.{
  ◌≡◌, refl, Bool, true, false, ◌&&◌, ◌||◌, List, [], ◌∷◌, Option, none, some, arith, ltb, ◌==◌,
  if◌then◌else◌, any,
}
use localfront.Text.{Bytes, str_eq}
use localfront.Text.Map.{StrMap, lookup}

-- `a <= b` on strings
unfoldable pub str_leb : Bytes → Bytes → Bool
str_leb [] b = true
str_leb (x ∷ a) [] = false
str_leb (x ∷ a) (y ∷ b) = ltb x y || x == y && str_leb a b

unfoldable pub insert_sorted : Bytes → List Bytes → List Bytes
insert_sorted s [] = s ∷ []
insert_sorted s (t ∷ ts) = if str_leb s t then s ∷ t ∷ ts else t ∷ insert_sorted s ts

-- `sort.Strings`
unfoldable pub sort_strings : List Bytes → List Bytes
sort_strings [] = []
sort_strings (s ∷ ss) = insert_sorted s (sort_strings ss)

-- whether `s` is one of `ss`
abbrev pub has : Bytes → List Bytes → Bool
has s ss = any (λ t. str_eq t s) ss

has-insert_sorted :
    (s t : Bytes) (ss : List Bytes) → has s (insert_sorted t ss) ≡ (str_eq t s || has s ss)
unfolding insert_sorted
has-insert_sorted s t [] = refl
has-insert_sorted s t (u ∷ ss) = ground (arith, has-insert_sorted s t ss)

pub has-sort_strings : (s : Bytes) (ss : List Bytes) → has s (sort_strings ss) ≡ has s ss
unfolding sort_strings
has-sort_strings s [] = refl
has-sort_strings s (t ∷ ss) =
    ground (arith, has-insert_sorted s t (sort_strings ss), has-sort_strings s ss)

module _ {ℓ} {V : Type ℓ} where
  -- `for k := range m { keys = append(keys, k) }`
  unfoldable pub keys_of : StrMap V → List Bytes
  keys_of [] = []
  keys_of ((k, v) ∷ m) = k ∷ keys_of m

  -- `m[key]` of a key that the map may lack, with the zero value of the type
  abbrev pub or_zero : V → Option V → V
  or_zero zero_value none = zero_value
  or_zero zero_value (some v) = v

  pub has-keys_of :
      (k : Bytes) (m : StrMap V)
      → has k (keys_of m) ≡ elim (lookup k m) [ none ↦ false | some _ ↦ true ]
  unfolding keys_of lookup
  has-keys_of k [] = refl
  has-keys_of k ((j, v) ∷ m) = ground (arith, has-keys_of k m)
