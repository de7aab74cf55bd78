-- ===== src/Text.antt =====
-- Go strings as lists of bytes, and the functions of the standard package `strings` that
-- localfront calls. Letters are the ASCII ones: the texts that are folded here (host names, header
-- names, encodings, media types) are ASCII.
pub mod Laws
pub mod Split
pub mod Parts
pub mod Map
pub mod Sort
pub mod Trim
use Prim.Native.Char.{code}
use Prim.Native.String.{String}
use localfront.Base.{
  ℕ, zero, suc, ◌+◌, ◌-◌, Bool, true, false, ◌&&◌, ◌||◌, List, [], ◌∷◌, ◌++◌, map, reverse, Option,
  none, some, ltb, leb, ◌==◌, if◌then◌else◌, take,
}

abbrev pub Bytes : Type 0
Bytes = List ℕ

-- The bytes of an ASCII literal.
abbrev pub codes : String → Bytes
codes String.[] = []
codes (String.◌∷◌ c s) = code c ∷ codes s

-- `a == b` on strings
unfoldable pub str_eq : Bytes → Bytes → Bool
str_eq [] [] = true
str_eq [] (_ ∷ _) = false
str_eq (_ ∷ _) [] = false
str_eq (x ∷ xs) (y ∷ ys) = x == y && str_eq xs ys

-- `s == ""`
abbrev pub is_empty : Bytes → Bool
is_empty [] = true
is_empty (_ ∷ _) = false

unfoldable pub lower_byte : ℕ → ℕ
lower_byte c = if leb b'A' c && leb c b'Z' then c + 32 else c

unfoldable pub upper_byte : ℕ → ℕ
upper_byte c = if leb b'a' c && leb c b'z' then c - 32 else c

-- `strings.ToLower`
unfoldable pub to_lower : Bytes → Bytes
to_lower s = map lower_byte s

-- `strings.ToUpper`
unfoldable pub to_upper : Bytes → Bytes
to_upper s = map upper_byte s

-- `strings.EqualFold`
unfoldable pub equal_fold : Bytes → Bytes → Bool
equal_fold s t = str_eq (to_lower s) (to_lower t)

-- `strings.HasPrefix`
unfoldable pub has_prefix : Bytes → Bytes → Bool
has_prefix s [] = true
has_prefix [] (_ ∷ _) = false
has_prefix (c ∷ s) (p ∷ pre) = c == p && has_prefix s pre

-- `strings.CutPrefix`: `none` is `ok == false`.
unfoldable pub cut_prefix : Bytes → Bytes → Option Bytes
cut_prefix s [] = some s
cut_prefix [] (_ ∷ _) = none
cut_prefix (c ∷ s) (p ∷ pre) = if c == p then cut_prefix s pre else none

-- `strings.TrimPrefix`
unfoldable pub trim_prefix : Bytes → Bytes → Bytes
unfolding cut_prefix
trim_prefix s pre = elim (cut_prefix s pre) [ none ↦ s | some t ↦ t ]

-- `strings.CutSuffix`
unfoldable pub cut_suffix : Bytes → Bytes → Option Bytes
cut_suffix s suf = elim (cut_prefix (reverse s) (reverse suf)) [
  | none ↦ none
  | some t ↦ some (reverse t)
]

-- `strings.IndexByte`: `none` is a negative result.
unfoldable pub index_byte : Bytes → ℕ → Option ℕ
index_byte [] b = none
index_byte (c ∷ s) b =
    if c == b then some 0 else elim (index_byte s b) [ none ↦ none | some i ↦ some (i + 1) ]

-- `if i := strings.IndexByte(s, b); i >= 0 { s = s[:i] }`
unfoldable pub before_byte : Bytes → ℕ → Bytes
before_byte s b = elim (index_byte s b) [ none ↦ s | some i ↦ take i s ]

-- `strings.Cut(s, b)[1]`: what follows the first `b`
unfoldable pub after_byte : Bytes → ℕ → Bytes
after_byte [] b = []
after_byte (c ∷ s) b = if c == b then s else after_byte s b

-- `strings.Contains`
unfoldable pub contains : Bytes → Bytes → Bool
contains [] sub = has_prefix [] sub
contains (c ∷ s) sub = has_prefix (c ∷ s) sub || contains s sub

-- ASCII white space: tab, newline, vertical tab, form feed, carriage return, space.
unfoldable pub is_space : ℕ → Bool
is_space c = leb 9 c && leb c 13 || c == 32

-- the white space of Unicode that takes two bytes, and that which takes three
abbrev is_space2 : ℕ → ℕ → Bool
is_space2 c d = c == 0xc2 && (d == 0x85 || d == 0xa0)

abbrev is_space3 : ℕ → ℕ → ℕ → Bool
is_space3 c d e =
    c == 0xe1 && d == 0x9a && e == 0x80
    || c == 0xe2 && d == 0x80 && (leb 0x80 e && leb e 0x8a || e == 0xa8 || e == 0xa9 || e == 0xaf)
    || c == 0xe2 && d == 0x81 && e == 0x9f
    || c == 0xe3 && d == 0x80 && e == 0x80

abbrev wide_width : ℕ → Bytes → ℕ
wide_width c [] = 0
wide_width c (d ∷ []) = if is_space2 c d then 2 else 0
wide_width c (d ∷ e ∷ s) = if is_space2 c d then 2 else if is_space3 c d e then 3 else 0

-- The number of bytes of the white space that a text begins with.
unfoldable pub space_width : Bytes → ℕ
space_width [] = 0
space_width (c ∷ s) = if is_space c then 1 else wide_width c s

abbrev wide_back_width : ℕ → Bytes → ℕ
wide_back_width e [] = 0
wide_back_width e (d ∷ []) = if is_space2 d e then 2 else 0
wide_back_width e (d ∷ c ∷ s) = if is_space2 d e then 2 else if is_space3 c d e then 3 else 0

-- The same at the end of a text that is given backwards.
unfoldable pub space_back_width : Bytes → ℕ
space_back_width [] = 0
space_back_width (e ∷ s) = if is_space e then 1 else wide_back_width e s

-- What is left behind `k` bytes and then all white space, of which `width` tells the bytes.
unfoldable pub skip_space : (Bytes → ℕ) → ℕ → Bytes → Bytes
skip_space width k [] = []
skip_space width (suc k) (c ∷ s) = skip_space width k s
skip_space width zero (c ∷ s) =
    let rest = skip_space width (width (c ∷ s) - 1) s in if width (c ∷ s) == 0 then c ∷ s else rest

unfoldable pub trim_space : Bytes → Bytes
trim_space s = reverse (skip_space space_back_width 0 (reverse (skip_space space_width 0 s)))

push_first : ℕ → List Bytes → List Bytes
push_first c [] = (c ∷ []) ∷ []
push_first c (p ∷ ps) = (c ∷ p) ∷ ps

-- `strings.Split` at a separator of one byte
unfoldable pub split : Bytes → ℕ → List Bytes
unfolding push_first
split [] sep = [] ∷ []
split (c ∷ s) sep = if c == sep then [] ∷ split s sep else push_first c (split s sep)

-- `strings.Join`
unfoldable pub join : List Bytes → Bytes → Bytes
join [] sep = []
join (p ∷ []) sep = p
join (p ∷ q ∷ ps) sep = p ++ (sep ++ join (q ∷ ps) sep)

-- Named on the `unfolding` line of a test, it opens the functions above.
unfoldable pub text_ops : Unit {0}
unfolding str_eq lower_byte upper_byte to_lower to_upper equal_fold has_prefix cut_prefix
    trim_prefix cut_suffix index_byte before_byte after_byte contains is_space space_width
    space_back_width skip_space trim_space split join
text_ops = tt
