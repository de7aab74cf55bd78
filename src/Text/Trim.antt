-- ===== src/Text/Trim.antt =====
-- Trimming, and what follows a byte.
use mathlib.Core.List.{reverse-cons, reverse-reverse}
use localfront.Base.{
  ℕ, ◌≡◌, refl, Bool, true, not, ◌&&◌, ltb, [], ◌∷◌, ◌++◌, reverse, arith, All, All-append,
}
use localfront.Text.{
  Bytes, is_space, space_width, space_back_width, skip_space, trim_space, after_byte,
}
use localfront.Text.Split.{Lacks}

-- A byte of ASCII that is no white space.
abbrev pub is_solid : ℕ → Bool
is_solid c = ltb c 128 && not (is_space c)

-- A text in ASCII without white space.
abbrev pub Solid : Bytes → Type 0
Solid = All (λ c. is_solid c ≡ true)

Solid-reverse : (s : Bytes) → Solid s → Solid (reverse s)
Solid-reverse [] _ = tt
Solid-reverse (c ∷ s) (h, hs) =
    rw (reverse-cons c s)
      (All-append (λ d. is_solid d ≡ true) (reverse s) (c ∷ []) (Solid-reverse s hs) (h, tt))

space_width-Solid : (c : ℕ) (s : Bytes) → is_solid c ≡ true → space_width (c ∷ s) ≡ 0
unfolding space_width
space_width-Solid c [] h = ground arith
space_width-Solid c (d ∷ []) h = ground arith
space_width-Solid c (d ∷ e ∷ s) h = ground arith

space_back_width-Solid : (e : ℕ) (s : Bytes) → is_solid e ≡ true → space_back_width (e ∷ s) ≡ 0
unfolding space_back_width
space_back_width-Solid e [] h = ground arith
space_back_width-Solid e (d ∷ []) h = ground arith
space_back_width-Solid e (d ∷ c ∷ s) h = ground arith

skip_space-Solid :
    (width : Bytes → ℕ) (s : Bytes)
    → ((c : ℕ) (t : Bytes) → is_solid c ≡ true → width (c ∷ t) ≡ 0)
    → Solid s
    → skip_space width 0 s ≡ s
unfolding skip_space
skip_space-Solid width [] w _ = refl
skip_space-Solid width (c ∷ s) w (h, _) = rw (w c s h)

pub trim_space-Solid : (s : Bytes) → Solid s → trim_space s ≡ s
unfolding trim_space
trim_space-Solid s h =
    rw
      (
        skip_space-Solid space_width s space_width-Solid h,
        skip_space-Solid space_back_width (reverse s) space_back_width-Solid (Solid-reverse s h),
      )
      (reverse-reverse s)

-- A space in front is trimmed.
pub trim_space-space : (s : Bytes) → trim_space (b' ' ∷ s) ≡ trim_space s
unfolding trim_space skip_space space_width is_space
trim_space-space s = refl

pub after_byte-append :
    (p : Bytes) (b : ℕ) (s : Bytes) → Lacks b p → after_byte (p ++ (b ∷ s)) b ≡ s
unfolding after_byte
after_byte-append [] b s _ = ground arith
after_byte-append (c ∷ p) b s (h, k) = ground (arith, after_byte-append p b s k)

pub after_byte-Lacks : (p : Bytes) (b : ℕ) → Lacks b p → after_byte p b ≡ []
unfolding after_byte
after_byte-Lacks [] b _ = refl
after_byte-Lacks (c ∷ p) b (h, k) = ground (arith, after_byte-Lacks p b k)
