-- ===== src/Glob/Sound.antt =====
-- `matchGlob` (internal/behavior/behavior.go): the positive answers of the loop.
use localfront.Base.{
  ℕ, zero, suc, ◌≡◌, refl, ◌⊎◌, inl, inr, true, Bool, ◌||◌, [], ◌∷◌, Option, none, some, arith,
  ◌==◌, Bool-cases, drop,
}
use localfront.Text.{Bytes}
use localfront.Glob.{star, question, Back, retry, glob_loop}
use localfront.Glob.Pattern.{Matches, skip, take, only_stars_iff, Matches-byte}

module _ (G : Type 0) where
  -- From the saved star position on, a match answers the question asked at the start.
  abbrev Resumes : Back → Type 0
  Resumes none = Unit
  Resumes (some (bp, bs)) = Matches (star ∷ bp) bs → G

  Resumes-drop : (bp bs : Bytes) → Resumes (some (bp, bs)) → Matches (star ∷ bp) (drop 1 bs) → G
  Resumes-drop bp [] h m = h m
  Resumes-drop bp (c ∷ bs) h m = h (take refl m)

  byte_test : (q c : ℕ) → (q == question || q == c) ≡ true → (q ≡ question) ⊎ (q ≡ c)
  byte_test q c h = ground arith

  retry_sound :
      (next : Bytes → Bytes → Back → Option Bool)
      → ((p s : Bytes) (b : Back) → (Matches p s → G) → Resumes b → next p s b ≡ some true → G)
      → (back : Back) → Resumes back
      → retry back next ≡ some true
      → G
  unfolding retry
  retry_sound next ih none saved e = cc
  retry_sound next ih (some (bp, bs)) saved e =
      let h = Resumes-drop bp bs saved in ih bp (drop 1 bs) _ (λ m. h (skip refl m)) h e

  star_first : (q : ℕ) (p s : Bytes) → q ≡ star → (Matches (q ∷ p) s → G) → Matches (star ∷ p) s → G
  star_first q p s h k m = k (rw h m)

  pub glob_loop_sound :
      (f : ℕ) (p s : Bytes) (back : Back)
      → (Matches p s → G)
      → Resumes back
      → glob_loop f p s back ≡ some true
      → G
  unfolding glob_loop
  glob_loop_sound zero p s back now saved e = cc
  glob_loop_sound (suc f) p [] back now saved e = now ((only_stars_iff p).0 (ground arith))
  glob_loop_sound (suc f) [] (c ∷ s) back now saved e =
      retry_sound (glob_loop f) (glob_loop_sound f) back saved e
  glob_loop_sound (suc f) (q ∷ p) (c ∷ s) back now saved e =
      elim (Bool-cases (q == question || q == c)) [
        | inl t ↦
            glob_loop_sound f p s back (λ m. now (Matches-byte (byte_test q c t) m)) saved
              (rw t at e)
        | inr t ↦ elim (Bool-cases (q == star)) [
          | inl u ↦
              glob_loop_sound f p (c ∷ s) (some (p, c ∷ s)) (λ m. now (skip (ground arith) m))
                (star_first q p (c ∷ s) (ground arith) now) (rw (t, u) at e)
          | inr u ↦ retry_sound (glob_loop f) (glob_loop_sound f) back saved (rw (t, u) at e)
        ]
      ]
