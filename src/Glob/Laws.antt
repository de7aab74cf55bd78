-- ===== src/Glob/Laws.antt =====
-- `matchGlob` (internal/behavior/behavior.go) against the meaning of patterns.
use localfront.Base.{
  ℕ, suc, ◌+◌, ◌*◌, ◌≡◌, refl, ◌↔◌, inl, inr, true, false, Bool, [], ◌∷◌, Option, none, some, arith,
  Bool-cases, length, ap,
}
use localfront.Text.{Bytes}
use localfront.Text.Split.{Lacks}
use localfront.Glob.{star, glob_loop, glob_fuel, match_glob}
use localfront.Glob.Pattern.{Matches, done, skip, take}
use localfront.Glob.Sound.{glob_loop_sound}
use localfront.Glob.Complete.{Stops, glob_loop-Stops, glob_loop_complete}

some_of_Stops : (k : ℕ) (o : Option Bool) → Stops k o → (b : Bool) × (o ≡ some b)
some_of_Stops k none h = absurd h
some_of_Stops k (some b) h = (b, refl)

-- The loop of matchGlob ends by itself on every pattern and text: the fuel of the model is
-- never used up.
pub glob_loop-total : (p s : Bytes) → glob_loop (glob_fuel p s) p s none ≡ some (match_glob p s)
unfolding match_glob
glob_loop-total p s =
    let (b, e) = some_of_Stops (length p + 1) _ (
      glob_loop-Stops (length p + 1) (glob_fuel p s) (length s) p s none
        (record { fuel = omega arith; text = omega arith; in_pattern = omega arith }) tt) in
    rw e

-- A true answer of matchGlob is right for every pattern and text.
pub match_glob-sound : (p s : Bytes) → match_glob p s ≡ true → Matches p s
match_glob-sound p s e =
    glob_loop_sound (Matches p s) (glob_fuel p s) p s none (λ m. m) tt
      (rw glob_loop-total (ap some e))

-- On a text without the star byte, matchGlob answers true exactly on the texts that match the
-- pattern in the sense of the relation Matches.
pub match_glob_iff : (p s : Bytes) → Lacks star s → (match_glob p s ≡ true) ↔ Matches p s
match_glob_iff p s plain = (
  match_glob-sound p s,
  λ m. elim (Bool-cases (match_glob p s)) [
    | inl e ↦ e
    | inr e ↦ absurd (
        glob_loop_complete (Matches p s) (glob_fuel p s) p s none
          (record { later = skip refl; pending = λ g. g; plain = plain })
          (rw glob_loop-total (ap some e)) m)
  ],
)

all_match : (s : Bytes) → Matches (star ∷ []) s
all_match [] = skip refl done
all_match (c ∷ s) = take refl (all_match s)

star_text : (c : ℕ) (s : Bytes) → match_glob (star ∷ []) (star ∷ c ∷ s) ≡ false
unfolding match_glob
star_text c s =
    let e : glob_fuel (star ∷ []) (star ∷ c ∷ s) ≡ suc (suc (length s * 2 + 4)) = omega arith in
    rw e

-- The pattern of one star matches every text, and yet matchGlob refuses every text of two
-- bytes or more that begins with a star.
pub match_glob-star_text :
    (text : Bytes) (c : ℕ) (s : Bytes)
    → Matches (star ∷ []) text × (match_glob (star ∷ []) (star ∷ c ∷ s) ≡ false)
match_glob-star_text text c s = (all_match text, star_text c s)
