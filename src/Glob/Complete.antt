-- ===== src/Glob/Complete.antt =====
-- `matchGlob` (internal/behavior/behavior.go): the fuel of the loop, and its negative answers.
use localfront.Base.{
  ℕ, zero, suc, ◌+◌, ◌*◌, ◌≤◌, ◌<◌, ◌≡◌, ◌≢◌, refl, inl, inr, true, false, Bool, ◌||◌, [], ◌∷◌,
  Option, none, some, arith, ◌==◌, Bool-cases, length,
}
use localfront.Text.{Bytes}
use localfront.Text.Split.{Lacks}
use localfront.Glob.{star, question, Back, retry, glob_loop}
use localfront.Glob.Pattern.{
  Matches, only_stars_iff, byte_inv, nil_inv, star_inv, two_stars, drop_byte, not-nil-cons,
}

-- The fuel that is left pays for the rounds to come: `m` bounds the text, `k` the pattern.
module _ (k : ℕ) where
  pub record Fuelled (f m : ℕ) (p s : Bytes) : Type 0 where
    pub fuel : m * k + length p < f
    pub text : length s ≤ m
    pub in_pattern : length p < k

  abbrev pub SavedFits : ℕ → Bytes → Back → Type 0
  SavedFits m s none = Unit
  SavedFits m s (some (bp, bs)) = (length s ≤ length bs) × (length bs ≤ m) × (length bp < k)

  abbrev pub Stops : Option Bool → Type 0
  Stops none = ⊥
  Stops (some b) = Unit

  retry-Stops :
      {p s : Bytes} {c f : ℕ} (m : ℕ) (back : Back)
      → ((m' : ℕ) (p' s' : Bytes) (b : Back)
          → Fuelled f m' p' s'
          → SavedFits m' s' b
          → Stops (glob_loop f p' s' b))
      → Fuelled (suc f) m p (c ∷ s)
      → SavedFits m (c ∷ s) back
      → Stops (retry back (glob_loop f))
  unfolding retry
  retry-Stops m none ih w v = tt
  retry-Stops m (some (bp, [])) ih w v = absurd (omega arith)
  retry-Stops zero (some (bp, b ∷ bs)) ih w v = absurd (omega arith)
  retry-Stops (suc m) (some (bp, b ∷ bs)) ih w v =
      ih m bp bs (some (bp, bs))
        (record { fuel = omega arith; text = omega arith; in_pattern = omega arith }) (omega arith)

  pub glob_loop-Stops :
      (f m : ℕ) (p s : Bytes) (back : Back)
      → Fuelled f m p s
      → SavedFits m s back
      → Stops (glob_loop f p s back)
  unfolding glob_loop
  glob_loop-Stops zero m p s back w v = absurd (omega arith)
  glob_loop-Stops (suc f) m p [] back w v = tt
  glob_loop-Stops (suc f) m [] (c ∷ s) back w v = retry-Stops m back (glob_loop-Stops f) w v
  glob_loop-Stops (suc f) m (q ∷ p) (c ∷ s) back w v = elim (Bool-cases (q == question || q == c)) [
    | inl t ↦ rw t (
        glob_loop-Stops f m p s back
          (record { fuel = omega arith; text = omega arith; in_pattern = omega arith })
          (SavedFits-byte back v))
    | inr t ↦ elim (Bool-cases (q == star)) [
      | inl u ↦
          rw (t, u)
            (glob_loop-Stops f m p (c ∷ s) (some (p, c ∷ s))
              (record { fuel = omega arith; text = omega arith; in_pattern = omega arith })
              (omega arith))
      | inr u ↦ rw (t, u) (retry-Stops m back (glob_loop-Stops f) w v)
    ]
  ]
    where
      SavedFits-byte : (b : Back) → SavedFits m (c ∷ s) b → SavedFits m s b
      SavedFits-byte none h = tt
      SavedFits-byte (some (bp, bs)) h = omega arith

module _ (G : Type 0) where
  -- Where a match has to be looked for: from here if no star was met, and else from the last star.
  abbrev pub Pending : Bytes → Bytes → Back → Type 0
  Pending p s none = G → Matches p s
  Pending p s (some (bp, bs)) =
      (G → Matches (star ∷ bp) bs)
      × (Matches bp bs → Matches p s)
      × Lacks star bs
      × (length s ≤ length bs)

  pub record Inv (p s : Bytes) (back : Back) : Type 0 where
    pub later : G → Matches (star ∷ p) s
    pub pending : Pending p s back
    pub plain : Lacks star s

  retry_complete :
      {p s : Bytes} {c : ℕ} (next : Bytes → Bytes → Back → Option Bool)
      → ((p' s' : Bytes) (b : Back) → Inv p' s' b → next p' s' b ≡ some false → ¬ G)
      → (back : Back) → Inv p (c ∷ s) back
      → ¬ Matches p (c ∷ s)
      → retry back next ≡ some false
      → ¬ G
  unfolding retry
  retry_complete next ih none i no_match e = λ g. no_match (i.pending g)
  retry_complete next ih (some (bp, [])) i no_match e = absurd (omega arith)
  retry_complete next ih (some (bp, b ∷ bs)) i no_match e =
      let (start, down, plain, longer) = i.pending in
      let rest : G → Matches (star ∷ bp) bs =
        λ g. elim (star_inv refl (start g)) [ inl m ↦ absurd (no_match (down m)) | inr m ↦ m ] in
      ih bp bs (some (bp, bs))
        (record { later = rest; pending = (rest, λ m. m, plain.1, omega arith); plain = plain.1 }) e

  Pending-byte :
      (q c : ℕ) (p s : Bytes) (back : Back)
      → q ≢ star
      → Pending (q ∷ p) (c ∷ s) back
      → Pending p s back
  Pending-byte q c p s none h k = λ g. (byte_inv h (k g)).1
  Pending-byte q c p s (some (bp, bs)) h (start, down, plain, longer) =
      (start, λ m. (byte_inv h (down m)).1, plain, omega arith)

  mismatch :
      {q c : ℕ} {p s : Bytes}
      → (q == question || q == c) ≡ false
      → (q == star) ≡ false
      → ¬ Matches (q ∷ p) (c ∷ s)
  mismatch {q} {c} t u m = let h = byte_inv (ground arith) m in ground arith

  pub glob_loop_complete :
      (f : ℕ) (p s : Bytes) (back : Back) → Inv p s back → glob_loop f p s back ≡ some false → ¬ G
  unfolding glob_loop
  glob_loop_complete zero p s back i e = cc
  glob_loop_complete (suc f) p [] back i e =
      λ g. let h = (only_stars_iff p).1 (nil_inv (i.later g)).1 in ground arith
  glob_loop_complete (suc f) [] (c ∷ s) back i e =
      retry_complete (glob_loop f) (glob_loop_complete f) back i not-nil-cons e
  glob_loop_complete (suc f) (q ∷ p) (c ∷ s) back i e =
      elim (Bool-cases (q == question || q == c)) [
        | inl t ↦
            let h : q ≢ star = plain_byte (i.plain.0) t in
            glob_loop_complete f p s back
              (record {
                later = λ g. drop_byte s h (i.later g);
                pending = Pending-byte q c p s back h i.pending;
                plain = i.plain.1;
              })
              (rw t at e)
        | inr t ↦ elim (Bool-cases (q == star)) [
          | inl u ↦
              glob_loop_complete f p (c ∷ s) (some (p, c ∷ s)) (Inv-mark (ground arith) i)
                (rw (t, u) at e)
          | inr u ↦
              retry_complete (glob_loop f) (glob_loop_complete f) back i (mismatch t u)
                (rw (t, u) at e)
        ]
      ]
    where
      plain_byte : c ≢ star → (q == question || q == c) ≡ true → q ≢ star
      plain_byte h t = ground arith

      Inv-mark : q ≡ star → Inv (q ∷ p) (c ∷ s) back → Inv p (c ∷ s) (some (p, c ∷ s))
      Inv-mark h j =
          let l : G → Matches (star ∷ p) (c ∷ s) = λ g. two_stars (c ∷ s) (rw h at (j.later g)) in
          record { later = l; pending = (l, λ m. m, j.plain, omega arith); plain = j.plain }
