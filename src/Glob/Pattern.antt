-- ===== src/Glob/Pattern.antt =====
-- What a pattern of `matchGlob` (internal/behavior/behavior.go) means, apart from any way to decide it.
use localfront.Base.{ℕ, ◌≡◌, ◌≢◌, refl, ◌⊎◌, inl, inr, ◌↔◌, true, [], ◌∷◌, arith, ◌==◌, Bool-cases}
use localfront.Text.{Bytes}
use localfront.Glob.{star, question, only_stars}

-- A star stands for any run of bytes, a question mark for one byte, any other byte for itself.
pub data Matches : Bytes → Bytes → Type 0 where
  done : Matches [] []
  any_byte : {q c : ℕ} {p s : Bytes} → q ≡ question → Matches p s → Matches (q ∷ p) (c ∷ s)
  same_byte : {q c : ℕ} {p s : Bytes} → q ≢ star → q ≡ c → Matches p s → Matches (q ∷ p) (c ∷ s)
  skip : {q : ℕ} {p s : Bytes} → q ≡ star → Matches p s → Matches (q ∷ p) s
  take : {q c : ℕ} {p s : Bytes} → q ≡ star → Matches (q ∷ p) s → Matches (q ∷ p) (c ∷ s)

pub byte_inv :
    {q c : ℕ} {p s : Bytes}
    → q ≢ star
    → Matches (q ∷ p) (c ∷ s)
    → ((q ≡ question) ⊎ (q ≡ c)) × Matches p s
byte_inv h (any_byte e m) = (inl e, m)
byte_inv h (same_byte _ e m) = (inr e, m)
byte_inv h (skip e m) = absurd (h e)
byte_inv h (take e m) = absurd (h e)

pub nil_inv : {q : ℕ} {p : Bytes} → Matches (q ∷ p) [] → (q ≡ star) × Matches p []
nil_inv (skip e m) = (e, m)

pub not-nil-cons : {c : ℕ} {s : Bytes} → ¬ Matches [] (c ∷ s)
not-nil-cons m = elim m [ ]

-- A byte that agrees with the pattern may be consumed.
pub Matches-byte :
    {q c : ℕ} {p s : Bytes} → (q ≡ question) ⊎ (q ≡ c) → Matches p s → Matches (q ∷ p) (c ∷ s)
Matches-byte (inl e) m = any_byte e m
Matches-byte {q} (inr e) m = elim (Bool-cases (q == star)) [
  | inl h ↦ take (ground arith) (skip (ground arith) m)
  | inr h ↦ same_byte (ground arith) e m
]

-- What a star consumed can be split off.
pub star_cons :
    {p s : Bytes} {c : ℕ} → Matches p (c ∷ s) ⊎ Matches (star ∷ p) s → Matches (star ∷ p) (c ∷ s)
star_cons (inl m) = skip refl m
star_cons (inr m) = take refl m

pub star_inv :
    {q : ℕ} {p s : Bytes} {c : ℕ}
    → q ≡ star
    → Matches (q ∷ p) (c ∷ s)
    → Matches p (c ∷ s) ⊎ Matches (q ∷ p) s
star_inv h (any_byte e m) = absurd (ground arith)
star_inv h (same_byte n e m) = absurd (n h)
star_inv h (skip e m) = inl m
star_inv h (take e m) = inr m

-- Two stars in a row are one.
pub two_stars : (s : Bytes) {p : Bytes} → Matches (star ∷ star ∷ p) s → Matches (star ∷ p) s
two_stars [] m = (nil_inv m).1
two_stars (c ∷ s) m = elim (star_inv refl m) [ inl n ↦ n | inr n ↦ take refl (two_stars s n) ]

-- A byte item behind a star can be moved past one byte of the text.
pub drop_byte :
    (s : Bytes) {q c : ℕ} {p : Bytes}
    → q ≢ star
    → Matches (star ∷ q ∷ p) (c ∷ s)
    → Matches (star ∷ p) s
drop_byte [] h m = elim (star_inv refl m) [
  | inl n ↦ skip refl (byte_inv h n).1
  | inr n ↦ absurd (h (nil_inv (nil_inv n).1).0)
]
drop_byte (d ∷ s) h m = elim (star_inv refl m) [
  | inl n ↦ skip refl (byte_inv h n).1
  | inr n ↦ take refl (drop_byte s h n)
]

pub only_stars_iff : (p : Bytes) → (only_stars p ≡ true) ↔ Matches p []
unfolding only_stars
only_stars_iff [] = (λ _. done, λ _. refl)
only_stars_iff (q ∷ p) = elim (Bool-cases (q == star)) [
  | inl e ↦
      rw e
        (λ h. skip (ground arith) ((only_stars_iff p).0 h), λ m. (only_stars_iff p).1 (nil_inv m).1)
  | inr e ↦ rw e (λ h. absurd (cc h), λ m. absurd (let k = (nil_inv m).0 in ground arith))
]
