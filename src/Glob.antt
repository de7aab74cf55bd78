-- ===== src/Glob.antt =====
-- `matchGlob` of internal/behavior/behavior.go: the loop keeps the pattern and the text that are
-- left in place of the indices `p` and `str`, and in `back` the pattern behind the last star with
-- the text at `starMatchEnd` (`none` while `star` is -1).
pub mod Pattern
pub mod Sound
pub mod Complete
pub mod Laws
use localfront.Base.{
  ℕ, zero, suc, ◌+◌, ◌*◌, Bool, true, false, ◌||◌, [], ◌∷◌, Option, none, some, ◌==◌, if◌then◌else◌,
  length, drop,
}
use mathlib.Core.Option.{get_or}
use localfront.Text.{Bytes}

abbrev pub star : ℕ
star = b'*'

abbrev pub question : ℕ
question = b'?'

abbrev pub Back : Type 0
Back = Option (Bytes × Bytes)

-- the loop behind the main one, and its final test
unfoldable pub only_stars : Bytes → Bool
only_stars [] = true
only_stars (q ∷ p) = if q == star then only_stars p else false

-- `p = star + 1; starMatchEnd++; str = starMatchEnd`, or `return false`
retry : Back → (Bytes → Bytes → Back → Option Bool) → Option Bool
retry none next = some false
retry (some (bp, bs)) next = next bp (drop 1 bs) (some (bp, drop 1 bs))

unfoldable pub glob_loop : ℕ → Bytes → Bytes → Back → Option Bool
unfolding only_stars retry
glob_loop zero p s back = none
glob_loop (suc f) p [] back = some (only_stars p)
glob_loop (suc f) [] (c ∷ s) back = retry back (glob_loop f)
glob_loop (suc f) (q ∷ p) (c ∷ s) back =
    let step = glob_loop f p s back in
    let mark = glob_loop f p (c ∷ s) (some (p, c ∷ s)) in
    let again = retry back (glob_loop f) in
    if q == question || q == c then step else if q == star then mark else again

-- Each byte of the text is the start of at most one round over the pattern.
abbrev pub glob_fuel : Bytes → Bytes → ℕ
glob_fuel p s = length s * (length p + 1) + (length p + 1)

unfoldable pub match_glob : Bytes → Bytes → Bool
unfolding glob_loop
match_glob p s = get_or (glob_loop (glob_fuel p s) p s none) false
