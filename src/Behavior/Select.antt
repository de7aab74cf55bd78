-- ===== src/Behavior/Select.antt =====
-- internal/behavior/behavior.go: the cache behavior that serves a path.
use localfront.Base.{◌≡◌, ◌↔◌, inl, inr, true, Bool, List, [], ◌∷◌, if◌then◌else◌, Bool-cases}
use localfront.Text.{Bytes, codes, trim_prefix}
use localfront.Text.Split.{Lacks}
use localfront.Glob.{star, match_glob}
use localfront.Glob.Pattern.{Matches}
use localfront.Glob.Laws.{match_glob_iff}
use localfront.Config.{Behavior, Distribution}

abbrev pub slash : Bytes
slash = codes "/"

-- `MatchPath`
unfoldable pub match_path : Bytes → Bytes → Bool
match_path pattern path = match_glob (trim_prefix pattern slash) (trim_prefix path slash)

-- the loop of `Select`
unfoldable pub select_from : List Behavior → Bytes → Behavior → Behavior
select_from [] path default = default
select_from (b ∷ bs) path default =
    if match_path b.path_pattern path then b else select_from bs path default

-- `Select`
unfoldable pub select : Distribution → Bytes → Behavior
select d path = select_from d.behaviors path d.default_behavior

-- What the pattern of a behavior means for a path: both lose one leading slash.
abbrev pub Covers : Behavior → Bytes → Type 0
Covers b path = Matches (trim_prefix b.path_pattern slash) (trim_prefix path slash)

-- The first listed behavior that covers the path, or the default if none does.
pub data Serves (path : Bytes) (default : Behavior) : List Behavior → Behavior → Type 0 where
  fallback : Serves path default [] default
  first : {b : Behavior} {bs : List Behavior} → Covers b path → Serves path default (b ∷ bs) b
  later :
      {a b : Behavior} {bs : List Behavior}
      → ¬ Covers a path
      → Serves path default bs b
      → Serves path default (a ∷ bs) b

match_path_iff :
    (b : Behavior) (path : Bytes)
    → Lacks star (trim_prefix path slash)
    → (match_path b.path_pattern path ≡ true) ↔ Covers b path
unfolding match_path
match_path_iff b path plain = match_glob_iff _ _ plain

select_from-Serves :
    (bs : List Behavior) (path : Bytes) (default : Behavior)
    → Lacks star (trim_prefix path slash)
    → Serves path default bs (select_from bs path default)
unfolding select_from
select_from-Serves [] path default plain = fallback
select_from-Serves (b ∷ bs) path default plain =
    elim (Bool-cases (match_path b.path_pattern path)) [
      | inl e ↦ rw e (first ((match_path_iff b path plain).0 e))
      | inr e ↦ rw e (
          later (λ c. absurd (cc ((match_path_iff b path plain).1 c)))
            (select_from-Serves bs path default plain))
    ]

-- On a path without a star byte, Select gives the first behavior in template order whose
-- pattern covers the path in the sense of the relation Matches, and the default behavior if
-- there is none.
pub select-Serves :
    (d : Distribution) (path : Bytes)
    → Lacks star (trim_prefix path slash)
    → Serves path d.default_behavior d.behaviors (select d path)
unfolding select
select-Serves d path plain = select_from-Serves d.behaviors path d.default_behavior plain
