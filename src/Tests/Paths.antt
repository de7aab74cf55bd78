-- ===== src/Tests/Paths.antt =====
-- Wildcards and cache behaviors.
use localfront.Base.{◌≡◌, ◌↔◌, refl, true, false, [], ◌∷◌, none, some}
use localfront.Text.{codes, text_ops}
use localfront.Glob.{star, glob_loop, glob_fuel, match_glob}
use localfront.Glob.Pattern.{Matches}
use localfront.Glob.Laws.{glob_loop-total, match_glob-sound, match_glob_iff, match_glob-star_text}
use localfront.Behavior.Select.{match_path, select_from, select, Serves, select-Serves}
use localfront.Tests.Samples.{Lacks-of_any, on_path, shop}

match_glob_tests :
    (match_glob (codes "img/*.p?g") (codes "img/a.b.png") ≡ true)
    × (match_glob (codes "img/*.p?g") (codes "img/a.pg") ≡ false)
    × (match_glob (codes "a*b*c") (codes "aXbYbZc") ≡ true)
unfolding match_glob glob_loop
match_glob_tests = (refl, refl, refl)

glob_loop-total_example :
    glob_loop (glob_fuel (codes "a*c") (codes "abbc")) (codes "a*c") (codes "abbc") none
    ≡ some (match_glob (codes "a*c") (codes "abbc"))
glob_loop-total_example = glob_loop-total (codes "a*c") (codes "abbc")

match_glob-sound_example : Matches (codes "a*c") (codes "abbc")
match_glob-sound_example =
    match_glob-sound (codes "a*c") (codes "abbc") (unfold match_glob glob_loop in refl)

match_glob_iff_example :
    (match_glob (codes "a*c") (codes "abbc") ≡ true) ↔ Matches (codes "a*c") (codes "abbc")
match_glob_iff_example =
    match_glob_iff (codes "a*c") (codes "abbc") (Lacks-of_any star (codes "abbc") refl)

select_tests :
    (select shop (codes "/img/logo.png") ≡ on_path (codes "/img/*.png"))
    × (select shop (codes "/api/v1") ≡ on_path (codes "/api/*"))
    × (select shop (codes "/about") ≡ on_path [])
unfolding select select_from match_path match_glob glob_loop text_ops
select_tests = (refl, refl, refl)

select-Serves_example :
    Serves (codes "/api/v1") shop.default_behavior shop.behaviors (select shop (codes "/api/v1"))
select-Serves_example =
    select-Serves shop (codes "/api/v1")
      (unfold text_ops in Lacks-of_any star (codes "api/v1") refl)

match_glob-star_text_example :
    Matches (star ∷ []) (codes "/a/b") × (match_glob (star ∷ []) (codes "*a") ≡ false)
match_glob-star_text_example = match_glob-star_text (codes "/a/b") b'a' []
