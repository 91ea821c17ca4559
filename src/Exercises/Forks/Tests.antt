-- ===== src/Exercises/Forks/Tests.antt =====
-- The programs of Exercises/prob03 that fork in a loop, where every fork succeeds.
use feup_sope.Base.{◌+◌, ◌*◌, ◌^◌, ◌≡◌, refl, Bool, true, List, []}
use feup_sope.Base.Merges.{count}
use feup_sope.Exercises.Forks.{Line, rounds, all_rounds, p6c}
use feup_sope.Exercises.Forks.Count.{is_finished, is_father, run_of, rounds-all_rounds}

abbrev always : List Bool → Bool
always path = true

abbrev few : List Line
few = (run_of (rounds always 3 [])).0

abbrev many : List Line
many = (run_of (all_rounds always 3 [])).0

rounds-all_rounds_example :
    (count is_finished few ≡ 3)
    × (count is_father few ≡ 10 * 3)
    × (count is_finished many + 1 ≡ 2 ^ 3)
    × (count is_father many + 10 ≡ 10 * 2 ^ 3)
unfolding rounds all_rounds
rounds-all_rounds_example =
    rounds-all_rounds always 3 (run_of (rounds always 3 [])).1 (run_of (all_rounds always 3 [])).1
      refl refl

seven : count is_finished (run_of (p6c always)).0 ≡ 7
unfolding all_rounds
seven = refl
