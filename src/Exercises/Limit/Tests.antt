-- ===== src/Exercises/Limit/Tests.antt =====
-- The theorems on the programs with a limit at concrete runs.
use feup_sope.Base.{◌+◌, ◌<◌, ◌≡◌, refl, arith}
use feup_sope.Base.Word.{pos, negsuc}
use feup_sope.Exercises.Limit.{
  System, Reach, here, next, by_thread, join_a, join_b, done, Move, lock, more, empty, take, unlock,
  write, count, leave,
}
use feup_sope.Exercises.Limit.Race.{RaceMove, limit_of_p02}
use feup_sope.Exercises.Limit.Race.Excess.{p02-excess}
use feup_sope.Exercises.Limit.Outcome.{p2-total}

p02-excess_example :
    (s : System) × Reach RaceMove limit_of_p02 s
    × (s.main ≡ done)
    × (s.total ≡ limit_of_p02 + 1)
    × (s.shared.limit ≡ negsuc 0)
p02-excess_example = p02-excess limit_of_p02 (omega arith)

first : 0 < 2
first = omega arith

second : 1 < 2
second = omega arith

-- A run with a limit of one character, which the first thread writes.
abbrev run_of_p2 : (s : System) × Reach Move 1 s × (s.main ≡ done)
run_of_p2 =
    let r0 = next here (by_thread 0 first (lock refl)) in
    let r1 = next r0 (by_thread 0 first (more refl)) in
    let r2 = next r1 (by_thread 0 first take) in
    let r3 = next r2 (by_thread 0 first unlock) in
    let r4 = next r3 (by_thread 0 first write) in
    let r5 = next r4 (by_thread 0 first count) in
    let r6 = next r5 (by_thread 0 first (lock refl)) in
    let r7 = next r6 (by_thread 0 first (empty refl)) in
    let r8 = next r7 (by_thread 0 first leave) in
    let r9 = next r8 (by_thread 1 second (lock refl)) in
    let r10 = next r9 (by_thread 1 second (empty refl)) in
    let r11 = next r10 (by_thread 1 second leave) in
    let r12 = next r11 (join_a refl refl) in let r13 = next r12 (join_b refl refl) in (_, r13, refl)

p2-total_example :
    (run_of_p2.0.total ≡ 1) × (run_of_p2.0.shared.screen ≡ 1) × (run_of_p2.0.shared.limit ≡ pos 0)
p2-total_example = p2-total 1 run_of_p2.0 run_of_p2.1 run_of_p2.2
