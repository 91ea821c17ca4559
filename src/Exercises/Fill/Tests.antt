-- ===== src/Exercises/Fill/Tests.antt =====
-- The theorems on the programs of Exercises/prob07 at concrete runs.
use feup_sope.Base.{ℕ, ◌+◌, ◌*◌, ◌≤◌, ◌≡◌, ◌⊎◌, refl, [], arith}
use feup_sope.Exercises.Fill.{
  storing, lock, full, room, leave, store, raise_pos, raise_val, unlock, count, done, System, Step,
  by_fill, create, all_created, join, all_joined, right, verified, Run, here, next, p1a,
}
use feup_sope.Exercises.Fill.Locked.{p3}
use feup_sope.Exercises.Fill.Outcome.{p1a-right, p3-ends}
use feup_sope.Exercises.Fill.Race.{p1b, p1b-overrun}

-- A run with one position and one thread.
abbrev run_of_p1a : (s : System) × Run p1a 1 1 16 s × (s.main ≡ done)
run_of_p1a =
    let r0 = next here (create 0 refl (omega arith)) in
    let r1 = next r0 (all_created 1 refl (omega arith)) in
    let r2 = next r1 (by_fill 0 (omega arith) (lock refl)) in
    let r3 = next r2 (by_fill 0 (omega arith) (room (omega arith))) in
    let r4 = next r3 (by_fill 0 (omega arith) store) in
    let r5 = next r4 (by_fill 0 (omega arith) raise_pos) in
    let r6 = next r5 (by_fill 0 (omega arith) raise_val) in
    let r7 = next r6 (by_fill 0 (omega arith) unlock) in
    let r8 = next r7 (by_fill 0 (omega arith) count) in
    let r9 = next r8 (by_fill 0 (omega arith) (lock refl)) in
    let r10 = next r9 (by_fill 0 (omega arith) (full (omega arith))) in
    let r11 = next r10 (by_fill 0 (omega arith) leave) in
    let r12 = next r11 (join 0 refl (omega arith) refl) in
    let r13 = next r12 (all_joined 1 refl (omega arith) refl) in
    let r14 = next r13 (right 0 refl (omega arith) refl) in
    let r15 = next r14 (verified 1 refl (omega arith) refl) in (_, r15, refl)

-- A run with one position and one thread.
abbrev run_of_p3 : (s : System) × Run p3 1 1 16 s × (s.main ≡ done)
run_of_p3 =
    let r0 = next here (create 0 refl (omega arith)) in
    let r1 = next r0 (all_created 1 refl (omega arith)) in
    let r2 = next r1 (by_fill 0 (omega arith) (lock refl)) in
    let r3 = next r2 (by_fill 0 (omega arith) (room (omega arith))) in
    let r4 = next r3 (by_fill 0 (omega arith) store) in
    let r5 = next r4 (by_fill 0 (omega arith) raise_pos) in
    let r6 = next r5 (by_fill 0 (omega arith) raise_val) in
    let r7 = next r6 (by_fill 0 (omega arith) unlock) in
    let r8 = next r7 (by_fill 0 (omega arith) count) in
    let r9 = next r8 (by_fill 0 (omega arith) (lock refl)) in
    let r10 = next r9 (by_fill 0 (omega arith) (full (omega arith))) in
    let r11 = next r10 (by_fill 0 (omega arith) leave) in
    let r12 = next r11 (join 0 refl (omega arith) refl) in
    let r13 = next r12 (all_joined 1 refl (omega arith) (refl, refl)) in
    let r14 = next r13 (right 0 refl (omega arith) refl) in
    let r15 = next r14 (verified 1 refl (omega arith) refl) in (_, r15, refl)

p1a-right_example : (run_of_p1a.0.errors ≡ []) × (run_of_p1a.0.total ≡ 1)
p1a-right_example = p1a-right 1 1 16 run_of_p1a.0 (omega arith) run_of_p1a.1 run_of_p1a.2

p3-ends_example :
    (16 ≤ 17 * 1 + 7 * 1 + 4)
    × (((run_of_p3.0.main ≡ done) × (run_of_p3.0.errors ≡ []) × (run_of_p3.0.total ≡ 1))
        ⊎ ((t : System) × Step p3 1 1 run_of_p3.0 t))
p3-ends_example = p3-ends 1 1 16 run_of_p3.0 (omega arith) run_of_p3.1

p1b-overrun_example :
    (steps : ℕ) × (s : System) × Run p1b 3 2 steps s × (s.fill 1 ≡ storing) × (s.shared.pos ≡ 3)
p1b-overrun_example = p1b-overrun 3 2 (omega arith) (omega arith)
