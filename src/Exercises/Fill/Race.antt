-- ===== src/Exercises/Fill/Race.antt =====
-- Exercises/prob07/p1b.c: as p1a.c, without the mutex.
use feup_sope.Base.{ℕ, zero, suc, ◌+◌, ◌≤◌, ◌<◌, ◌≡◌, refl, sym, arith, update, ap, ◌-◌}
use mathlib.Core.Path.{subst}
use feup_sope.Exercises.Fill.{
  Shared, FillPc, locking, storing, raising_pos, raising_val, counting, returned, Program, Keep,
  creating, System, by_fill, create, Run, here, next, start,
}

-- A step of thread `i`, with its `count[i]`; `locking` is the head of the loop.
pub data RaceMove (npos i : ℕ) (m : Shared) (c : ℕ) : FillPc → Shared → ℕ → FillPc → Type 0 where
  full : npos ≤ m.pos → RaceMove npos i m c locking m c returned
  room : m.pos < npos → RaceMove npos i m c locking m c storing
  store : RaceMove npos i m c storing (record m { buf = update m.buf m.pos m.val }) c raising_pos
  raise_pos : RaceMove npos i m c raising_pos (record m { pos = m.pos + 1 }) c raising_val
  raise_val : RaceMove npos i m c raising_val (record m { val = m.val + 1 }) c counting
  count : RaceMove npos i m c counting m (c + 1) locking

abbrev pub p1b : Program
p1b = record { FillMoves = RaceMove; verify_begin = Keep; verify_end = Keep }

-- A run behind which two threads are in the program, with the position they are at.
record At (npos nthr position : ℕ) (p q : FillPc) : Type 0 where
  steps : ℕ
  state : System
  run : Run p1b npos nthr steps state
  main : state.main ≡ creating 2
  pos : state.shared.pos ≡ position
  first : state.fill 0 ≡ p
  second : state.fill 1 ≡ q

move_first :
    {npos nthr position : ℕ} {p q : FillPc} (a : At npos nthr position p q) {m : Shared} {c : ℕ}
    (p' : FillPc)
    → RaceMove npos 0 a.state.shared (a.state.counts 0) p m c p'
    → At npos nthr m.pos p' q
move_first {npos} a {m = m} {c = c} p' move = record {
  steps = suc a.steps;
  state = record a.state {
    shared = m;
    fill = update a.state.fill 0 p';
    counts = update a.state.counts 0 c;
  };
  run = next a.run (
      by_fill 0 (rw a.main (omega arith)) (
        subst (λ x. RaceMove npos 0 a.state.shared (a.state.counts 0) x m c p') (sym a.first)
          move));
  main = a.main;
  pos = refl;
  first = refl;
  second = a.second;
}

move_second :
    {npos nthr position : ℕ} {p q : FillPc} (a : At npos nthr position p q) {m : Shared} {c : ℕ}
    (q' : FillPc)
    → RaceMove npos 1 a.state.shared (a.state.counts 1) q m c q'
    → At npos nthr m.pos p q'
move_second {npos} a {m = m} {c = c} q' move = record {
  steps = suc a.steps;
  state = record a.state {
    shared = m;
    fill = update a.state.fill 1 q';
    counts = update a.state.counts 1 c;
  };
  run = next a.run (
      by_fill 1 (rw a.main (omega arith)) (
        subst (λ x. RaceMove npos 1 a.state.shared (a.state.counts 1) x m c q') (sym a.second)
          move));
  main = a.main;
  pos = refl;
  first = a.first;
  second = refl;
}

-- The first thread fills a position while the second stands.
round :
    {npos nthr position : ℕ} {q : FillPc}
    → position < npos
    → At npos nthr position locking q
    → At npos nthr (position + 1) locking q
unfolding move_first
round {npos} {nthr} {position} {q} lt a =
    let b = move_first a storing (room (rw a.pos lt)) in
    let c = move_first b raising_pos store in
    let d = move_first c raising_val raise_pos in
    let e = move_first d counting raise_val in
    let f = move_first e locking count in
    subst (λ k. At npos nthr k locking q) (ap (λ k. k + 1) a.pos) f

filled_up :
    {npos nthr : ℕ} (position : ℕ)
    → 2 ≤ nthr
    → position < npos
    → At npos nthr position locking locking
filled_up zero two lt = record {
  steps = 2;
  state = record start { main = creating 2 };
  run = next (next here (create 0 refl (omega arith))) (create 1 refl (omega arith));
  main = refl;
  pos = refl;
  first = refl;
  second = refl;
}
filled_up {npos} {nthr} (suc k) two lt =
    let e : k + 1 ≡ suc k = omega arith in
    subst (λ j. At npos nthr j locking locking) e
      (round (omega (arith, lt)) (filled_up k two (omega (arith, lt))))

-- For at least one position and two threads, p1b.c has a run in which a thread is about to write
-- `buf[pos]` with `pos` equal to `npos`, which is past the positions that the test allows; with the
-- largest `npos` it is past the end of the array.
pub p1b-overrun :
    (npos nthr : ℕ)
    → 0 < npos
    → 2 ≤ nthr
    → (steps : ℕ) × (s : System) × Run p1b npos nthr steps s
      × (s.fill 1 ≡ storing)
      × (s.shared.pos ≡ npos)
p1b-overrun npos nthr some two =
    let a = filled_up (npos - 1) two (omega (arith, some)) in
    let b = move_second a storing (room (rw a.pos (omega (arith, some)))) in
    let c = round (omega (arith, some, b.pos, a.pos)) b in
    (c.steps, c.state, c.run, c.second, omega (arith, c.pos, a.pos, some))
