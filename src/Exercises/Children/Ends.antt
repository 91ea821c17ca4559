-- ===== src/Exercises/Children/Ends.antt =====
-- How the programs of Exercises/prob04 that wait for children come to their end.
use feup_sope.Base.{
  ℕ, ◌+◌, ◌*◌, ◌-◌, ◌≤◌, ◌<◌, ◌≡◌, ◌≢◌, Option, Bool, true, false, arith, total, total-update,
  total_le, total-zero, total-suc, ◌⊎◌, ap,
}
use feup_sope.Exercises.Children.{
  Answer, Child, unborn, starting, working, leaving, zombie, gone, Program, World, idle, printing,
  reaping, NoZombie, Wait, takes, lives, fails, ChildStep, begins, wakes, exits, ParentStep, forks,
  fork_fails, forked, task, slept, announces, waits, reports, ends, HandlerStep, delivers, prints,
  reaps, returns, Step, by_child, by_parent, by_handler, Run, here, next, adopted, ParentPc,
  forking, tasking, sleeping, announcing, waiting, reporting, done, HandlerPc, remains, raised,
  Disposition, default, ignored, handled, is_done,
}
use feup_sope.Exercises.Children.Reaped.{adopted_no_zombie, NoZombie-update}
use feup_sope.Exercises.Children.Progress.{IsOver, GoesOn, world-GoesOn}

-- The steps that are left: of a child, with those of the handler for it, of the parent, and of the
-- handler.
abbrev pub child_rest : Child → ℕ
child_rest unborn = 0
child_rest starting = 8
child_rest working = 7
child_rest leaving = 6
child_rest zombie = 1
child_rest gone = 0

abbrev pub parent_rest : ParentPc → ℕ
parent_rest (forking i) = 9 * (3 - i) + 27
parent_rest (tasking i) = 6 * (4 - i) + 2
parent_rest (sleeping i) = 6 * (3 - i) + 7
parent_rest (announcing i) = 6 * (3 - i) + 6
parent_rest (waiting i) = 6 * (3 - i) + 5
parent_rest (reporting i a) = 6 * (3 - i) + 4
parent_rest done = 0

abbrev pub handler_rest : HandlerPc → ℕ
handler_rest idle = 0
handler_rest printing = 3
handler_rest reaping = 2

abbrev pub pending_rest : Bool → ℕ
pending_rest true = 4
pending_rest false = 0

abbrev pub rest : World → ℕ
rest s =
    total child_rest 3 s.child
    + parent_rest s.parent
    + handler_rest s.handler
    + pending_rest s.pending

remains_rest : (d : Disposition) (at : ParentPc) → child_rest (remains d at) ≤ 1
remains_rest ignored at = omega arith
remains_rest default at = ground arith
remains_rest handled at = ground arith

raised_rest : (d : Disposition) (b : Bool) → pending_rest (raised d b) ≤ pending_rest b + 4
raised_rest default b = omega arith
raised_rest ignored b = omega arith
raised_rest handled true = omega arith
raised_rest handled false = omega arith

adopted_rest : (c : Child) → child_rest (adopted c) ≤ child_rest c
adopted_rest unborn = omega arith
adopted_rest starting = omega arith
adopted_rest working = omega arith
adopted_rest leaving = omega arith
adopted_rest zombie = omega arith
adopted_rest gone = omega arith

child-nearer :
    {p : Program} {s : World} (i : ℕ) {t : World} → i < 3 → ChildStep p s i t → rest t < rest s
child-nearer {s = s} i lt (begins e) =
    omega (arith, ap child_rest e, total-update child_rest 3 s.child i working lt)
child-nearer {s = s} i lt (wakes e) =
    omega (arith, ap child_rest e, total-update child_rest 3 s.child i leaving lt)
child-nearer {p} {s} i lt (exits e) = omega (
  arith,
  ap child_rest e,
  total-update child_rest 3 s.child i (remains p.on_sigchld s.parent) lt,
  remains_rest p.on_sigchld s.parent,
  raised_rest p.on_sigchld s.pending,
)

Wait-nearer :
    {hang : Bool} {child child' : ℕ → Child} {status status' : Option ℕ} {a : Answer}
    → Wait hang child status a child' status'
    → total child_rest 3 child' ≤ total child_rest 3 child
Wait-nearer {child = child} (takes j lt e) =
    omega (arith, ap child_rest e, total-update child_rest 3 child j gone lt)
Wait-nearer (lives j n h lt e) = omega arith
Wait-nearer (fails h) = omega arith

parent-nearer : {p : Program} {s t : World} → ParentStep p s t → rest t < rest s
parent-nearer {s = s} (forks i e lt) =
    omega (arith, ap parent_rest e, total-update child_rest 3 s.child i starting lt)
parent-nearer (fork_fails i e lt) = omega (arith, ap parent_rest e)
parent-nearer (forked i e le) = omega (arith, ap parent_rest e)
parent-nearer (task i e lt) = omega (arith, ap parent_rest e)
parent-nearer (slept i e) = omega (arith, ap parent_rest e)
parent-nearer (announces i e) = omega (arith, ap parent_rest e)
parent-nearer (waits i a child status e w) = omega (arith, ap parent_rest e, Wait-nearer w)
parent-nearer (reports i a e) = omega (arith, ap parent_rest e)
parent-nearer {s = s} (ends i e le) = omega (
  arith,
  ap parent_rest e,
  total_le child_rest 3 s.child (λ j. adopted (s.child j)) λ j. adopted_rest (s.child j),
)

handler-nearer : {s t : World} → HandlerStep s t → rest t < rest s
handler-nearer (delivers e f) = omega (arith, ap handler_rest e, ap pending_rest f)
handler-nearer (prints e) = omega (arith, ap handler_rest e)
handler-nearer {s} (reaps j e lt z) =
    omega (arith, ap child_rest z, total-update child_rest 3 s.child j gone lt)
handler-nearer (returns e none_left) = omega (arith, ap handler_rest e)

step-nearer : {p : Program} {s t : World} → Step p s t → rest t < rest s
step-nearer (by_child i lt m) = child-nearer i lt m
step-nearer (by_parent h m) = parent-nearer m
step-nearer (by_handler h m) = handler-nearer m

run-nearer : {p : Program} {n : ℕ} {s : World} → Run p n s → n + rest s ≤ 54
run-nearer here =
    let child : ℕ → Child = λ j. unborn in
    omega (
      arith,
      total-zero child_rest child,
      total-suc child_rest 0 child,
      total-suc child_rest 1 child,
      total-suc child_rest 2 child,
    )
run-nearer (next r m) = omega (arith, run-nearer r, step-nearer m)

-- When the parent has exited, no child is or becomes a zombie.
abbrev Adopted : World → Type 0
Adopted s = is_done s.parent ≡ true → NoZombie s.child

remains_done : (d : Disposition) (at : ParentPc) → is_done at ≡ true → remains d at ≢ zombie
remains_done default at h = ground arith
remains_done ignored at h = ground arith
remains_done handled at h = ground arith

child-Adopted :
    {p : Program} {s : World} (i : ℕ) {t : World} → ChildStep p s i t → Adopted s → Adopted t
child-Adopted {s = s} i (begins e) v d = NoZombie-update s.child i working (λ q. cc) (v d)
child-Adopted {s = s} i (wakes e) v d = NoZombie-update s.child i leaving (λ q. cc) (v d)
child-Adopted {p} {s} i (exits e) v d =
    NoZombie-update s.child i (remains p.on_sigchld s.parent) (remains_done p.on_sigchld s.parent d)
      (v d)

parent-Adopted : {p : Program} {s t : World} → ParentStep p s t → Adopted t
parent-Adopted (forks i e lt) d = absurd cc
parent-Adopted (fork_fails i e lt) d = absurd cc
parent-Adopted (forked i e le) d = absurd cc
parent-Adopted (task i e lt) d = absurd cc
parent-Adopted (slept i e) d = absurd cc
parent-Adopted (announces i e) d = absurd cc
parent-Adopted (waits i a child status e w) d = absurd cc
parent-Adopted (reports i a e) d = absurd cc
parent-Adopted {s = s} (ends i e le) d = λ j lt. adopted_no_zombie (s.child j)

handler-Adopted : {s t : World} → is_done s.parent ≡ false → HandlerStep s t → Adopted t
handler-Adopted up (delivers e f) d = absurd cc
handler-Adopted up (prints e) d = absurd cc
handler-Adopted up (reaps j e lt z) d = absurd cc
handler-Adopted up (returns e none_left) d = absurd cc

run-Adopted : {p : Program} {n : ℕ} {s : World} → Run p n s → Adopted s
run-Adopted here d = absurd cc
run-Adopted (next r (by_child i lt m)) d = child-Adopted i m (run-Adopted r) d
run-Adopted (next r (by_parent h m)) d = parent-Adopted m d
run-Adopted (next r (by_handler up m)) d = handler-Adopted up m d

-- Each of the four programs takes at most 54 steps, however its processes are scheduled, whichever
-- forks fail and whatever becomes of the signals; and a state that it reaches has a next step, unless
-- the parent has exited and no child is left, as a process or as a zombie.
pub children-ends :
    (p : Program) {n : ℕ} {s : World} → Run p n s → (n ≤ 54) × (IsOver s ⊎ GoesOn p s)
children-ends p {s = s} r = (omega (arith, run-nearer r), world-GoesOn p s (run-Adopted r))
