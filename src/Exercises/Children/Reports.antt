-- ===== src/Exercises/Children/Reports.antt =====
-- What p4a.c of Exercises/prob04 prints of the ends of its children.
pub mod Invariant
pub mod Moves
use feup_sope.Base.{
  ℕ, ◌+◌, ◌≤◌, ◌<◌, ◌≡◌, ◌≢◌, refl, sym, Option, some, true, false, List, [], ◌∷◌, update, updated,
  arith, total, total-update, total_le, total-zero, total-suc, ◌⊎◌, inl, inr, if◌then◌else◌, ap,
  All, ◌==◌, ==_self, Bool-cases,
}
use mathlib.Core.Path.{subst}
use feup_sope.Exercises.Children.{
  Answer, ended, none_yet, no_child, Child, unborn, starting, working, leaving, zombie, gone, p4a,
  World, idle, Wait, takes, lives, fails, ChildStep, begins, wakes, exits, ParentStep, forks,
  fork_fails, forked, task, slept, announces, waits, reports, ends, delivers, prints, reaps,
  returns, Step, by_child, by_parent, by_handler, Run, here, next, adopted, start, ParentPc,
  forking, tasking, sleeping, announcing, waiting, reporting, done, Line, child_working,
  child_exiting, working_hard, end_of_task, waiting_for, terminated, report, is_there, is_done,
}
use feup_sope.Exercises.Children.Progress.{done_of}
use feup_sope.Exercises.Children.Reports.Invariant.{
  about, Known, as_gone, as_there, Waited, Fresh, Fresh-update, left, Inv, start-Inv, left_counts,
  adopted_same, adopted_there, none_left, reports_of, IsExact,
}
use feup_sope.Exercises.Children.Reports.Moves.{
  child-moved, child-Inv, parent-moved, report-Inv, Wait-Inv,
}

parent-Inv : {s t : World} → ParentStep p4a s t → Inv s → Inv t
parent-Inv {s} (forks i e lt) v = record {
  calm = v.calm;
  quiet = v.quiet;
  one =
      let fresh : Fresh (forking i) s.child = subst (λ q. Fresh q s.child) e v.fresh in
      let g : as_gone (s.child i) ≡ 0 = rw (fresh i (omega arith)) refl in
      updated s.child i starting (λ j b. j < 3 → reports_of j s.screen + 0 ≡ as_gone b)
        (λ h. omega (arith, v.one i h, g))
        λ j other h. let b : about j s.parent ≡ 0 = rw e refl in omega (arith, v.one j h, b);
  exact = v.exact;
  known = tt;
  fresh =
      let fresh : Fresh (forking i) s.child = subst (λ q. Fresh q s.child) e v.fresh in
      updated s.child i starting (λ j b. i + 1 ≤ j → b ≡ unborn) (λ h. absurd (omega (arith, h)))
        λ j other h. fresh j (omega (arith, h));
  waited =
      let w : Waited (forking i) (left s.child) = subst (λ q. Waited q (left s.child)) e v.waited in
      omega (arith, w, lt, total-update as_there 3 s.child i starting lt);
}
parent-Inv {s} (fork_fails i e lt) v =
    parent-moved (forking i) (forking (i + 1)) s.screen e (λ w. omega (arith, lt, w)) tt
      (λ f j le. f j (omega (arith, le))) (λ j. refl) v.exact v
parent-Inv {s} (forked i e le) v =
    parent-moved (forking i) (tasking 0) s.screen e (λ w. omega (arith, le, w)) tt (λ q. tt)
      (λ j. refl) v.exact v
parent-Inv {s} (task i e lt) v =
    parent-moved (tasking i) (sleeping i) (working_hard i ∷ s.screen) e (λ w. w) tt (λ q. tt)
      (λ j. refl) (tt, v.exact) v
parent-Inv {s} (slept i e) v =
    parent-moved (sleeping i) (announcing i) (end_of_task i ∷ s.screen) e (λ w. w) tt (λ q. tt)
      (λ j. refl) (tt, v.exact) v
parent-Inv {s} (announces i e) v =
    parent-moved (announcing i) (waiting i) (waiting_for i ∷ s.screen) e (λ w. w) tt (λ q. tt)
      (λ j. refl) (tt, v.exact) v
parent-Inv (waits i a child status e w) v = Wait-Inv i e w v
parent-Inv (reports i a e) v = report-Inv i a e v
parent-Inv {s} (ends i e le) v =
    let w : Waited (tasking i) (left s.child) = subst (λ q. Waited q (left s.child)) e v.waited in
    record {
      calm = v.calm;
      quiet = v.quiet;
      one = λ j lt.
          let b : about j s.parent ≡ 0 = rw e refl in
          let same : adopted (s.child j) ≡ s.child j =
            adopted_same (s.child j) (omega (arith, w, le, left_counts s.child j lt)) in
          rw same (omega (arith, v.one j lt, b));
      exact = v.exact;
      known = tt;
      fresh = tt;
      waited = omega (
        arith,
        w,
        le,
        total_le as_there 3 s.child (λ j. adopted (s.child j)) λ j. adopted_there (s.child j),
      );
    }

step-Inv : {s t : World} → Step p4a s t → Inv s → Inv t
step-Inv (by_child i lt m) v = child-Inv i lt m v
step-Inv (by_parent h m) v = parent-Inv m v
step-Inv (by_handler up (delivers e f)) v = absurd (let c = v.calm in cc)
step-Inv (by_handler up (prints e)) v = absurd (let c = v.quiet in cc)
step-Inv (by_handler up (reaps j e lt z)) v = absurd (let c = v.quiet in cc)
step-Inv (by_handler up (returns e clean)) v = absurd (let c = v.quiet in cc)

run-Inv : {n : ℕ} {s : World} → Run p4a n s → Inv s
run-Inv here = start-Inv
run-Inv (next r m) = step-Inv m (run-Inv r)

-- What the screen says of a child: nothing if it was not forked, and once that it has ended if it was.
abbrev pub IsReported : List Line → ℕ → Child → Type 0
IsReported lines j c =
    ((c ≡ unborn) × (reports_of j lines ≡ 0)) ⊎ ((c ≡ gone) × (reports_of j lines ≡ 1))

reported :
    (lines : List Line) (j : ℕ) (c : Child)
    → as_there c ≡ 0
    → reports_of j lines ≡ as_gone c
    → IsReported lines j c
reported lines j unborn t h = inl (refl, h)
reported lines j gone t h = inr (refl, h)
reported lines j starting t h = absurd cc
reported lines j working t h = absurd cc
reported lines j leaving t h = absurd cc
reported lines j zombie t h = absurd cc

-- When p4a.c has ended, its lines name each child that was forked exactly once as terminated, with the
-- exit code that it had, and no other process; and each has been waited for.
pub p4a-reports :
    {n : ℕ} {s : World}
    → Run p4a n s
    → s.parent ≡ done
    → All IsExact s.screen × ((j : ℕ) → j < 3 → IsReported s.screen j (s.child j))
p4a-reports {s = s} r e =
    let v = run-Inv r in
    let w : Waited done (left s.child) = subst (λ q. Waited q (left s.child)) e v.waited in
    (
      v.exact,
      λ j lt.
          let b : about j s.parent ≡ 0 = rw e refl in
          reported s.screen j (s.child j) (omega (arith, w, left_counts s.child j lt))
            (omega (arith, v.one j lt, b)),
    )
