-- ===== src/Exercises/Children/Reports/Moves.antt =====
-- The steps of a child and of the parent of p4a.c, and what holds before and behind them.
use feup_sope.Base.{
  ℕ, ◌+◌, ◌<◌, ◌≡◌, ◌≢◌, refl, sym, Option, true, false, List, ◌∷◌, update, updated, arith,
  total-update, inl, inr, if◌then◌else◌, ap, All, ◌==◌, ==_self, Bool-cases,
}
use mathlib.Core.Path.{subst}
use feup_sope.Exercises.Children.{
  Answer, ended, none_yet, no_child, Child, unborn, working, leaving, zombie, gone, p4a, World,
  Wait, takes, lives, fails, ChildStep, begins, wakes, exits, ParentPc, tasking, waiting, reporting,
  done, Line, child_working, child_exiting, terminated, report, is_done,
}
use feup_sope.Exercises.Children.Progress.{done_of}
use feup_sope.Exercises.Children.Reports.Invariant.{
  about, Known, as_gone, as_there, Waited, Fresh, Fresh-update, left, Inv, left_counts, none_left,
  reports_of, IsExact,
}

-- A child goes on, and is as much there and gone as before.
pub child-moved :
    {s : World} (i : ℕ) (c : Child) (lines : List Line)
    → i < 3
    → s.child i ≢ unborn
    → as_gone c ≡ as_gone (s.child i)
    → as_there c ≡ as_there (s.child i)
    → ((j : ℕ) → reports_of j lines ≡ reports_of j s.screen)
    → All IsExact lines
    → Inv s
    → Inv (record s { child = update s.child i c; screen = lines })
child-moved {s} i c lines lt ne g t same exact v = record {
  calm = v.calm;
  quiet = v.quiet;
  one =
      updated s.child i c (λ j b. j < 3 → reports_of j lines + about j s.parent ≡ as_gone b)
        (λ h. omega (arith, v.one i h, g, same i)) λ j other h. omega (arith, v.one j h, same j);
  exact = exact;
  known = v.known;
  fresh = Fresh-update s.parent s.child i c ne v.fresh;
  waited =
      let e : left s.child ≡ left (update s.child i c) =
        omega (arith, t, total-update as_there 3 s.child i c lt) in
      subst (λ n. Waited s.parent n) e v.waited;
}

pub child-Inv : {s : World} (i : ℕ) {t : World} → i < 3 → ChildStep p4a s i t → Inv s → Inv t
child-Inv {s} i lt (begins e) v =
    child-moved i working (child_working i ∷ s.screen) lt (λ q. cc) (rw e refl) (rw e refl)
      (λ j. refl) (tt, v.exact) v
child-Inv {s} i lt (wakes e) v =
    child-moved i leaving (child_exiting i ∷ s.screen) lt (λ q. cc) (rw e refl) (rw e refl)
      (λ j. refl) (tt, v.exact) v
child-Inv {s} i lt (exits e) v = elim (Bool-cases (is_done s.parent)) [
  | inl d ↦
      let none : Waited done (left s.child) =
        subst (λ at. Waited at (left s.child)) (done_of s.parent d) v.waited in
      let there : as_there (s.child i) ≡ 1 = rw e refl in
      absurd (omega (arith, none, there, left_counts s.child i lt))
  | inr up ↦
      let c : (if is_done s.parent then gone else zombie) ≡ zombie = rw up refl in
      subst (λ b. Inv (record s { child = update s.child i b })) (sym c)
        (child-moved i zombie s.screen lt (λ q. cc) (rw e refl) (rw e refl) (λ j. refl) v.exact v)
]

-- The parent goes on to another place, with the children as they are.
pub parent-moved :
    {s : World} (at at' : ParentPc) (lines : List Line)
    → s.parent ≡ at
    → (Waited at (left s.child) → Waited at' (left s.child))
    → Known at' s.status
    → (Fresh at s.child → Fresh at' s.child)
    → ((j : ℕ) → reports_of j lines + about j at' ≡ reports_of j s.screen + about j at)
    → All IsExact lines
    → Inv s
    → Inv (record s { parent = at'; screen = lines })
parent-moved {s} at at' lines e w k f same exact v = record {
  calm = v.calm;
  quiet = v.quiet;
  one = λ j lt. omega (arith, v.one j lt, same j, ap (about j) e);
  exact = exact;
  known = k;
  fresh = f (subst (λ q. Fresh q s.child) e v.fresh);
  waited = w (subst (λ q. Waited q (left s.child)) e v.waited);
}

pub report-Inv :
    {s : World} (i : ℕ) (a : Answer)
    → s.parent ≡ reporting i a
    → Inv s
    → Inv (record s { parent = tasking (i + 1); screen = report a s.status s.screen })
report-Inv {s} i (ended k) e v =
    let known : Known (reporting i (ended k)) s.status = subst (λ q. Known q s.status) e v.known in
    parent-moved (reporting i (ended k)) (tasking (i + 1))
      (terminated (ended k) s.status ∷ s.screen) e (λ w. omega (arith, w)) tt (λ q. tt)
      (λ j. omega arith) (known, v.exact) v
report-Inv {s} i none_yet e v =
    let known : Known (reporting i none_yet) s.status = subst (λ q. Known q s.status) e v.known in
    absurd known
report-Inv {s} i no_child e v =
    parent-moved (reporting i no_child) (tasking (i + 1)) s.screen e (λ w. omega (arith, w)) tt
      (λ q. tt) (λ j. omega arith) v.exact v

pub Wait-Inv :
    {s : World} (i : ℕ) {a : Answer} {child : ℕ → Child} {status : Option ℕ}
    → s.parent ≡ waiting i
    → Wait false s.child s.status a child status
    → Inv s
    → Inv (record s { parent = reporting i a; child = child; status = status })
Wait-Inv {s} i e (takes k lt z) v = record {
  calm = v.calm;
  quiet = v.quiet;
  one =
      updated s.child k gone
        (λ j b. j < 3 → reports_of j s.screen + about j (reporting i (ended k)) ≡ as_gone b)
        (λ h.
          let g : as_gone (s.child k) ≡ 0 = rw z refl in
          let b : about k s.parent ≡ 0 = rw e refl in
          let o : (k == k) ≡ true = ==_self k in rw o (omega (arith, v.one k h, g, b)))
        λ j other h.
          let o : (j == k) ≡ false = ground (arith, other) in
          let b : about j s.parent ≡ 0 = rw e refl in rw o (omega (arith, v.one j h, b));
  exact = v.exact;
  known = (lt, refl);
  fresh = tt;
  waited =
      let w : Waited (waiting i) (left s.child) = subst (λ q. Waited q (left s.child)) e v.waited in
      let u : as_there (s.child k) ≡ 1 = rw z refl in
      omega (arith, w, u, total-update as_there 3 s.child k gone lt);
}
Wait-Inv i e (lives j h clean lt u) v = absurd cc
Wait-Inv {s} i e (fails h) v =
    parent-moved (waiting i) (reporting i no_child) s.screen e (λ w. inr (none_left s.child h)) tt
      (λ q. tt) (λ j. refl) v.exact v
