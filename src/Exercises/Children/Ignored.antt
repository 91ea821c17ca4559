-- ===== src/Exercises/Children/Ignored.antt =====
-- What p5a.c of Exercises/prob04, which ignores SIGCHLD, prints of the ends of its children.
use feup_sope.Base.{ℕ, ◌+◌, ◌<◌, ◌≡◌, ◌≢◌, refl, Option, none, true, List, ◌∷◌, update, All}
use mathlib.Core.Path.{subst}
use feup_sope.Exercises.Children.{
  Answer, ended, none_yet, no_child, Child, starting, working, leaving, zombie, gone, p5a, World,
  NoZombie, Wait, takes, lives, fails, ChildStep, begins, wakes, exits, ParentStep, forks,
  fork_fails, forked, task, slept, announces, waits, reports, ends, HandlerStep, delivers, prints,
  reaps, returns, by_child, by_parent, by_handler, Run, here, next, adopted, ParentPc, forking,
  tasking, sleeping, announcing, waiting, reporting, done, Line, working_hard, end_of_task,
  waiting_for, terminated, report,
}
use feup_sope.Exercises.Children.Reaped.{NoZombie-update, adopted_no_zombie}

-- A line on the end of a process has the PID 0, and a status that was never written.
abbrev pub IsEmpty : Line → Type 0
IsEmpty (terminated a status) = (a ≡ none_yet) × (status ≡ none)
IsEmpty line = Unit

abbrev NotOfChild : ParentPc → Type 0
NotOfChild (reporting i (ended k)) = ⊥
NotOfChild at = Unit

record Inv (s : World) : Type 0 where
  clean : NoZombie s.child
  unwritten : s.status ≡ none
  none_named : NotOfChild s.parent
  empty_lines : All IsEmpty s.screen

child-Inv : {s : World} (i : ℕ) {t : World} → ChildStep p5a s i t → Inv s → Inv t
child-Inv {s} i (begins e) v = record {
  clean = NoZombie-update s.child i working (λ q. cc) v.clean;
  unwritten = v.unwritten;
  none_named = v.none_named;
  empty_lines = (tt, v.empty_lines);
}
child-Inv {s} i (wakes e) v = record {
  clean = NoZombie-update s.child i leaving (λ q. cc) v.clean;
  unwritten = v.unwritten;
  none_named = v.none_named;
  empty_lines = (tt, v.empty_lines);
}
child-Inv {s} i (exits e) v = record {
  clean = NoZombie-update s.child i gone (λ q. cc) v.clean;
  unwritten = v.unwritten;
  none_named = v.none_named;
  empty_lines = v.empty_lines;
}

-- The parent goes on, and prints a line that is right.
parent-moved :
    {s : World} (child : ℕ → Child) (at : ParentPc) (lines : List Line)
    → NoZombie child
    → NotOfChild at
    → All IsEmpty lines
    → Inv s
    → Inv (record s { child = child; parent = at; screen = lines })
parent-moved child at lines clean named empty v = record {
  clean = clean;
  unwritten = v.unwritten;
  none_named = named;
  empty_lines = empty;
}

Wait-Inv :
    {s : World} (i : ℕ) {a : Answer} {child : ℕ → Child} {status : Option ℕ}
    → Wait true s.child s.status a child status
    → Inv s
    → Inv (record s { parent = reporting i a; child = child; status = status })
Wait-Inv i (takes k lt z) v = absurd (v.clean k lt z)
Wait-Inv {s} i (lives k h clean lt u) v =
    parent-moved s.child (reporting i none_yet) s.screen v.clean tt v.empty_lines v
Wait-Inv {s} i (fails h) v =
    parent-moved s.child (reporting i no_child) s.screen v.clean tt v.empty_lines v

report-Inv :
    {s : World} (i : ℕ) (a : Answer)
    → s.parent ≡ reporting i a
    → Inv s
    → Inv (record s { parent = tasking (i + 1); screen = report a s.status s.screen })
report-Inv {s} i (ended k) e v =
    let named : NotOfChild (reporting i (ended k)) = subst NotOfChild e v.none_named in absurd named
report-Inv {s} i none_yet e v =
    parent-moved s.child (tasking (i + 1)) (terminated none_yet s.status ∷ s.screen) v.clean tt
      ((refl, v.unwritten), v.empty_lines) v
report-Inv {s} i no_child e v =
    parent-moved s.child (tasking (i + 1)) s.screen v.clean tt v.empty_lines v

parent-Inv : {s t : World} → ParentStep p5a s t → Inv s → Inv t
parent-Inv {s} (forks i e lt) v =
    parent-moved (update s.child i starting) (forking (i + 1)) s.screen
      (NoZombie-update s.child i starting (λ q. cc) v.clean) tt v.empty_lines v
parent-Inv {s} (fork_fails i e lt) v =
    parent-moved s.child (forking (i + 1)) s.screen v.clean tt v.empty_lines v
parent-Inv {s} (forked i e le) v =
    parent-moved s.child (tasking 0) s.screen v.clean tt v.empty_lines v
parent-Inv {s} (task i e lt) v =
    parent-moved s.child (sleeping i) (working_hard i ∷ s.screen) v.clean tt (tt, v.empty_lines) v
parent-Inv {s} (slept i e) v =
    parent-moved s.child (announcing i) (end_of_task i ∷ s.screen) v.clean tt (tt, v.empty_lines) v
parent-Inv {s} (announces i e) v =
    parent-moved s.child (waiting i) (waiting_for i ∷ s.screen) v.clean tt (tt, v.empty_lines) v
parent-Inv (waits i a child status e w) v = Wait-Inv i w v
parent-Inv (reports i a e) v = report-Inv i a e v
parent-Inv {s} (ends i e le) v =
    parent-moved (λ j. adopted (s.child j)) done s.screen (λ j lt. adopted_no_zombie (s.child j)) tt
      v.empty_lines v

handler-Inv : {s t : World} → HandlerStep s t → Inv s → Inv t
handler-Inv (delivers e f) v = record {
  clean = v.clean;
  unwritten = v.unwritten;
  none_named = v.none_named;
  empty_lines = v.empty_lines;
}
handler-Inv (prints e) v = record {
  clean = v.clean;
  unwritten = v.unwritten;
  none_named = v.none_named;
  empty_lines = (tt, v.empty_lines);
}
handler-Inv (reaps j e lt z) v = absurd (v.clean j lt z)
handler-Inv (returns e clean) v = record {
  clean = v.clean;
  unwritten = v.unwritten;
  none_named = v.none_named;
  empty_lines = v.empty_lines;
}

run-Inv : {n : ℕ} {s : World} → Run p5a n s → Inv s
run-Inv here = record {
  clean = λ j lt e. absurd cc;
  unwritten = refl;
  none_named = tt;
  empty_lines = tt;
}
run-Inv (next r (by_child i lt m)) = child-Inv i m (run-Inv r)
run-Inv (next r (by_parent h m)) = parent-Inv m (run-Inv r)
run-Inv (next r (by_handler up m)) = handler-Inv m (run-Inv r)

-- In every state of p5a.c no child is a zombie, and each line on the screen that says that a process
-- has terminated has the PID 0 and the exit code of a status that was never written.
pub p5a-reports :
    {n : ℕ} {s : World}
    → Run p5a n s
    → All IsEmpty s.screen × ((j : ℕ) → j < 3 → s.child j ≢ zombie)
p5a-reports r = let v = run-Inv r in (v.empty_lines, v.clean)
