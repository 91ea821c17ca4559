-- ===== src/Exercises/Children/Tests.antt =====
-- Runs of the programs of Exercises/prob04 that wait for children.
use feup_sope.Base.{ℕ, ◌+◌, ◌≤◌, ◌<◌, ◌≡◌, ◌≢◌, refl, none, false, [], ◌∷◌, update, arith, All, ◌⊎◌}
use feup_sope.Exercises.Children.{
  Child, zombie, gone, Program, p4a, p5a, p5b, World, takes, lives, fails, begins, wakes, exits,
  forks, fork_fails, forked, task, slept, announces, waits, reports, ends, delivers, prints, reaps,
  returns, idle, tasking, NoZombie, terminated, child_exiting, child_working, waiting, waiting_for,
  end_of_task, working_hard, no_child, by_child, by_parent, by_handler, Run, here, next, is_there,
  none_yet,
}
use feup_sope.Exercises.Children.Progress.{below_three, IsOver, GoesOn}
use feup_sope.Exercises.Children.Reaped.{p5b-no_zombie}
use feup_sope.Exercises.Children.Reports.Invariant.{IsExact}
use feup_sope.Exercises.Children.Reports.{IsReported, p4a-reports}
use feup_sope.Exercises.Children.Ends.{children-ends}

-- A run with the state that it ends in.
abbrev Ran : Program → ℕ → Type 0
Ran p n = (s : World) × Run p n s

-- A child is forked, two forks fail, and the child works.
abbrev one_works : (p : Program) → Ran p 6
one_works p = (
  _,
  next
      (next
        (next
          (next
            (next (next here (by_parent refl (forks 0 refl (omega arith))))
              (by_parent refl (fork_fails 1 refl (omega arith))))
            (by_parent refl (fork_fails 2 refl (omega arith))))
          (by_parent refl (forked 3 refl (omega arith))))
        (by_child 0 (omega arith) (begins refl)))
      (by_child 0 (omega arith) (wakes refl)),
)

-- The child has exited.
abbrev one_exits : (p : Program) → Ran p 7
one_exits p = (_, next (one_works p).1 (by_child 0 (omega arith) (exits refl)))

-- The parent comes to its call of wait or waitpid.
abbrev to_wait :
    {p : Program} {n : ℕ} (i : ℕ) {s : World}
    → Run p n s
    → s.handler ≡ idle
    → s.parent ≡ tasking i
    → i < 4
    → Run p (n + 1 + 1 + 1) (record s {
      parent = waiting i;
      screen = waiting_for i ∷ end_of_task i ∷ working_hard i ∷ s.screen;
    })
to_wait i r h e lt =
    next (next (next r (by_parent h (task i e lt))) (by_parent h (slept i refl)))
      (by_parent h (announces i refl))

-- A task behind which no child is left.
abbrev round_alone :
    {p : Program} {n : ℕ} (i : ℕ) {s : World}
    → Run p n s
    → s.handler ≡ idle
    → s.parent ≡ tasking i
    → i < 4
    → ((j : ℕ) → j < 3 → is_there (s.child j) ≡ false)
    → Run p (n + 1 + 1 + 1 + 1 + 1) (record s {
      parent = tasking (i + 1);
      screen = waiting_for i ∷ end_of_task i ∷ working_hard i ∷ s.screen;
    })
round_alone i r h e lt alone =
    next (next (to_wait i r h e lt) (by_parent h (waits i no_child _ _ refl (fails alone))))
      (by_parent h (reports i no_child refl))

-- The parent takes the child, and then finds none.
abbrev first_taken : Ran p4a 12
first_taken = (
  _,
  next
      (next (to_wait 0 (one_exits p4a).1 refl refl (omega arith))
        (by_parent refl (waits 0 _ _ _ refl (takes 0 (omega arith) refl))))
      (by_parent refl (reports 0 _ refl)),
)

abbrev p4a_run : Ran p4a 28
p4a_run =
    let alone : (j : ℕ) → j < 3 → is_there (first_taken.0.child j) ≡ false =
      below_three (λ j. is_there (first_taken.0.child j) ≡ false) refl refl refl in
    (
      _,
      next
          (round_alone 3
            (round_alone 2 (round_alone 1 first_taken.1 refl refl (omega arith) alone) refl refl
              (omega arith) alone)
            refl refl (omega arith) alone)
          (by_parent refl (ends 4 refl (omega arith))),
    )

p4a-reports_example :
    All IsExact p4a_run.0.screen
    × ((j : ℕ) → j < 3 → IsReported p4a_run.0.screen j (p4a_run.0.child j))
p4a-reports_example = p4a-reports p4a_run.1 refl

children-ends_example : (7 ≤ 54) × (IsOver (one_exits p5b).0 ⊎ GoesOn p5b (one_exits p5b).0)
children-ends_example = children-ends p5b (one_exits p5b).1

abbrev one_child : ℕ → Child
one_child = update (one_exits p5b).0.child 0 gone

one_child_clean : NoZombie one_child
one_child_clean =
    below_three (λ j. one_child j ≢ zombie) (λ e. absurd cc) (λ e. absurd cc) (λ e. absurd cc)

-- The handler has taken the child.
abbrev one_handled : Ran p5b 11
one_handled = (
  _,
  next
      (next
        (next (next (one_exits p5b).1 (by_handler refl (delivers refl refl)))
          (by_handler refl (prints refl)))
        (by_handler refl (reaps 0 refl (omega arith) refl)))
      (by_handler refl (returns refl one_child_clean)),
)

p5b-no_zombie_example : one_handled.0.child 0 ≢ zombie
p5b-no_zombie_example = p5b-no_zombie one_handled.1 refl refl 0 (omega arith)

none_zombie : NoZombie (one_works p5a).0.child
none_zombie =
    below_three (λ j. (one_works p5a).0.child j ≢ zombie) (λ e. absurd cc) (λ e. absurd cc)
      (λ e. absurd cc)

-- The child of p5a.c works while the parent calls waitpid and prints what it returns.
abbrev one_printed : Ran p5a 11
one_printed = (
  _,
  next
      (next (to_wait 0 (one_works p5a).1 refl refl (omega arith))
        (by_parent refl (waits 0 _ _ _ refl (lives 0 refl none_zombie (omega arith) refl))))
      (by_parent refl (reports 0 _ refl)),
)

-- Its first line is about no process.
p5a_line :
    one_printed.0.screen
    ≡ terminated none_yet none
      ∷ waiting_for 0
      ∷ end_of_task 0
      ∷ working_hard 0
      ∷ child_exiting 0
      ∷ child_working 0
      ∷ []
p5a_line = refl
