-- ===== src/Exercises/Children/Progress.antt =====
-- The programs of Exercises/prob04 that wait for children: when there is a next step.
use feup_sope.Base.{
  ℕ, zero, suc, ◌<◌, ◌≡◌, ◌≢◌, refl, Bool, true, false, arith, ◌⊎◌, inl, inr, dec_lt, Bool-cases,
}
use feup_sope.Exercises.Children.{
  Child, unborn, starting, working, leaving, zombie, gone, Program, World, idle, printing, reaping,
  NoZombie, takes, fails, begins, wakes, exits, forks, forked, task, slept, announces, waits,
  reports, ends, prints, reaps, returns, Step, by_child, by_parent, by_handler, ParentPc, forking,
  tasking, sleeping, announcing, waiting, reporting, done, HandlerPc, is_there, is_done,
}

-- What holds of the numbers below 3, and a number below 3 for which something holds, if there is one.
pub below_three {ℓ} : (P : ℕ → Type ℓ) → P 0 → P 1 → P 2 → (j : ℕ) → j < 3 → P j
below_three P a b c zero lt = a
below_three P a b c (suc zero) lt = b
below_three P a b c (suc (suc zero)) lt = c
below_three P a b c (suc (suc (suc j))) lt = absurd (omega (arith, lt))

abbrev Found : (ℕ → Bool) → Type 0
Found q = (j : ℕ) × (j < 3) × (q j ≡ true)

abbrev NotFound : (ℕ → Bool) → Type 0
NotFound q = (j : ℕ) → j < 3 → q j ≡ false

find_three : (q : ℕ → Bool) → Found q ⊎ NotFound q
find_three q = elim (Bool-cases (q 0)) [
  | inl a ↦ inl (0, omega arith, a)
  | inr a ↦ elim (Bool-cases (q 1)) [
    | inl b ↦ inl (1, omega arith, b)
    | inr b ↦ elim (Bool-cases (q 2)) [
      | inl c ↦ inl (2, omega arith, c)
      | inr c ↦ inr (below_three (λ j. q j ≡ false) a b c)
    ]
  ]
]

abbrev is_zombie : Child → Bool
is_zombie zombie = true
is_zombie c = false

abbrev is_living : Child → Bool
is_living starting = true
is_living working = true
is_living leaving = true
is_living c = false

zombie_of : (c : Child) → is_zombie c ≡ true → c ≡ zombie
zombie_of unborn h = absurd cc
zombie_of starting h = absurd cc
zombie_of working h = absurd cc
zombie_of leaving h = absurd cc
zombie_of zombie h = refl
zombie_of gone h = absurd cc

not_there : (c : Child) → is_living c ≡ false → c ≢ zombie → is_there c ≡ false
not_there unborn h z = refl
not_there starting h z = absurd cc
not_there working h z = absurd cc
not_there leaving h z = absurd cc
not_there zombie h z = absurd (z refl)
not_there gone h z = refl

NoZombie-of : (child : ℕ → Child) → NotFound (λ j. is_zombie (child j)) → NoZombie child
NoZombie-of child h j lt e = absurd (let f = h j lt in cc)

abbrev pub GoesOn : Program → World → Type 0
GoesOn p s = (t : World) × Step p s t

child-GoesOn :
    (p : Program) (s : World) (i : ℕ) (c : Child)
    → i < 3
    → s.child i ≡ c
    → is_living c ≡ true
    → GoesOn p s
child-GoesOn p s i unborn lt e h = absurd cc
child-GoesOn p s i starting lt e h = (_, by_child i lt (begins e))
child-GoesOn p s i working lt e h = (_, by_child i lt (wakes e))
child-GoesOn p s i leaving lt e h = (_, by_child i lt (exits e))
child-GoesOn p s i zombie lt e h = absurd cc
child-GoesOn p s i gone lt e h = absurd cc

-- The end of the program: the parent has exited, and no child is left.
abbrev pub IsOver : World → Type 0
IsOver s = (s.parent ≡ done) × ((j : ℕ) → j < 3 → is_there (s.child j) ≡ false)

abbrev NoneLiving : World → Type 0
NoneLiving s = NotFound (λ j. is_living (s.child j))

none_there :
    (s : World) → NoneLiving s → NoZombie s.child → (j : ℕ) → j < 3 → is_there (s.child j) ≡ false
none_there s still clean j lt = not_there (s.child j) (still j lt) (clean j lt)

-- The parent is not held up where no child lives.
parent-GoesOn :
    (p : Program) (s : World) (at : ParentPc)
    → NoneLiving s
    → s.handler ≡ idle
    → s.parent ≡ at
    → at ≢ done
    → GoesOn p s
parent-GoesOn p s (forking i) still h e nd = elim (dec_lt i 3) [
  | yes lt ↦ (_, by_parent h (forks i e lt))
  | no ge ↦ (_, by_parent h (forked i e (omega (arith, ge))))
]
parent-GoesOn p s (tasking i) still h e nd = elim (dec_lt i 4) [
  | yes lt ↦ (_, by_parent h (task i e lt))
  | no ge ↦ (_, by_parent h (ends i e (omega (arith, ge))))
]
parent-GoesOn p s (sleeping i) still h e nd = (_, by_parent h (slept i e))
parent-GoesOn p s (announcing i) still h e nd = (_, by_parent h (announces i e))
parent-GoesOn p s (waiting i) still h e nd = elim (find_three (λ j. is_zombie (s.child j))) [
  | inl (j, lt, z) ↦ (_, by_parent h (waits i _ _ _ e (takes j lt (zombie_of (s.child j) z))))
  | inr clean ↦
      (_, by_parent h (waits i _ _ _ e (fails (none_there s still (NoZombie-of s.child clean)))))
]
parent-GoesOn p s (reporting i a) still h e nd = (_, by_parent h (reports i a e))
parent-GoesOn p s done still h e nd = absurd (nd refl)

main-GoesOn :
    (p : Program) (s : World) (h : HandlerPc) (at : ParentPc)
    → NoneLiving s
    → s.handler ≡ h
    → s.parent ≡ at
    → is_done at ≡ false
    → GoesOn p s
main-GoesOn p s idle at still eh e nd = parent-GoesOn p s at still eh e λ q. absurd cc
main-GoesOn p s printing at still eh e nd =
    let up : is_done s.parent ≡ false = cc in (_, by_handler up (prints eh))
main-GoesOn p s reaping at still eh e nd =
    let up : is_done s.parent ≡ false = cc in
    elim (find_three (λ j. is_zombie (s.child j))) [
      | inl (j, lt, z) ↦ (_, by_handler up (reaps j eh lt (zombie_of (s.child j) z)))
      | inr clean ↦ (_, by_handler up (returns eh (NoZombie-of s.child clean)))
    ]

pub done_of : (at : ParentPc) → is_done at ≡ true → at ≡ done
done_of (forking i) h = absurd cc
done_of (tasking i) h = absurd cc
done_of (sleeping i) h = absurd cc
done_of (announcing i) h = absurd cc
done_of (waiting i) h = absurd cc
done_of (reporting i a) h = absurd cc
done_of done h = refl

pub world-GoesOn :
    (p : Program) (s : World) → (is_done s.parent ≡ true → NoZombie s.child) → IsOver s ⊎ GoesOn p s
world-GoesOn p s clean = elim (find_three (λ j. is_living (s.child j))) [
  | inl (j, lt, h) ↦ inr (child-GoesOn p s j (s.child j) lt refl h)
  | inr still ↦ elim (Bool-cases (is_done s.parent)) [
    | inl d ↦ inl (done_of s.parent d, none_there s still (clean d))
    | inr up ↦ inr (main-GoesOn p s s.handler s.parent still refl refl up)
  ]
]
