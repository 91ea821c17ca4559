-- ===== src/Exercises/Children/Reaped.antt =====
-- The zombies of p5b.c: when there are some.
use feup_sope.Base.{ℕ, ◌<◌, ◌≡◌, ◌≢◌, Option, Bool, false, update, updated}
use feup_sope.Exercises.Children.{
  Answer, Child, unborn, starting, working, leaving, zombie, gone, Program, p5b, World, idle,
  NoZombie, Wait, takes, lives, fails, ChildStep, begins, wakes, exits, ParentStep, forks,
  fork_fails, forked, task, slept, announces, waits, reports, ends, HandlerStep, delivers, prints,
  reaps, returns, Step, by_child, by_parent, by_handler, Run, here, next, adopted,
}

-- Where SIGCHLD is not pending, and the handler is not in its loop, there are no zombies.
abbrev pub Quiet : World → Type 0
Quiet s = s.pending ≡ false → s.handler ≡ idle → NoZombie s.child

pub NoZombie-update :
    (child : ℕ → Child) (i : ℕ) (c : Child)
    → c ≢ zombie
    → NoZombie child
    → NoZombie (update child i c)
NoZombie-update child i c ne h =
    updated child i c (λ j b. j < 3 → b ≢ zombie) (λ lt. ne) λ j other. h j

NoZombie-Wait :
    {hang : Bool} {child child' : ℕ → Child} {status status' : Option ℕ} {a : Answer}
    → Wait hang child status a child' status'
    → NoZombie child
    → NoZombie child'
NoZombie-Wait {child = child} (takes j lt e) h = NoZombie-update child j gone (λ q. cc) h
NoZombie-Wait (lives j n h' lt e) h = h
NoZombie-Wait (fails h') h = h

pub adopted_no_zombie : (c : Child) → adopted c ≢ zombie
adopted_no_zombie unborn e = absurd cc
adopted_no_zombie starting e = absurd cc
adopted_no_zombie working e = absurd cc
adopted_no_zombie leaving e = absurd cc
adopted_no_zombie zombie e = absurd cc
adopted_no_zombie gone e = absurd cc

-- The steps of the parent wake no zombie.
parent-Quiet : {p : Program} {s t : World} → ParentStep p s t → Quiet s → Quiet t
parent-Quiet {s = s} (forks i e lt) v pe ha = NoZombie-update s.child i starting (λ q. cc) (v pe ha)
parent-Quiet (fork_fails i e lt) v pe ha = v pe ha
parent-Quiet (forked i e le) v pe ha = v pe ha
parent-Quiet (task i e lt) v pe ha = v pe ha
parent-Quiet (slept i e) v pe ha = v pe ha
parent-Quiet (announces i e) v pe ha = v pe ha
parent-Quiet (waits i a child status e w) v pe ha = NoZombie-Wait w (v pe ha)
parent-Quiet (reports i a e) v pe ha = v pe ha
parent-Quiet {s = s} (ends i e le) v pe ha = λ j lt. adopted_no_zombie (s.child j)

child-Quiet : {s : World} (i : ℕ) {t : World} → ChildStep p5b s i t → Quiet s → Quiet t
child-Quiet {s} i (begins e) v pe ha = NoZombie-update s.child i working (λ q. cc) (v pe ha)
child-Quiet {s} i (wakes e) v pe ha = NoZombie-update s.child i leaving (λ q. cc) (v pe ha)
child-Quiet i (exits e) v pe ha = absurd cc

handler-Quiet : {s t : World} → HandlerStep s t → Quiet s → Quiet t
handler-Quiet (delivers e f) v pe ha = absurd cc
handler-Quiet (prints e) v pe ha = absurd cc
handler-Quiet (reaps j e lt z) v pe ha = absurd cc
handler-Quiet (returns e none_left) v pe ha = none_left

step-Quiet : {s t : World} → Step p5b s t → Quiet s → Quiet t
step-Quiet (by_child i lt m) v = child-Quiet i m v
step-Quiet (by_parent h m) v = parent-Quiet m v
step-Quiet (by_handler h m) v = handler-Quiet m v

run-Quiet : {n : ℕ} {s : World} → Run p5b n s → Quiet s
run-Quiet here = λ pe ha j lt e. absurd cc
run-Quiet (next r m) = step-Quiet m (run-Quiet r)

-- In every state of p5b.c in which SIGCHLD is not pending and its handler is not running, no child is
-- a zombie, whatever the order of the steps and however many signals have become one.
pub p5b-no_zombie :
    {n : ℕ} {s : World}
    → Run p5b n s
    → s.pending ≡ false
    → s.handler ≡ idle
    → (j : ℕ) → j < 3
    → s.child j ≢ zombie
p5b-no_zombie r = run-Quiet r
