-- ===== src/Exercises/Children.antt =====
-- Exercises/prob04/p4a.c, p4b.c, p5a.c and p5b.c: a parent that waits for three children.
pub mod Reaped
pub mod Progress
pub mod Ends
pub mod Reports
pub mod Ignored
mod Tests
use feup_sope.Base.{
  ℕ, ◌+◌, ◌≤◌, ◌<◌, ◌≡◌, ◌≢◌, Option, none, some, Bool, true, false, List, [], ◌∷◌, update,
  if◌then◌else◌,
}

-- A child, to exit and to what the parent does behind it. The children count from 0, and so do the
-- tasks of the parent.
pub data Child : Type 0 where
  unborn : Child  -- not forked, or fork has failed
  starting : Child  -- before its first line
  working : Child  -- in sleep
  leaving : Child  -- before exit(0)
  zombie : Child
  gone : Child  -- waited for, or adopted

-- What wait and waitpid return: the PID of a child, 0 or -1.
pub data Answer : Type 0 where
  ended : ℕ → Answer
  none_yet no_child : Answer

-- A line on the screen. `terminated` has the PID and the status that are printed.
pub data Line : Type 0 where
  child_working child_exiting : ℕ → Line
  working_hard end_of_task waiting_for : ℕ → Line
  terminated : Answer → Option ℕ → Line
  in_handler : Line

-- What SIGCHLD does.
pub data Disposition : Type 0 where
  default ignored handled : Disposition

-- Whether the parent calls wait, or waitpid with WNOHANG.
pub record Program : Type 0 where
  pub on_sigchld : Disposition
  pub nohang : Bool

abbrev pub p4a : Program
p4a = record { on_sigchld = default; nohang = false }

abbrev pub p4b : Program
p4b = record { on_sigchld = default; nohang = true }

abbrev pub p5a : Program
p5a = record { on_sigchld = ignored; nohang = true }

abbrev pub p5b : Program
p5b = record { on_sigchld = handled; nohang = true }

-- Where the parent stands in `main`.
pub data ParentPc : Type 0 where
  forking : ℕ → ParentPc  -- before the test of the first loop
  tasking : ℕ → ParentPc  -- before the test of the second
  sleeping : ℕ → ParentPc  -- in the loop over sleep
  announcing : ℕ → ParentPc  -- before the line that it waits
  waiting : ℕ → ParentPc  -- before wait or waitpid
  reporting : ℕ → Answer → ParentPc  -- before `if (pid != -1)`
  done : ParentPc

-- Where it stands in `sigchld_handler`.
pub data HandlerPc : Type 0 where
  idle printing reaping : HandlerPc

-- `status` has no value before it is written.
pub record World : Type 0 where
  pub child : ℕ → Child
  pub parent : ParentPc
  pub status : Option ℕ
  pub pending : Bool
  pub handler : HandlerPc
  pub screen : List Line  -- the last line first

abbrev pub is_done : ParentPc → Bool
is_done done = true
is_done _ = false

-- What a child is after exit(0), and whether SIGCHLD is pending then.
abbrev pub remains : Disposition → ParentPc → Child
remains ignored at = gone
remains d at = if is_done at then gone else zombie

abbrev pub raised : Disposition → Bool → Bool
raised handled pending = true
raised d pending = pending

-- The parent exits: what zombies there are, init waits for.
abbrev pub adopted : Child → Child
adopted zombie = gone
adopted c = c

abbrev pub is_there : Child → Bool
is_there unborn = false
is_there gone = false
is_there c = true

abbrev pub NoZombie : (ℕ → Child) → Type 0
NoZombie child = (j : ℕ) → j < 3 → child j ≢ zombie

-- The calls wait and waitpid: their answer, what they leave of the children, and of `status`. A wait
-- with no zombie and a child that lives does not return.
pub data Wait (nohang : Bool) (child : ℕ → Child) (status : Option ℕ)
    : Answer → (ℕ → Child) → Option ℕ → Type 0 where
  takes :
      (j : ℕ)
      → j < 3
      → child j ≡ zombie
      → Wait nohang child status (ended j) (update child j gone) (some 0)
  lives :
      (j : ℕ)
      → nohang ≡ true
      → NoZombie child
      → j < 3
      → is_there (child j) ≡ true
      → Wait nohang child status none_yet child status
  fails :
      ((j : ℕ) → j < 3 → is_there (child j) ≡ false)
      → Wait nohang child status no_child child status

-- `if (pid != -1) printf(…)`
abbrev pub report : Answer → Option ℕ → List Line → List Line
report no_child status lines = lines
report answer status lines = terminated answer status ∷ lines

-- The steps of the children.
pub data ChildStep (p : Program) (s : World) (i : ℕ) : World → Type 0 where
  begins :
      s.child i ≡ starting
      → ChildStep p s i
          (record s { child = update s.child i working; screen = child_working i ∷ s.screen })
  wakes :
      s.child i ≡ working
      → ChildStep p s i
          (record s { child = update s.child i leaving; screen = child_exiting i ∷ s.screen })
  exits :
      s.child i ≡ leaving
      → ChildStep p s i (record s {
        child = update s.child i (remains p.on_sigchld s.parent);
        pending = raised p.on_sigchld s.pending;
      })

-- The steps of the parent in `main`.
pub data ParentStep (p : Program) (s : World) : World → Type 0 where
  forks :
      (i : ℕ)
      → s.parent ≡ forking i
      → i < 3
      → ParentStep p s (record s { child = update s.child i starting; parent = forking (i + 1) })
  fork_fails :
      (i : ℕ)
      → s.parent ≡ forking i
      → i < 3
      → ParentStep p s (record s { parent = forking (i + 1) })
  forked : (i : ℕ) → s.parent ≡ forking i → 3 ≤ i → ParentStep p s (record s { parent = tasking 0 })
  task :
      (i : ℕ)
      → s.parent ≡ tasking i
      → i < 4
      → ParentStep p s (record s { parent = sleeping i; screen = working_hard i ∷ s.screen })
  slept :
      (i : ℕ)
      → s.parent ≡ sleeping i
      → ParentStep p s (record s { parent = announcing i; screen = end_of_task i ∷ s.screen })
  announces :
      (i : ℕ)
      → s.parent ≡ announcing i
      → ParentStep p s (record s { parent = waiting i; screen = waiting_for i ∷ s.screen })
  waits :
      (i : ℕ) (a : Answer) (child : ℕ → Child) (status : Option ℕ)
      → s.parent ≡ waiting i
      → Wait p.nohang s.child s.status a child status
      → ParentStep p s (record s { parent = reporting i a; child = child; status = status })
  reports :
      (i : ℕ) (a : Answer)
      → s.parent ≡ reporting i a
      → ParentStep p s (record s { parent = tasking (i + 1); screen = report a s.status s.screen })
  ends :
      (i : ℕ)
      → s.parent ≡ tasking i
      → 4 ≤ i
      → ParentStep p s (record s { parent = done; child = λ j. adopted (s.child j) })

-- The steps of `sigchld_handler`, during which SIGCHLD is blocked. `pending` is only set where it is
-- installed.
pub data HandlerStep (s : World) : World → Type 0 where
  delivers :
      s.handler ≡ idle
      → s.pending ≡ true
      → HandlerStep s (record s { handler = printing; pending = false })
  prints :
      s.handler ≡ printing
      → HandlerStep s (record s { handler = reaping; screen = in_handler ∷ s.screen })
  reaps :
      (j : ℕ)
      → s.handler ≡ reaping
      → j < 3
      → s.child j ≡ zombie
      → HandlerStep s (record s { child = update s.child j gone })
  returns : s.handler ≡ reaping → NoZombie s.child → HandlerStep s (record s { handler = idle })

-- The parent goes on in `main` while it is not in the handler, and a parent that has exited gets no
-- signal.
pub data Step (p : Program) (s : World) : World → Type 0 where
  by_child : {t : World} (i : ℕ) → i < 3 → ChildStep p s i t → Step p s t
  by_parent : {t : World} → s.handler ≡ idle → ParentStep p s t → Step p s t
  by_handler : {t : World} → is_done s.parent ≡ false → HandlerStep s t → Step p s t

abbrev pub start : World
start = record {
  child = λ j. unborn;
  parent = forking 0;
  status = none;
  pending = false;
  handler = idle;
  screen = [];
}

-- The runs, with their number of steps.
pub data Run (p : Program) : ℕ → World → Type 0 where
  here : Run p 0 start
  next : {n : ℕ} {s t : World} → Run p n s → Step p s t → Run p (n + 1) t
