-- ===== src/Exercises/Children/Reports/Invariant.antt =====
-- What holds of the parent, the children and the lines of p4a.c in every reachable state.
use feup_sope.Base.{
  ℕ, ◌+◌, ◌≤◌, ◌<◌, ◌≡◌, ◌≢◌, refl, Option, some, false, List, [], ◌∷◌, update, updated, arith,
  total, total-update, total-zero, total-suc, ◌⊎◌, if◌then◌else◌, All, ◌==◌,
}
use feup_sope.Exercises.Children.{
  ended, none_yet, Child, unborn, starting, working, leaving, zombie, gone, World, idle, adopted,
  start, ParentPc, forking, tasking, sleeping, announcing, waiting, reporting, done, Line,
  terminated, is_there,
}

-- How many lines say that a child has ended, with a status.
abbrev pub reports_of : ℕ → List Line → ℕ
reports_of j [] = 0
reports_of j (terminated (ended k) status ∷ lines) = (if j == k then 1 else 0) + reports_of j lines
reports_of j (line ∷ lines) = reports_of j lines

-- A line that says that a process has ended names a child, and the status that this has left.
abbrev pub IsExact : Line → Type 0
IsExact (terminated (ended k) status) = (k < 3) × (status ≡ some 0)
IsExact (terminated a status) = ⊥
IsExact line = Unit

-- The line that the parent is about to print.
abbrev pub about : ℕ → ParentPc → ℕ
about j (reporting i (ended k)) = if j == k then 1 else 0
about j at = 0

abbrev pub Known : ParentPc → Option ℕ → Type 0
Known (reporting i (ended k)) status = (k < 3) × (status ≡ some 0)
Known (reporting i none_yet) status = ⊥
Known at status = Unit

abbrev pub as_gone : Child → ℕ
as_gone gone = 1
as_gone c = 0

abbrev pub as_there : Child → ℕ
as_there c = if is_there c then 1 else 0

-- How many children there are at most, by how often the parent has waited.
abbrev pub Waited : ParentPc → ℕ → Type 0
Waited (forking i) n = (i ≤ 3) × (n ≤ i)
Waited (tasking i) n = (n + i ≤ 3) ⊎ (n ≡ 0)
Waited (sleeping i) n = (n + i ≤ 3) ⊎ (n ≡ 0)
Waited (announcing i) n = (n + i ≤ 3) ⊎ (n ≡ 0)
Waited (waiting i) n = (n + i ≤ 3) ⊎ (n ≡ 0)
Waited (reporting i a) n = (n + i + 1 ≤ 3) ⊎ (n ≡ 0)
Waited done n = n ≡ 0

-- The children that are still to be forked.
abbrev pub Fresh : ParentPc → (ℕ → Child) → Type 0
Fresh (forking i) child = (j : ℕ) → i ≤ j → child j ≡ unborn
Fresh at child = Unit

pub Fresh-update :
    (at : ParentPc) (child : ℕ → Child) (i : ℕ) (c : Child)
    → child i ≢ unborn
    → Fresh at child
    → Fresh at (update child i c)
Fresh-update (forking k) child i c ne f =
    updated child i c (λ j b. k ≤ j → b ≡ unborn) (λ le. absurd (ne (f i le))) λ j other. f j
Fresh-update (tasking k) child i c ne f = tt
Fresh-update (sleeping k) child i c ne f = tt
Fresh-update (announcing k) child i c ne f = tt
Fresh-update (waiting k) child i c ne f = tt
Fresh-update (reporting k a) child i c ne f = tt
Fresh-update done child i c ne f = tt

abbrev pub left : (ℕ → Child) → ℕ
left child = total as_there 3 child

pub record Inv (s : World) : Type 0 where
  pub calm : s.pending ≡ false
  pub quiet : s.handler ≡ idle
  pub one : (j : ℕ) → j < 3 → reports_of j s.screen + about j s.parent ≡ as_gone (s.child j)
  pub exact : All IsExact s.screen
  pub known : Known s.parent s.status
  pub fresh : Fresh s.parent s.child
  pub waited : Waited s.parent (left s.child)

pub start-Inv : Inv start
start-Inv = record {
  calm = refl;
  quiet = refl;
  one = λ j lt. refl;
  exact = tt;
  known = tt;
  fresh = λ j le. refl;
  waited =
      let child : ℕ → Child = λ j. unborn in
      (
        omega arith,
        omega (
          arith,
          total-zero as_there child,
          total-suc as_there 0 child,
          total-suc as_there 1 child,
          total-suc as_there 2 child,
        ),
      );
}

-- A child is one of those that there are.
pub left_counts : (child : ℕ → Child) (j : ℕ) → j < 3 → as_there (child j) ≤ left child
left_counts child j lt = omega (arith, total-update as_there 3 child j gone lt)

pub adopted_same : (c : Child) → as_there c ≡ 0 → adopted c ≡ c
adopted_same unborn h = refl
adopted_same starting h = absurd cc
adopted_same working h = absurd cc
adopted_same leaving h = absurd cc
adopted_same zombie h = absurd cc
adopted_same gone h = refl

pub adopted_there : (c : Child) → as_there (adopted c) ≤ as_there c
adopted_there unborn = omega arith
adopted_there starting = omega arith
adopted_there working = omega arith
adopted_there leaving = omega arith
adopted_there zombie = omega arith
adopted_there gone = omega arith

pub none_left :
    (child : ℕ → Child) → ((j : ℕ) → j < 3 → is_there (child j) ≡ false) → left child ≡ 0
none_left child h =
    let a : as_there (child 0) ≡ 0 = rw (h 0 (omega arith)) refl in
    let b : as_there (child 1) ≡ 0 = rw (h 1 (omega arith)) refl in
    let c : as_there (child 2) ≡ 0 = rw (h 2 (omega arith)) refl in
    omega (
      arith,
      a,
      b,
      c,
      total-zero as_there child,
      total-suc as_there 0 child,
      total-suc as_there 1 child,
      total-suc as_there 2 child,
    )
