-- ===== src/Exercises/Forks.antt =====
-- Exercises/prob03/p6.c, p6b.c and p6c.c: a father that forks in a loop.
pub mod Count
mod Tests
use feup_sope.Base.{ℕ, zero, suc, Bool, true, false, List, [], ◌∷◌, if◌then◌else◌}
use feup_sope.Base.Merges.{Merge}

-- A line on the screen; the identifiers in it are left out.
pub data Line : Type 0 where
  greeting going_to_work finished_work father_working fork_error : Line

-- A process from some point on, with its children. A wait that does not wait does nothing that shows.
pub data Process : Type 0 where
  exit : ℕ → Process
  print : Line → Process → Process
  fork : Process → Process → Process  -- the child, and the father

-- The lines of a process and its children, in an order in which they can come.
pub data Runs : Process → List Line → Type 0 where
  exits : {n : ℕ} → Runs (exit n) []
  prints : {l : Line} {p : Process} {ls : List Line} → Runs p ls → Runs (print l p) (l ∷ ls)
  forks :
      {c p : Process} {xs ys zs : List Line}
      → Runs c xs
      → Runs p ys
      → Merge xs ys zs
      → Runs (fork c p) zs

-- The loop over `j`.
abbrev pub father_works : ℕ → Process → Process
father_works zero next = next
father_works (suc n) next = print father_working (father_works n next)

-- A round: `forks` is whether fork succeeds. The rest of the loop is in `child` and `father`.
abbrev pub round : Bool → Process → Process → Process
round true child father =
    fork (print going_to_work (print finished_work child)) (father_works 10 father)
round false child father = print fork_error (exit 1)

-- The loop of p6.c and p6b.c, with the rounds that are left. `succeeds` is whether a fork succeeds, by
-- the forks that led to the process, each with whether it is the child of it.
unfoldable pub rounds : (List Bool → Bool) → ℕ → List Bool → Process
rounds succeeds zero path = exit 0
rounds succeeds (suc n) path = round (succeeds path) (exit 0) (rounds succeeds n (false ∷ path))

-- The loop of p6c.c, in which a child goes on.
unfoldable pub all_rounds : (List Bool → Bool) → ℕ → List Bool → Process
all_rounds succeeds zero path = exit 0
all_rounds succeeds (suc n) path =
    round (succeeds path) (all_rounds succeeds n (true ∷ path))
      (all_rounds succeeds n (false ∷ path))

abbrev pub p6 : (List Bool → Bool) → Process
p6 succeeds = print greeting (rounds succeeds 3 [])

abbrev pub p6b : (List Bool → Bool) → Process
p6b succeeds = print greeting (rounds succeeds 3 [])

abbrev pub p6c : (List Bool → Bool) → Process
p6c succeeds = print greeting (all_rounds succeeds 3 [])
