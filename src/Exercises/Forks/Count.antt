-- ===== src/Exercises/Forks/Count.antt =====
-- How many lines the programs of Exercises/prob03 that fork in a loop print.
use feup_sope.Base.{
  ℕ, zero, suc, ◌+◌, ◌*◌, ◌^◌, ◌≡◌, refl, arith, Bool, true, false, List, [], ◌∷◌, ◌++◌,
  if◌then◌else◌, Bool-cases, inl, inr,
}
use feup_sope.Base.Merges.{count, count-Merge, Merge-append}
use feup_sope.Exercises.Forks.{
  Line, finished_work, father_working, fork_error, Process, exit, print, fork, Runs, exits, prints,
  forks, rounds, all_rounds,
}

abbrev count_process : (Line → Bool) → Process → ℕ
count_process q (exit n) = 0
count_process q (print l p) = (if q l then 1 else 0) + count_process q p
count_process q (fork c p) = count_process q c + count_process q p

count-Runs :
    (q : Line → Bool) {p : Process} {ls : List Line} → Runs p ls → count q ls ≡ count_process q p
count-Runs q exits = refl
count-Runs q (prints r) = omega (arith, count-Runs q r)
count-Runs q (forks c p m) = omega (arith, count-Merge q m, count-Runs q c, count-Runs q p)

-- A child that has worked, and a father at work.
abbrev pub is_finished : Line → Bool
is_finished finished_work = true
is_finished l = false

abbrev pub is_father : Line → Bool
is_father father_working = true
is_father l = false

abbrev pub is_error : Line → Bool
is_error fork_error = true
is_error l = false

module _ (succeeds : List Bool → Bool) where
  -- Where no line says that a fork has failed, what the loops print.
  rounds_count :
      (n : ℕ) (path : List Bool)
      → count_process is_error (rounds succeeds n path) ≡ 0
      → (count_process is_finished (rounds succeeds n path) ≡ n)
        × (count_process is_father (rounds succeeds n path) ≡ 10 * n)
  unfolding rounds
  rounds_count zero path h = (refl, refl)
  rounds_count (suc n) path h = elim (Bool-cases (succeeds path)) [
    | inl e ↦
        let (a, b) = rounds_count n (false ∷ path) (ground (arith, e, h)) in
        (ground (arith, e, a), ground (arith, e, b))
    | inr e ↦ absurd (ground (arith, e, h))
  ]

  all_rounds_count :
      (n : ℕ) (path : List Bool)
      → count_process is_error (all_rounds succeeds n path) ≡ 0
      → (count_process is_finished (all_rounds succeeds n path) + 1 ≡ 2 ^ n)
        × (count_process is_father (all_rounds succeeds n path) + 10 ≡ 10 * 2 ^ n)
  unfolding all_rounds
  all_rounds_count zero path h = (refl, refl)
  all_rounds_count (suc n) path h = elim (Bool-cases (succeeds path)) [
    | inl e ↦
        let (a, b) = all_rounds_count n (false ∷ path) (ground (arith, e, h)) in
        let (c, d) = all_rounds_count n (true ∷ path) (ground (arith, e, h)) in
        (ground (arith, e, a, c), ground (arith, e, b, d))
    | inr e ↦ absurd (ground (arith, e, h))
  ]

-- Every process has a run, in which each child comes before what its father goes on with.
abbrev pub run_of : (p : Process) → (ls : List Line) × Runs p ls
run_of (exit n) = ([], exits)
run_of (print l p) = let (ls, r) = run_of p in (l ∷ ls, prints r)
run_of (fork c p) =
    let (xs, first) = run_of c in
    let (ys, second) = run_of p in (xs ++ ys, forks first second (Merge-append xs ys))

-- In whatever order the lines of the processes come, if none says that a fork has failed: `n` rounds of
-- p6.c end the work of `n` children, with 10 lines of a father for each, and `n` rounds of p6c.c, whose
-- children go on in the loop, that of 2 ^ n - 1, with 10 lines of a father for each of these.
pub rounds-all_rounds :
    (succeeds : List Bool → Bool) (n : ℕ) {ls ms : List Line}
    → Runs (rounds succeeds n []) ls
    → Runs (all_rounds succeeds n []) ms
    → count is_error ls ≡ 0
    → count is_error ms ≡ 0
    → (count is_finished ls ≡ n)
      × (count is_father ls ≡ 10 * n)
      × (count is_finished ms + 1 ≡ 2 ^ n)
      × (count is_father ms + 10 ≡ 10 * 2 ^ n)
rounds-all_rounds succeeds n r s no_error none_either =
    let (a, b) = rounds_count succeeds n [] (omega (arith, no_error, count-Runs is_error r)) in
    let (c, d) =
      all_rounds_count succeeds n [] (omega (arith, none_either, count-Runs is_error s)) in
    (
      omega (arith, a, count-Runs is_finished r),
      omega (arith, b, count-Runs is_father r),
      omega (arith, c, count-Runs is_finished s),
      omega (arith, d, count-Runs is_father s),
    )
