-- ===== src/Exercises/Fill/Joined.antt =====
-- Where the main thread of p1a.c stands, and what it can rely on there.
use feup_sope.Base.{
  ℕ, ◌≤◌, ◌<◌, ◌≡◌, ◌≢◌, refl, sym, ◌∙◌, none, some, [], arith, update, total, total-agree,
  total-eq_zero, Option-cases, inl, inr,
}
use mathlib.Core.Path.{subst}
use feup_sope.Exercises.Fill.{
  Shared, FillPc, locking, returned, FillMove, lock, full, room, leave, store, raise_pos, raise_val,
  unlock, count, MainPc, creating, joining, verifying, done, System, start,
}
use feup_sope.Exercises.Fill.Invariant.{Filled, Knows, uncounted}

-- The first `k` threads have returned, and `total` has their counts.
abbrev pub Joined : ℕ → System → Type 0
Joined k s = ((i : ℕ) → i < k → s.fill i ≡ returned) × (s.total ≡ total (λ c. c) k s.counts)

-- A thread in `fill` has the mutex, or none.
abbrev pub Owned : ℕ → Shared → Type 0
Owned nthr m = (i : ℕ) → m.mutex ≡ some i → i < nthr

-- What holds where the main thread stands; `Verifies` is what the loop of `verify` relies on.
abbrev pub AtMain : (Shared → Type 0) → ℕ → MainPc → System → Type 0
AtMain Verifies nthr (creating k) s = (k ≤ nthr) × Owned nthr s.shared × (s.errors ≡ [])
AtMain Verifies nthr (joining k) s = (k ≤ nthr) × Owned nthr s.shared × (s.errors ≡ []) × Joined k s
AtMain Verifies nthr (verifying k) s = Verifies s.shared × (s.errors ≡ []) × Joined nthr s
AtMain Verifies nthr done s = (s.errors ≡ []) × Joined nthr s

pub record Inv (Verifies : Shared → Type 0) (npos nthr : ℕ) (s : System) : Type 0 where
  pub filled : Filled npos nthr s.shared s.fill s.counts
  pub main : AtMain Verifies nthr s.main s

pub start-Inv : (Verifies : Shared → Type 0) (npos nthr : ℕ) → Inv Verifies npos nthr start
start-Inv Verifies npos nthr = record {
  filled = record {
    within = omega arith;
    right_below = λ k below. absurd (omega (arith, below));
    at_rest = λ e. refl;
    verifier = λ e. refl;
    holder = λ i e. ground arith;
    outside = λ i e. refl;
    knows = λ i. tt;
    counted = ground (
      arith,
      total-eq_zero (λ c. c) nthr (λ i. 0) (λ i. refl),
      total-eq_zero uncounted nthr (λ i. locking) (λ i. refl),
    );
  };
  main = (omega arith, λ i e. absurd cc, refl);
}

-- Behind the joins there is no room, and each position is counted.
pub Joined-full :
    (npos nthr : ℕ) (s : System)
    → 0 < nthr
    → Filled npos nthr s.shared s.fill s.counts
    → Joined nthr s
    → (s.shared.pos ≡ npos) × (s.total ≡ npos)
Joined-full npos nthr s some_thread f (back, sum) =
    let last : npos ≤ s.shared.pos =
      subst (λ q. Knows npos 0 s.shared q) (back 0 some_thread) (f.knows 0) in
    let all : s.shared.pos ≡ npos = omega (arith, f.within, last) in
    let settled : total uncounted nthr s.fill ≡ total uncounted nthr (λ i. returned) =
      total-agree uncounted nthr (λ i. returned) s.fill back in
    (
      all,
      omega (
        arith,
        f.counted,
        settled,
        sum,
        all,
        total-eq_zero uncounted nthr (λ i. returned) (λ i. refl),
      ),
    )

-- A move is of a thread that has not returned.
pub move-running :
    {npos i : ℕ} {m m' : Shared} {c c' : ℕ} {p p' : FillPc}
    → FillMove npos i m c p m' c' p'
    → p ≢ returned
move-running (lock h) e = cc
move-running (full h) e = cc
move-running (room h) e = cc
move-running leave e = cc
move-running store e = cc
move-running raise_pos e = cc
move-running raise_val e = cc
move-running unlock e = cc
move-running count e = cc

-- A thread that has the mutex, or none, behind a move.
pub move-Owned :
    {npos nthr i : ℕ} {m m' : Shared} {c c' : ℕ} {p p' : FillPc}
    → i < nthr
    → FillMove npos i m c p m' c' p'
    → Owned nthr m
    → Owned nthr m'
move-Owned lt (lock h) o j e = ground arith
move-Owned lt (full h) o j e = o j e
move-Owned lt (room h) o j e = o j e
move-Owned lt leave o j e = absurd cc
move-Owned lt store o j e = o j e
move-Owned lt raise_pos o j e = o j e
move-Owned lt raise_val o j e = o j e
move-Owned lt unlock o j e = absurd cc
move-Owned lt count o j e = o j e

-- A thread that moves is not among those that have been waited for.
pub move-Joined :
    {npos i k : ℕ} {m : Shared} {c : ℕ} {p : FillPc} (s : System)
    → FillMove npos i s.shared (s.counts i) (s.fill i) m c p
    → Joined k s
    → Joined k (record s { shared = m; fill = update s.fill i p; counts = update s.counts i c })
move-Joined {i = i} {k = k} {c = c} {p = p} s move (back, sum) =
    let other : (j : ℕ) → j < k → i ≢ j =
      λ j lt e. move-running move (subst (λ x. s.fill x ≡ returned) (sym e) (back j lt)) in
    (
      λ j lt. ground (arith, back j lt, other j lt),
      sum
          ∙ sym (
              total-agree (λ x. x) k s.counts (update s.counts i c)
                λ j lt. ground (arith, other j lt)),
    )

-- The mutex is free behind the joins.
pub Joined-free :
    (npos nthr : ℕ) (s : System)
    → Filled npos nthr s.shared s.fill s.counts
    → Owned nthr s.shared
    → Joined nthr s
    → s.shared.mutex ≡ none
Joined-free npos nthr s f o (back, sum) = elim (Option-cases s.shared.mutex) [
  | inl free ↦ free
  | inr (i, held) ↦ absurd (ground (arith, f.holder i held (o i held), back i (o i held)))
]
