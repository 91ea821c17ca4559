-- ===== src/Exercises/Fill/Steps.antt =====
-- Every step of p1a.c, and of the programs that differ in what is around the loop of `verify`, keeps
-- the invariant.
use feup_sope.Base.{ℕ, ◌≤◌, ◌<◌, ◌≡◌, refl, sym, none, arith, update, total-zero, total-suc}
use mathlib.Core.Path.{subst}
use feup_sope.Exercises.Fill.{
  Shared, FillPc, FillMove, MainPc, creating, joining, verifying, done, System, Program,
  created_threads, Step, by_fill, create, all_created, join, all_joined, right, wrong, verified,
}
use feup_sope.Exercises.Fill.Invariant.{Filled, move-Filled}
use feup_sope.Exercises.Fill.Joined.{
  Joined, AtMain, Inv, Joined-full, move-running, move-Owned, move-Joined, Joined-free,
}

-- What is around the loop of `verify`, and what the threads rely on there: `Verifies` holds in the
-- loop.
pub record Verification (npos nthr : ℕ) : Type 1 where
  pub begin : ℕ → Shared → Shared → Type 0
  pub end : ℕ → Shared → Shared → Type 0
  pub Verifies : Shared → Type 0
  pub begins :
      (m m' : Shared) (fill : ℕ → FillPc) (counts : ℕ → ℕ)
      → m.mutex ≡ none
      → begin nthr m m'
      → Filled npos nthr m fill counts
      → Verifies m' × Filled npos nthr m' fill counts
  pub ends :
      (m m' : Shared) (fill : ℕ → FillPc) (counts : ℕ → ℕ)
      → Verifies m
      → end nthr m m'
      → Filled npos nthr m fill counts
      → Filled npos nthr m' fill counts
  pub can_begin : (m : Shared) → m.mutex ≡ none → (m' : Shared) × begin nthr m m'
  pub can_end : (m : Shared) → (m' : Shared) × end nthr m m'

-- The program with these two around the loop of `verify`.
abbrev pub with_verify : {npos nthr : ℕ} → Verification npos nthr → Program
with_verify around = record {
  FillMoves = FillMove;
  verify_begin = around.begin;
  verify_end = around.end;
}

module _ {npos nthr : ℕ} (around : Verification npos nthr) where
  pub by_fill-AtMain :
      {i : ℕ} {m : Shared} {c : ℕ} {p : FillPc} (pc : MainPc) (s : System)
      → i < created_threads nthr pc
      → FillMove npos i s.shared (s.counts i) (s.fill i) m c p
      → AtMain around.Verifies nthr pc s
      → AtMain around.Verifies nthr pc
          (record s { shared = m; fill = update s.fill i p; counts = update s.counts i c })
  by_fill-AtMain (creating k) s lt move (le, owned, none_wrong) =
      (le, move-Owned (omega arith) move owned, none_wrong)
  by_fill-AtMain (joining k) s lt move (le, owned, none_wrong, joined) =
      (le, move-Owned lt move owned, none_wrong, move-Joined s move joined)
  by_fill-AtMain (verifying k) s lt move (v, none_wrong, joined) =
      absurd (move-running move (joined.0 _ lt))
  by_fill-AtMain done s lt move (none_wrong, joined) = absurd (move-running move (joined.0 _ lt))

  pub created_le :
      (pc : MainPc) (s : System) → AtMain around.Verifies nthr pc s → created_threads nthr pc ≤ nthr
  created_le (creating k) s a = a.0
  created_le (joining k) s a = omega arith
  created_le (verifying k) s a = omega arith
  created_le done s a = omega arith

  pub Step-Inv :
      {s t : System}
      → 0 < nthr
      → Step (with_verify around) npos nthr s t
      → Inv around.Verifies npos nthr s
      → Inv around.Verifies npos nthr t
  Step-Inv {s} some_thread (by_fill i lt move) v = record {
    filled =
        move-Filled s.fill s.counts (omega (arith, lt, created_le s.main s v.main)) move refl
          v.filled;
    main = by_fill-AtMain s.main s lt move v.main;
  }
  Step-Inv {s} some_thread (create k e lt) v =
      let a : AtMain around.Verifies nthr (creating k) s =
        subst (λ pc. AtMain around.Verifies nthr pc s) e v.main in
      record { filled = v.filled; main = (omega (arith, lt), a.1, a.2) }
  Step-Inv {s} some_thread (all_created k e le) v =
      let a : AtMain around.Verifies nthr (creating k) s =
        subst (λ pc. AtMain around.Verifies nthr pc s) e v.main in
      record {
        filled = v.filled;
        main = (
          omega arith,
          a.1,
          a.2,
          (λ i lt. absurd (omega (arith, lt)), sym (total-zero (λ x. x) s.counts)),
        );
      }
  Step-Inv {s} some_thread (join k e lt back) v =
      let a : AtMain around.Verifies nthr (joining k) s =
        subst (λ pc. AtMain around.Verifies nthr pc s) e v.main in
      record {
        filled = v.filled;
        main = (
          omega (arith, lt),
          a.1,
          a.2,
          (
            λ i below. ground (arith, back, a.3.0 i),
            ground (arith, a.3.1, total-suc (λ x. x) k s.counts),
          ),
        );
      }
  Step-Inv {s} some_thread (all_joined k {m = m} e le b) v =
      let a : AtMain around.Verifies nthr (joining k) s =
        subst (λ pc. AtMain around.Verifies nthr pc s) e v.main in
      let joined : Joined nthr s = subst (λ j. Joined j s) (omega (arith, le, a.0)) a.3 in
      let (verifies, filled) : around.Verifies m × Filled npos nthr m s.fill s.counts =
        around.begins s.shared m s.fill s.counts (Joined-free npos nthr s v.filled a.1 joined) b
          v.filled in
      record { filled = filled; main = (verifies, a.2, joined) }
  Step-Inv {s} some_thread (right k e lt same) v = record {
    filled = v.filled;
    main = subst (λ pc. AtMain around.Verifies nthr pc s) e v.main;
  }
  Step-Inv {s} some_thread (wrong k e lt ne) v =
      let a : AtMain around.Verifies nthr (verifying k) s =
        subst (λ pc. AtMain around.Verifies nthr pc s) e v.main in
      let full : s.shared.pos ≡ npos = (Joined-full npos nthr s some_thread v.filled a.2).0 in
      absurd (ne (v.filled.right_below k (omega (arith, lt, full))))
  Step-Inv {s} some_thread (verified k {m = m} e le f) v =
      let a : AtMain around.Verifies nthr (verifying k) s =
        subst (λ pc. AtMain around.Verifies nthr pc s) e v.main in
      record { filled = around.ends s.shared m s.fill s.counts a.0 f v.filled; main = (a.1, a.2) }
