-- ===== src/Exercises/Fill/Ends.antt =====
-- How p1a.c and p3.c of Exercises/prob07 come to their end.
use feup_sope.Base.{
  ℕ, zero, suc, ◌+◌, ◌*◌, ◌-◌, ◌≤◌, ◌<◌, ◌≡◌, ◌≢◌, refl, none, [], arith, total, total-update,
  Option-cases, ◌⊎◌, inl, inr, dec_lt, ℕ_discrete, total-zero, total-suc,
}
use mathlib.Core.Path.{subst}
use feup_sope.Exercises.Fill.{
  Shared, FillPc, locking, testing, leaving, storing, raising_pos, raising_val, unlocking, counting,
  returned, FillMove, lock, full, room, leave, store, raise_pos, raise_val, unlock, count, MainPc,
  creating, joining, verifying, done, System, created_threads, Step, by_fill, create, all_created,
  join, all_joined, right, wrong, verified, start, Run, here, next,
}
use feup_sope.Exercises.Fill.Invariant.{Filled, Knows, holding}
use feup_sope.Exercises.Fill.Steps.{with_verify, Step-Inv, Verification, created_le}
use feup_sope.Exercises.Fill.Joined.{
  AtMain, Inv, start-Inv, Joined-free, Owned, Joined, Joined-full,
}

-- More than the steps a thread takes before the next position is taken, or it returns.
abbrev pub fill_rest : FillPc → ℕ
fill_rest locking = 5
fill_rest testing = 4
fill_rest leaving = 3
fill_rest storing = 3
fill_rest raising_pos = 2
fill_rest raising_val = 9
fill_rest unlocking = 8
fill_rest counting = 7
fill_rest returned = 0

-- The steps of the main thread and of `verify` that are left.
abbrev pub main_rest : ℕ → ℕ → MainPc → ℕ
main_rest npos nthr (creating k) = (nthr - k) + nthr + npos + 4
main_rest npos nthr (joining k) = (nthr - k) + npos + 3
main_rest npos nthr (verifying k) = (npos - k) + 2
main_rest npos nthr done = 0

abbrev pub rest : ℕ → ℕ → System → ℕ
rest npos nthr s =
    16 * (npos - s.shared.pos) + total fill_rest nthr s.fill + main_rest npos nthr s.main

-- A move of a thread brings it nearer to its end.
move-nearer :
    {npos i : ℕ} {m m' : Shared} {c c' : ℕ} {p p' : FillPc}
    → FillMove npos i m c p m' c' p'
    → Knows npos i m p
    → 16 * (npos - m'.pos) + fill_rest p' < 16 * (npos - m.pos) + fill_rest p
move-nearer (lock h) k = omega arith
move-nearer (full h) k = omega arith
move-nearer (room h) k = omega arith
move-nearer leave k = omega arith
move-nearer store k = omega arith
move-nearer raise_pos k = omega (arith, k.2)
move-nearer raise_val k = omega arith
move-nearer unlock k = omega arith
move-nearer count k = omega arith

-- A thread has a move unless it has returned or waits for the mutex.
can_move :
    (npos i : ℕ) (m : Shared) (c : ℕ) (p : FillPc)
    → (p ≡ locking → m.mutex ≡ none)
    → p ≢ returned
    → (m' : Shared) × (c' : ℕ) × (p' : FillPc) × FillMove npos i m c p m' c' p'
can_move npos i m c locking free ne = (_, _, _, lock (free refl))
can_move npos i m c testing free ne = elim (dec_lt m.pos npos) [
  | yes lt ↦ (_, _, _, room lt)
  | no ge ↦ (_, _, _, full (omega (arith, ge)))
]
can_move npos i m c leaving free ne = (_, _, _, leave)
can_move npos i m c storing free ne = (_, _, _, store)
can_move npos i m c raising_pos free ne = (_, _, _, raise_pos)
can_move npos i m c raising_val free ne = (_, _, _, raise_val)
can_move npos i m c unlocking free ne = (_, _, _, unlock)
can_move npos i m c counting free ne = (_, _, _, count)
can_move npos i m c returned free ne = absurd (ne refl)

done-cases : (pc : MainPc) → (pc ≡ done) ⊎ (pc ≢ done)
done-cases (creating k) = inr (λ e. cc)
done-cases (joining k) = inr (λ e. cc)
done-cases (verifying k) = inr (λ e. cc)
done-cases done = inl refl

-- Where each thread is before its first lock.
total-const : (n : ℕ) → total fill_rest n (λ i. locking) ≡ 5 * n
total-const zero = total-zero fill_rest (λ i. locking)
total-const (suc n) =
    let e : n + 1 ≡ suc n = omega arith in
    rw (← e) (omega (arith, total-suc fill_rest n (λ i. locking), total-const n))

returned-cases : (p : FillPc) → (p ≡ returned) ⊎ (p ≢ returned)
returned-cases locking = inr (λ e. cc)
returned-cases testing = inr (λ e. cc)
returned-cases leaving = inr (λ e. cc)
returned-cases storing = inr (λ e. cc)
returned-cases raising_pos = inr (λ e. cc)
returned-cases raising_val = inr (λ e. cc)
returned-cases unlocking = inr (λ e. cc)
returned-cases counting = inr (λ e. cc)
returned-cases returned = inl refl

module _ {npos nthr : ℕ} (around : Verification npos nthr) (some_thread : 0 < nthr) where
  -- Each step brings the program nearer to its end.
  Step-nearer :
      {s t : System}
      → Step (with_verify around) npos nthr s t
      → Inv around.Verifies npos nthr s
      → rest npos nthr t < rest npos nthr s
  Step-nearer {s} (by_fill i {m = m} {p = p} lt move) v =
      let below : i < nthr = omega (arith, lt, created_le around s.main s v.main) in
      omega
        (arith, move-nearer move (v.filled.knows i), total-update fill_rest nthr s.fill i p below)
  Step-nearer {s} (create k e lt) v = rw e (omega arith)
  Step-nearer {s} (all_created k e le) v = rw e (omega arith)
  Step-nearer {s} (join k e lt back) v = rw e (omega arith)
  Step-nearer {s} (all_joined k {m = m} e le b) v =
      let w : Inv around.Verifies npos nthr (record s { shared = m; main = verifying 0 }) =
        Step-Inv around some_thread (all_joined k e le b) v in
      rw e (omega (arith, (Joined-full npos nthr _ some_thread w.filled w.main.2).0))
  Step-nearer {s} (right k e lt same) v = rw e (omega arith)
  Step-nearer {s} (wrong k e lt ne) v = rw e (omega arith)
  Step-nearer {s} (verified k {m = m} e le f) v =
      let w : Inv around.Verifies npos nthr (record s { shared = m; main = done }) =
        Step-Inv around some_thread (verified k e le f) v in
      rw e (omega (arith, (Joined-full npos nthr _ some_thread w.filled w.main.1).0))

  can_fill :
      (s : System) (i : ℕ)
      → i < created_threads nthr s.main
      → (s.fill i ≡ locking → s.shared.mutex ≡ none)
      → s.fill i ≢ returned
      → (t : System) × Step (with_verify around) npos nthr s t
  can_fill s i lt free ne =
      let (m, c, p, move) = can_move npos i s.shared (s.counts i) (s.fill i) free ne in
      (_, by_fill i lt move)

  -- A thread that waits for the mutex waits for one that has a move.
  can_join :
      (k : ℕ) (s : System)
      → s.main ≡ joining k
      → k < nthr
      → Owned nthr s.shared
      → Filled npos nthr s.shared s.fill s.counts
      → (t : System) × Step (with_verify around) npos nthr s t
  can_join k s e lt owned f = elim (returned-cases (s.fill k)) [
    | inl back ↦ (_, join k e lt back)
    | inr running ↦ elim (Option-cases s.shared.mutex) [
      | inl free ↦ can_fill s k (ground arith) (λ at. free) running
      | inr (i, held) ↦
          let holds : holding (s.fill i) ≡ 1 = f.holder i held (owned i held) in
          can_fill s i (ground (arith, owned i held)) (λ at. absurd (ground arith))
            (λ at. ground arith)
    ]
  ]

  goes_on_from :
      (pc : MainPc) (s : System)
      → s.main ≡ pc
      → Filled npos nthr s.shared s.fill s.counts
      → AtMain around.Verifies nthr pc s
      → pc ≢ done
      → (t : System) × Step (with_verify around) npos nthr s t
  goes_on_from (creating k) s e f a ne = elim (dec_lt k nthr) [
    | yes lt ↦ (_, create k e lt)
    | no ge ↦ (_, all_created k e (omega (arith, ge)))
  ]
  goes_on_from (joining k) s e f a ne = elim (dec_lt k nthr) [
    | yes lt ↦ can_join k s e lt a.1 f
    | no ge ↦
        let joined : Joined nthr s = subst (λ j. Joined j s) (omega (arith, ge, a.0)) a.3 in
        let (m, b) = around.can_begin s.shared (Joined-free npos nthr s f a.1 joined) in
        (_, all_joined k e (omega (arith, ge)) b)
  ]
  goes_on_from (verifying k) s e f a ne = elim (dec_lt k npos) [
    | yes lt ↦ elim (ℕ_discrete (s.shared.buf k) k) [
      | yes same ↦ (_, right k e lt same)
      | no other ↦ (_, wrong k e lt other)
    ]
    | no ge ↦ let (m, b) = around.can_end s.shared in (_, verified k e (omega (arith, ge)) b)
  ]
  goes_on_from done s e f a ne = absurd (ne refl)

  pub Run-Inv :
      {steps : ℕ} {s : System}
      → Run (with_verify around) npos nthr steps s
      → Inv around.Verifies npos nthr s
  Run-Inv here = start-Inv around.Verifies npos nthr
  Run-Inv (next run step) = Step-Inv around some_thread step (Run-Inv run)

  rest_start : rest npos nthr start ≡ 17 * npos + 7 * nthr + 4
  rest_start = ground (arith, total-const nthr)

  Run-bounded :
      {steps : ℕ} {s : System}
      → Run (with_verify around) npos nthr steps s
      → steps + rest npos nthr s ≤ rest npos nthr start
  Run-bounded here = omega arith
  Run-bounded (next run step) = omega (arith, Run-bounded run, Step-nearer step (Run-Inv run))

  -- A run ends, and where it cannot go on it has ended.
  pub Run-ends :
      {steps : ℕ} {s : System}
      → Run (with_verify around) npos nthr steps s
      → (steps ≤ 17 * npos + 7 * nthr + 4)
        × ((s.main ≡ done) ⊎ ((t : System) × Step (with_verify around) npos nthr s t))
  Run-ends {s = s} run =
      let v : Inv around.Verifies npos nthr s = Run-Inv run in
      (
        omega (arith, Run-bounded run, rest_start),
        elim (done-cases s.main) [
          | inl e ↦ inl e
          | inr ne ↦ inr (goes_on_from s.main s refl v.filled v.main ne)
        ],
      )

  -- What a run comes to.
  pub Run-done :
      {steps : ℕ} {s : System}
      → Run (with_verify around) npos nthr steps s
      → s.main ≡ done
      → (s.errors ≡ []) × (s.total ≡ npos)
  Run-done {s = s} run e =
      let v : Inv around.Verifies npos nthr s = Run-Inv run in
      let (none_wrong, joined) : AtMain around.Verifies nthr done s =
        subst (λ pc. AtMain around.Verifies nthr pc s) e v.main in
      (none_wrong, (Joined-full npos nthr s some_thread v.filled joined).1)
