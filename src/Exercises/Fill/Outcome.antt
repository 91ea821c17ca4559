-- ===== src/Exercises/Fill/Outcome.antt =====
-- What p1a.c and p3.c of Exercises/prob07 come to.
use feup_sope.Base.{
  ℕ, ◌+◌, ◌*◌, ◌≤◌, ◌<◌, ◌≡◌, ◌⊎◌, refl, sym, none, some, [], arith, inl, ℕ_discrete, inr,
}
use mathlib.Core.Path.{subst}
use feup_sope.Exercises.Fill.{Shared, FillPc, done, System, Step, Run, p1a, Keep}
use feup_sope.Exercises.Fill.Locked.{p3, VerifyLock, VerifyUnlock}
use feup_sope.Exercises.Fill.Invariant.{Filled, Knows-keep, Knows}
use feup_sope.Exercises.Fill.Steps.{Verification}
use feup_sope.Exercises.Fill.Ends.{Run-ends, Run-done}

abbrev unguarded : (npos nthr : ℕ) → Verification npos nthr
unguarded npos nthr = record {
  begin = Keep;
  end = Keep;
  Verifies = λ m. Unit {0};
  begins = λ m m' fill counts free e f. (tt, subst (λ x. Filled npos nthr x fill counts) (sym e) f);
  ends = λ m m' fill counts v e f. subst (λ x. Filled npos nthr x fill counts) (sym e) f;
  can_begin = λ m free. (m, refl);
  can_end = λ m. (m, refl);
}

-- The thread of `verify` takes the mutex.
Filled-lock :
    (npos nthr : ℕ) (m : Shared) (fill : ℕ → FillPc) (counts : ℕ → ℕ)
    → m.mutex ≡ none
    → Filled npos nthr m fill counts
    → Filled npos nthr (record m { mutex = some nthr }) fill counts
Filled-lock npos nthr m fill counts free f = record {
  within = f.within;
  right_below = f.right_below;
  at_rest = λ e. f.at_rest free;
  verifier = λ e. f.at_rest free;
  holder = λ i e lt. absurd (ground arith);
  outside = f.outside;
  knows = λ i.
      Knows-keep npos (i + 1) i m (record m { mutex = some nthr }) (fill i) (λ e. omega (arith, e))
        (inl free) (omega arith) (f.knows i);
  counted = f.counted;
}

-- It gives it back.
Filled-unlock :
    (npos nthr : ℕ) (m : Shared) (fill : ℕ → FillPc) (counts : ℕ → ℕ)
    → m.mutex ≡ some nthr
    → Filled npos nthr m fill counts
    → Filled npos nthr (record m { mutex = none }) fill counts
Filled-unlock npos nthr m fill counts held f = record {
  within = f.within;
  right_below = f.right_below;
  at_rest = λ e. f.verifier held;
  verifier = λ e. f.verifier held;
  holder = λ i e lt. absurd cc;
  outside = f.outside;
  knows = λ i. elim (ℕ_discrete nthr i) [
    | yes same ↦
        subst (λ q. Knows npos i (record m { mutex = none }) q)
          (sym (f.outside i (omega (arith, same)))) tt
    | no other ↦
        Knows-keep npos nthr i m (record m { mutex = none }) (fill i) other (inr held) (omega arith)
          (f.knows i)
  ];
  counted = f.counted;
}

abbrev guarded : (npos nthr : ℕ) → Verification npos nthr
guarded npos nthr = record {
  begin = VerifyLock;
  end = VerifyUnlock;
  Verifies = λ m. m.mutex ≡ some nthr;
  begins = λ m m' fill counts free (_, e) f. (
    rw e refl,
    subst (λ x. Filled npos nthr x fill counts) (sym e)
        (Filled-lock npos nthr m fill counts free f),
  );
  ends = λ m m' fill counts v e f.
      subst (λ x. Filled npos nthr x fill counts) (sym e)
        (Filled-unlock npos nthr m fill counts v f);
  can_begin = λ m free. (_, (free, refl));
  can_end = λ m. (_, refl);
}

-- For at least one thread in `fill`, when p1a.c has ended `verify` has printed no error, and the total
-- count is the number of positions.
pub p1a-right :
    (npos nthr steps : ℕ) (s : System)
    → 0 < nthr
    → Run p1a npos nthr steps s
    → s.main ≡ done
    → (s.errors ≡ []) × (s.total ≡ npos)
p1a-right npos nthr steps s some_thread run e = Run-done (unguarded npos nthr) some_thread run e

-- For at least one thread in `fill`, p3.c takes at most `17 * npos + 7 * nthr + 4` steps, however its
-- threads are scheduled; and a state that it reaches has a next step, unless the program has ended, with
-- no error printed by `verify` and a total count that is the number of positions.
pub p3-ends :
    (npos nthr steps : ℕ) (s : System)
    → 0 < nthr
    → Run p3 npos nthr steps s
    → (steps ≤ 17 * npos + 7 * nthr + 4)
      × (((s.main ≡ done) × (s.errors ≡ []) × (s.total ≡ npos))
          ⊎ ((t : System) × Step p3 npos nthr s t))
p3-ends npos nthr steps s some_thread run =
    let (bounded, goes_on) = Run-ends (guarded npos nthr) some_thread run in
    (
      bounded,
      elim goes_on [
        | inl e ↦
            let (none_wrong, all) = Run-done (guarded npos nthr) some_thread run e in
            inl (e, none_wrong, all)
        | inr step ↦ inr step
      ],
    )
