-- ===== src/Exercises/Signals/Bounds.antt =====
-- How far the counter of Exercises/prob04/p3b.c goes.
use feup_sope.Base.{ℕ, ◌≤◌, ◌≡◌, refl, arith, length, All}
use mathlib.Core.Path.{subst}
use feup_sope.Exercises.Signals.{
  FatherPc, sending, exited, World, Step, sends, terminates, installs, killed, terminated, delivers,
  reads, writes, prints, Reach, here, next,
}
use feup_sope.Exercises.Signals.Covered.{size, Covered, step-Covered}

-- The father sends no more than 50.
abbrev Sent : FatherPc → ℕ → Type 0
Sent (sending i) sent = (sent ≡ i) × (i ≤ 50)
Sent exited sent = sent ≤ 50

step-Sent : {s t : World} → Step s t → Sent s.father s.sent → Sent t.father t.sent
step-Sent {s} (sends i sig e lt) h =
    let k : Sent (sending i) s.sent = subst (λ q. Sent q s.sent) e h in
    (omega (arith, k), omega (arith, lt))
step-Sent {s} (terminates i e le) h =
    let k : Sent (sending i) s.sent = subst (λ q. Sent q s.sent) e h in omega (arith, k)
step-Sent (installs e) h = h
step-Sent (killed sig e q) h = h
step-Sent (terminated q) h = h
step-Sent (delivers sig e q b) h = h
step-Sent (reads sig calls e q) h = h
step-Sent (writes sig x calls e q) h = h
step-Sent (prints sig x calls e q) h = h

Sent-few : (f : FatherPc) (sent : ℕ) → Sent f sent → sent ≤ 50
Sent-few (sending i) sent h = omega (arith, h)
Sent-few exited sent h = h

reach-Sent : {s : World} → Reach s → Sent s.father s.sent
reach-Sent here = (refl, omega arith)
reach-Sent (next r m) = step-Sent m (reach-Sent r)

reach-Covered : {s : World} → Reach s → Covered s
reach-Covered here = record {
  v_fits = omega arith;
  calls_fit = tt;
  shown = tt;
  lines = omega arith;
}
reach-Covered (next r m) = step-Covered m (reach-Covered r)

-- In every state of p3b.c, whatever signals are sent, however many of them become one, and however the
-- calls of the handler interrupt each other between the reading and the writing of `v`: the values of
-- `v` and of each line printed lie between -n and n, where n is how many signals have been sent, and
-- this is at most 50; and there are no more lines than that.
pub p3b-IsBounded :
    {s : World}
    → Reach s
    → (s.sent ≤ 50)
      × (size s.v ≤ s.sent)
      × (length s.screen ≤ s.sent)
      × All (λ v. size v ≤ s.sent) s.screen
p3b-IsBounded {s} r =
    let c = reach-Covered r in
    (
      Sent-few s.father s.sent (reach-Sent r),
      omega (arith, c.v_fits),
      omega (arith, c.lines),
      c.shown,
    )
