-- ===== src/Exercises/Limit/Outcome.antt =====
-- The end of p2.c of Exercises/prob07.
use feup_sope.Base.{
  ◌≢◌, ◌∙◌, ap, ℕ, ◌+◌, ◌≡◌, refl, sym, arith, update, total, total-suc, total-zero,
}
use mathlib.Core.Path.{subst}
use feup_sope.Base.Word.{pos}
use feup_sope.Exercises.Limit.{
  Shared, Pc, locking, finished, Move, lock, empty, more, leave, take, unlock, write, count, MainPc,
  joining_a, joining_b, done, System, by_thread, join_a, join_b, start_with, Reach, here, next,
}
use feup_sope.Exercises.Limit.Invariant.{Inv, move-Inv, uncounted, unwritten, left, Knows}

-- The threads that the main thread has waited for.
abbrev AtMain : MainPc → System → Type 0
AtMain joining_a s = Unit {0}
AtMain joining_b s = s.at 0 ≡ finished
AtMain done s = (s.at 0 ≡ finished) × (s.at 1 ≡ finished) × (s.total ≡ s.written 0 + s.written 1)

move-running : {i : ℕ} {m m' : Shared} {w w' : ℕ} {p p' : Pc} → Move i m w p m' w' p' → p ≢ finished
move-running (lock h) e = cc
move-running (empty h) e = cc
move-running (more h) e = cc
move-running leave e = cc
move-running take e = cc
move-running unlock e = cc
move-running write e = cc
move-running count e = cc

-- A thread that moves is not one that has been waited for.
move-AtMain :
    {i : ℕ} {m : Shared} {w : ℕ} {p : Pc} (pc : MainPc) (s : System)
    → Move i s.shared (s.written i) (s.at i) m w p
    → AtMain pc s
    → AtMain pc (record s { shared = m; at = update s.at i p; written = update s.written i w })
move-AtMain joining_a s move a = tt
move-AtMain {i = i} joining_b s move a =
    let other : i ≢ 0 = λ e. move-running move (subst (λ j. s.at j ≡ finished) (sym e) a) in
    ground (arith, a, other)
move-AtMain {i = i} done s move (a, b, sum) =
    let other : i ≢ 0 = λ e. move-running move (subst (λ j. s.at j ≡ finished) (sym e) a) in
    let other' : i ≢ 1 = λ e. move-running move (subst (λ j. s.at j ≡ finished) (sym e) b) in
    (ground (arith, a, other), ground (arith, b, other'), ground (arith, sum, other, other'))

total_two : {A : Type 0} (w : A → ℕ) (f : ℕ → A) → total w 2 f ≡ w (f 1) + w (f 0)
total_two w f = omega (arith, total-suc w 1 f, total-suc w 0 f, total-zero w f)

start-Inv : (limit : ℕ) → let s = start_with limit in Inv limit s.shared s.at s.written
start-Inv limit = record {
  whole = refl;
  knows = λ i. tt;
  counted = omega (arith, total_two (λ w. w) (λ i. 0), total_two uncounted (λ i. locking));
  shown = omega (arith, total_two unwritten (λ i. locking));
}

pub Reach-Inv :
    (limit : ℕ) {s : System}
    → Reach Move limit s
    → Inv limit s.shared s.at s.written × AtMain s.main s
Reach-Inv limit here = (start-Inv limit, tt)
Reach-Inv limit (next {s = s} r (by_thread i {w = w} {p = p} lt move)) =
    let (v, a) = Reach-Inv limit r in
    (move-Inv s.at s.written lt move refl v, move-AtMain s.main s move a)
Reach-Inv limit (next {s = s} r (join_a e back)) = ((Reach-Inv limit r).0, back)
Reach-Inv limit (next {s = s} r (join_b e back)) =
    let (v, a) = Reach-Inv limit r in (v, (subst (λ pc. AtMain pc s) e a, back, refl))

-- When p2.c has ended, whatever its limit, this is used up: the total that it prints and the number of characters
-- that its threads have written are the limit.
pub p2-total :
    (limit : ℕ) (s : System)
    → Reach Move limit s
    → s.main ≡ done
    → (s.total ≡ limit) × (s.shared.screen ≡ limit) × (s.shared.limit ≡ pos 0)
p2-total limit s r e =
    let (v, a) = Reach-Inv limit r in
    let (back_a, back_b, sum) : AtMain done s = subst (λ pc. AtMain pc s) e a in
    let none_left : left s.shared ≡ 0 = subst (λ q. Knows 0 s.shared q) back_a (v.knows 0) in
    let settled : total uncounted 2 s.at ≡ 0 = rw (total_two uncounted s.at, back_a, back_b) refl in
    let settled' : total unwritten 2 s.at ≡ 0 =
      rw (total_two unwritten s.at, back_a, back_b) refl in
    (
      omega (arith, v.counted, none_left, settled, sum, total_two (λ w. w) s.written),
      omega (arith, v.shown, none_left, settled'),
      v.whole ∙ ap (λ n. pos n) none_left,
    )
