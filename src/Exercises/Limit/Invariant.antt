-- ===== src/Exercises/Limit/Invariant.antt =====
-- What holds of the threads of p2.c in every reachable state.
use feup_sope.Base.{
  ℕ, zero, suc, ◌+◌, ◌≤◌, ◌<◌, ◌≡◌, ◌≢◌, ◌⊎◌, inl, inr, refl, sym, true, false, none, some, arith,
  update, updated, total, total-update,
}
use mathlib.Core.Path.{subst}
use feup_sope.Base.Word.{ℤ, pos, negsuc}
use feup_sope.Exercises.Limit.{
  Shared, Pc, locking, testing, leaving, taking, unlocking, writing, counting, finished, Move, lock,
  empty, more, leave, take, unlock, write, count, is_positive, less_one,
}

-- The limit as a number.
abbrev pub left_of : ℤ → ℕ
left_of (pos n) = n
left_of (negsuc n) = 0

abbrev pub left : Shared → ℕ
left m = left_of m.limit

-- What has been taken from the limit and is not in `written` yet, or not on the screen.
abbrev pub uncounted : Pc → ℕ
uncounted unlocking = 1
uncounted writing = 1
uncounted counting = 1
uncounted _ = 0

abbrev pub unwritten : Pc → ℕ
unwritten unlocking = 1
unwritten writing = 1
unwritten _ = 0

-- What a thread knows.
abbrev pub Knows : ℕ → Shared → Pc → Type 0
Knows i m locking = Unit {0}
Knows i m testing = m.mutex ≡ some i
Knows i m leaving = (m.mutex ≡ some i) × (left m ≡ 0)
Knows i m taking = (m.mutex ≡ some i) × (0 < left m)
Knows i m unlocking = m.mutex ≡ some i
Knows i m writing = Unit {0}
Knows i m counting = Unit {0}
Knows i m finished = left m ≡ 0

pub record Inv (limit : ℕ) (m : Shared) (at : ℕ → Pc) (written : ℕ → ℕ) : Type 0 where
  pub whole : m.limit ≡ pos (left m)
  pub knows : (i : ℕ) → Knows i m (at i)
  pub counted : left m + total (λ w. w) 2 written + total uncounted 2 at ≡ limit
  pub shown : left m + m.screen + total unwritten 2 at ≡ limit

pub Knows-keep :
    (i j : ℕ) (m m' : Shared) (p : Pc)
    → i ≢ j
    → ((m.mutex ≡ none) ⊎ (m.mutex ≡ some i)) ⊎ (m'.mutex ≡ m.mutex) × (left m' ≡ left m)
    → left m' ≤ left m
    → Knows j m p
    → Knows j m' p
Knows-keep i j m m' locking ne h falls k = tt
Knows-keep i j m m' testing ne h falls k = ground arith
Knows-keep i j m m' leaving ne h falls k = ground arith
Knows-keep i j m m' taking ne h falls k = ground arith
Knows-keep i j m m' unlocking ne h falls k = ground arith
Knows-keep i j m m' writing ne h falls k = tt
Knows-keep i j m m' counting ne h falls k = tt
Knows-keep i j m m' finished ne h falls k = omega (arith, falls, k)

-- A move and what it changes.
pub Inv-moved :
    (limit i : ℕ) (m m' : Shared) (at : ℕ → Pc) (written : ℕ → ℕ) (p : Pc) (w : ℕ)
    → i < 2
    → Inv limit m at written
    → ((m.mutex ≡ none) ⊎ (m.mutex ≡ some i)) ⊎ (m'.mutex ≡ m.mutex) × (left m' ≡ left m)
    → left m' ≤ left m
    → m'.limit ≡ pos (left m')
    → Knows i m' p
    → left m' + w + uncounted p ≡ left m + written i + uncounted (at i)
    → left m' + m'.screen + unwritten p ≡ left m + m.screen + unwritten (at i)
    → Inv limit m' (update at i p) (update written i w)
Inv-moved limit i m m' at written p w lt v h falls whole own c d = record {
  whole = whole;
  knows =
      updated at i p (λ j q. Knows j m' q) own
        (λ j ne. Knows-keep i j m m' (at j) (λ e. ne (sym e)) h falls (v.knows j));
  counted = omega (
    arith,
    v.counted,
    c,
    total-update uncounted 2 at i p lt,
    total-update (λ x. x) 2 written i w lt,
  );
  shown = omega (arith, v.shown, d, total-update unwritten 2 at i p lt);
}

not_positive : (z : ℤ) → is_positive z ≡ false → left_of z ≡ 0
not_positive (pos zero) h = refl
not_positive (pos (suc n)) h = cc
not_positive (negsuc n) h = refl

positive : (z : ℤ) → is_positive z ≡ true → 0 < left_of z
positive (pos zero) h = absurd cc
positive (pos (suc n)) h = omega arith
positive (negsuc n) h = absurd cc

-- `limit--` above 0.
taken :
    (z : ℤ)
    → 0 < left_of z
    → (less_one z ≡ pos (left_of (less_one z))) × (left_of (less_one z) + 1 ≡ left_of z)
taken (pos zero) h = absurd (omega (arith, h))
taken (pos (suc n)) h = (refl, omega arith)
taken (negsuc n) h = absurd (omega (arith, h))

pub move-Inv :
    {limit i : ℕ} {m m' : Shared} (at : ℕ → Pc) (written : ℕ → ℕ) {w : ℕ} {p p' : Pc}
    → i < 2
    → Move i m (written i) p m' w p'
    → at i ≡ p
    → Inv limit m at written
    → Inv limit m' (update at i p') (update written i w)
move-Inv {limit} {i} {m} {m'} at written {w} lt (lock free) e v =
    let k : Knows i m locking = subst (λ q. Knows i m q) e (v.knows i) in
    Inv-moved limit i m m' at written testing w lt v (inl (inl free)) (omega arith) v.whole refl
      (rw e (omega arith)) (rw e (omega arith))
move-Inv {limit} {i} {m} {m'} at written {w} lt (empty h) e v =
    let k : Knows i m testing = subst (λ q. Knows i m q) e (v.knows i) in
    Inv-moved limit i m m' at written leaving w lt v (inl (inr k)) (omega arith) v.whole
      (k, not_positive m.limit h) (rw e (omega arith)) (rw e (omega arith))
move-Inv {limit} {i} {m} {m'} at written {w} lt (more h) e v =
    let k : Knows i m testing = subst (λ q. Knows i m q) e (v.knows i) in
    Inv-moved limit i m m' at written taking w lt v (inl (inr k)) (omega arith) v.whole
      (k, positive m.limit h) (rw e (omega arith)) (rw e (omega arith))
move-Inv {limit} {i} {m} {m'} at written {w} lt leave e v =
    let k : Knows i m leaving = subst (λ q. Knows i m q) e (v.knows i) in
    Inv-moved limit i m m' at written finished w lt v (inl (inr (k.0))) (omega arith) v.whole k.1
      (rw e (omega arith)) (rw e (omega arith))
move-Inv {limit} {i} {m} {m'} at written {w} lt take e v =
    let k : Knows i m taking = subst (λ q. Knows i m q) e (v.knows i) in
    let (whole, one) = taken m.limit (k.1) in
    Inv-moved limit i m m' at written unlocking w lt v (inl (inr (k.0))) (omega (arith, one)) whole
      k.0 (rw e (omega (arith, one))) (rw e (omega (arith, one)))
move-Inv {limit} {i} {m} {m'} at written {w} lt unlock e v =
    let k : Knows i m unlocking = subst (λ q. Knows i m q) e (v.knows i) in
    Inv-moved limit i m m' at written writing w lt v (inl (inr k)) (omega arith) v.whole tt
      (rw e (omega arith)) (rw e (omega arith))
move-Inv {limit} {i} {m} {m'} at written {w} lt write e v =
    let k : Knows i m writing = subst (λ q. Knows i m q) e (v.knows i) in
    Inv-moved limit i m m' at written counting w lt v (inr (refl, refl)) (omega arith) v.whole tt
      (rw e (omega arith)) (rw e (omega arith))
move-Inv {limit} {i} {m} {m'} at written {w} lt count e v =
    let k : Knows i m counting = subst (λ q. Knows i m q) e (v.knows i) in
    Inv-moved limit i m m' at written locking w lt v (inr (refl, refl)) (omega arith) v.whole tt
      (rw e (omega arith)) (rw e (omega arith))
