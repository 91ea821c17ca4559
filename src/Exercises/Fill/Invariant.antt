-- ===== src/Exercises/Fill/Invariant.antt =====
-- What holds of the threads of p1a.c and p3.c in every reachable state.
use feup_sope.Base.{
  updated, ℕ, ◌+◌, ◌≤◌, ◌<◌, ◌≡◌, ◌≢◌, refl, sym, none, some, arith, update, total, total-update,
  ◌⊎◌, inl, inr,
}
use mathlib.Core.Path.{subst}
use feup_sope.Exercises.Fill.{
  Shared, FillPc, locking, testing, leaving, storing, raising_pos, raising_val, unlocking, counting,
  returned, FillMove, lock, full, room, leave, store, raise_pos, raise_val, unlock, count,
}

-- A position has been taken and is not in `count` yet.
abbrev pub uncounted : FillPc → ℕ
uncounted raising_val = 1
uncounted unlocking = 1
uncounted counting = 1
uncounted _ = 0

-- What a thread in `fill` knows of the shared variables.
abbrev pub Knows : ℕ → ℕ → Shared → FillPc → Type 0
Knows npos i m locking = Unit {0}
Knows npos i m testing = (m.mutex ≡ some i) × (m.val ≡ m.pos)
Knows npos i m leaving = (m.mutex ≡ some i) × (m.val ≡ m.pos) × (npos ≤ m.pos)
Knows npos i m storing = (m.mutex ≡ some i) × (m.val ≡ m.pos) × (m.pos < npos)
Knows npos i m raising_pos =
    (m.mutex ≡ some i) × (m.val ≡ m.pos) × (m.pos < npos) × (m.buf m.pos ≡ m.pos)
Knows npos i m raising_val = (m.mutex ≡ some i) × (m.val + 1 ≡ m.pos)
Knows npos i m unlocking = (m.mutex ≡ some i) × (m.val ≡ m.pos)
Knows npos i m counting = Unit {0}
Knows npos i m returned = npos ≤ m.pos

-- The thread is between its lock and its unlock.
abbrev pub holding : FillPc → ℕ
holding locking = 0
holding counting = 0
holding returned = 0
holding _ = 1

-- What the threads in `fill` keep among themselves, for `n` of them.
pub record Filled (npos n : ℕ) (m : Shared) (fill : ℕ → FillPc) (counts : ℕ → ℕ) : Type 0 where
  pub within : m.pos ≤ npos
  pub right_below : (k : ℕ) → k < m.pos → m.buf k ≡ k
  pub at_rest : m.mutex ≡ none → m.val ≡ m.pos
  pub verifier : m.mutex ≡ some n → m.val ≡ m.pos
  pub holder : (i : ℕ) → m.mutex ≡ some i → i < n → holding (fill i) ≡ 1
  pub outside : (i : ℕ) → n ≤ i → fill i ≡ locking
  pub knows : (i : ℕ) → Knows npos i m (fill i)
  pub counted : total (λ c. c) n counts + total uncounted n fill ≡ m.pos

-- Only the holder of the mutex, or a thread that finds it free, changes what the others know.
pub Knows-keep :
    (npos i j : ℕ) (m m' : Shared) (p : FillPc)
    → i ≢ j
    → (m.mutex ≡ none) ⊎ (m.mutex ≡ some i)
    → m.pos ≤ m'.pos
    → Knows npos j m p
    → Knows npos j m' p
Knows-keep npos i j m m' locking ne h grows k = tt
Knows-keep npos i j m m' testing ne h grows k = ground arith
Knows-keep npos i j m m' leaving ne h grows k = ground arith
Knows-keep npos i j m m' storing ne h grows k = ground arith
Knows-keep npos i j m m' raising_pos ne h grows k = ground arith
Knows-keep npos i j m m' raising_val ne h grows k = ground arith
Knows-keep npos i j m m' unlocking ne h grows k = ground arith
Knows-keep npos i j m m' counting ne h grows k = tt
Knows-keep npos i j m m' returned ne h grows k = omega (arith, grows, k)

-- A thread that has the mutex before a step, or finds it free, and has it or frees it in the step.
pub Filled-moved :
    (npos n i : ℕ) (m m' : Shared) (fill : ℕ → FillPc) (counts : ℕ → ℕ) (p : FillPc)
    → i < n
    → Filled npos n m fill counts
    → (m.mutex ≡ none) ⊎ (m.mutex ≡ some i)
    → (m'.mutex ≡ none) ⊎ ((m'.mutex ≡ some i) × (holding p ≡ 1))
    → (m.pos ≤ m'.pos) × (m'.pos ≤ npos)
    → ((k : ℕ) → k < m'.pos → m'.buf k ≡ k)
    → (m'.mutex ≡ none → m'.val ≡ m'.pos)
    → Knows npos i m' p
    → m.pos + uncounted p ≡ m'.pos + uncounted (fill i)
    → Filled npos n m' (update fill i p) (update counts i (counts i))
Filled-moved npos n i m m' fill counts p lt f free free' (grows, within) right rest own moved =
    record {
      within = within;
      right_below = right;
      at_rest = rest;
      verifier = λ e. ground arith;
      holder =
          updated fill i p (λ j q. m'.mutex ≡ some j → j < n → holding q ≡ 1) (λ e jn. ground arith)
            (λ j ne e jn. ground arith);
      outside =
          updated fill i p (λ j q. n ≤ j → q ≡ locking) (λ h. absurd (omega arith))
            (λ j ne. f.outside j);
      knows =
          updated fill i p (λ j q. Knows npos j m' q) own
            (λ j ne. Knows-keep npos i j m m' (fill j) (λ e. ne (sym e)) free grows (f.knows j));
      counted = ground (
        arith,
        f.counted,
        total-update uncounted n fill i p lt,
        total-update (λ c. c) n counts i (counts i) lt,
      );
    }

-- A move of a thread in `fill` keeps it.
pub move-Filled :
    {npos n i : ℕ} {m m' : Shared} (fill : ℕ → FillPc) (counts : ℕ → ℕ) {c : ℕ} {p p' : FillPc}
    → i < n
    → FillMove npos i m (counts i) p m' c p'
    → fill i ≡ p
    → Filled npos n m fill counts
    → Filled npos n m' (update fill i p') (update counts i c)
move-Filled {npos} {n} {i = i} {m = m} {m' = m'} fill counts lt (lock free) e f =
    let k : Knows npos i m locking = subst (λ q. Knows npos i m q) e (f.knows i) in
    Filled-moved npos n i m m' fill counts testing lt f (inl free) (inr (refl, refl)) (ground arith)
      f.right_below (λ q. ground arith) (refl, f.at_rest free) (ground arith)
move-Filled {npos} {n} {i = i} {m = m} {m' = m'} fill counts lt (full h) e f =
    let k : Knows npos i m testing = subst (λ q. Knows npos i m q) e (f.knows i) in
    Filled-moved npos n i m m' fill counts leaving lt f (inr (k.0)) (inr (k.0, refl)) (ground arith)
      f.right_below (λ q. ground arith) (k.0, k.1, h) (ground arith)
move-Filled {npos} {n} {i = i} {m = m} {m' = m'} fill counts lt (room h) e f =
    let k : Knows npos i m testing = subst (λ q. Knows npos i m q) e (f.knows i) in
    Filled-moved npos n i m m' fill counts storing lt f (inr (k.0)) (inr (k.0, refl)) (ground arith)
      f.right_below (λ q. ground arith) (k.0, k.1, h) (ground arith)
move-Filled {npos} {n} {i = i} {m = m} {m' = m'} fill counts lt leave e f =
    let k : Knows npos i m leaving = subst (λ q. Knows npos i m q) e (f.knows i) in
    Filled-moved npos n i m m' fill counts returned lt f (inr (k.0)) (inl refl) (ground arith)
      f.right_below (λ q. k.1) (k.2) (ground arith)
move-Filled {npos} {n} {i = i} {m = m} {m' = m'} fill counts lt store e f =
    let k : Knows npos i m storing = subst (λ q. Knows npos i m q) e (f.knows i) in
    Filled-moved npos n i m m' fill counts raising_pos lt f (inr (k.0)) (inr (k.0, refl))
      (ground arith) (λ j below. ground (arith, f.right_below j below)) (λ q. ground arith)
      (ground arith) (ground arith)
move-Filled {npos} {n} {i = i} {m = m} {m' = m'} fill counts lt raise_pos e f =
    let k : Knows npos i m raising_pos = subst (λ q. Knows npos i m q) e (f.knows i) in
    Filled-moved npos n i m m' fill counts raising_val lt f (inr (k.0)) (inr (k.0, refl))
      (ground arith) (λ j below. ground (arith, f.right_below j)) (λ q. ground arith) (ground arith)
      (ground arith)
move-Filled {npos} {n} {i = i} {m = m} {m' = m'} fill counts lt raise_val e f =
    let k : Knows npos i m raising_val = subst (λ q. Knows npos i m q) e (f.knows i) in
    Filled-moved npos n i m m' fill counts unlocking lt f (inr (k.0)) (inr (k.0, refl))
      (ground arith) f.right_below (λ q. ground arith) (ground arith) (ground arith)
move-Filled {npos} {n} {i = i} {m = m} {m' = m'} fill counts lt unlock e f =
    let k : Knows npos i m unlocking = subst (λ q. Knows npos i m q) e (f.knows i) in
    Filled-moved npos n i m m' fill counts counting lt f (inr (k.0)) (inl refl) (ground arith)
      f.right_below (λ q. k.1) (tt) (ground arith)
move-Filled {npos} {n} {i} {m} fill counts lt count e f = record {
  within = f.within;
  right_below = f.right_below;
  at_rest = f.at_rest;
  verifier = f.verifier;
  holder =
      updated fill i locking (λ j q. m.mutex ≡ some j → j < n → holding q ≡ 1)
        (λ held below. ground (arith, f.holder i held below)) (λ j ne. f.holder j);
  outside = updated fill i locking (λ j q. n ≤ j → q ≡ locking) (λ h. refl) (λ j ne. f.outside j);
  knows = updated fill i locking (λ j q. Knows npos j m q) tt (λ j ne. f.knows j);
  counted = ground (
    arith,
    f.counted,
    total-update uncounted n fill i locking lt,
    total-update (λ c. c) n counts i (counts i + 1) lt,
  );
}
