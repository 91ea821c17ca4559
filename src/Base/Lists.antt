-- ===== src/Base/Lists.antt =====
-- Lists measured and indexed by native numbers; arrays as functions, updated at one index.
use Prim.Native.Nat.{ℕ, zero, suc, ◌+◌, ◌≤◌, ◌<◌}
use mathlib.Core.Logic.{◌≢◌}
use mathlib.Core.Path.{subst, sym, ◌≡◌, refl, ap}
use mathlib.Core.List.{List, [], ◌∷◌, ◌++◌}
use mathlib.Core.Option.{Option, none, some}
use native.Mathlib.Omega.{arith}
use native.Mathlib.Decide.{dec_lt, ℕ_discrete}
use feup_sope.Base.Tests.{◌==◌, if◌then◌else◌}

module _ {ℓ} {A : Type ℓ} where
  abbrev pub length : List A → ℕ
  length [] = 0
  length (x ∷ xs) = suc (length xs)

  abbrev pub get_elem? : List A → ℕ → Option A
  get_elem? [] i = none
  get_elem? (x ∷ xs) zero = some x
  get_elem? (x ∷ xs) (suc i) = get_elem? xs i

  abbrev pub take : ℕ → List A → List A
  take zero xs = []
  take (suc n) [] = []
  take (suc n) (x ∷ xs) = x ∷ take n xs

  abbrev pub drop : ℕ → List A → List A
  drop zero xs = xs
  drop (suc n) [] = []
  drop (suc n) (x ∷ xs) = drop n xs

  abbrev pub flatten : List (List A) → List A
  flatten [] = []
  flatten (xs ∷ xss) = xs ++ flatten xss

  abbrev pub replicate : ℕ → A → List A
  replicate zero a = []
  replicate (suc n) a = a ∷ replicate n a

  pub length-append : (xs ys : List A) → length (xs ++ ys) ≡ length xs + length ys
  length-append [] ys = omega arith
  length-append (x ∷ xs) ys = omega (arith, length-append xs ys)

module _ {ℓ} {A : Type ℓ} where
  pub length-replicate : (n : ℕ) (a : A) → length (replicate n a) ≡ n
  length-replicate zero a = refl
  length-replicate (suc n) a = ap suc (length-replicate n a)

  pub take_all : (n : ℕ) (xs : List A) → length xs ≤ n → take n xs ≡ xs
  take_all zero [] h = refl
  take_all zero (x ∷ xs) h = absurd (omega arith)
  take_all (suc n) [] h = refl
  take_all (suc n) (x ∷ xs) h = ap (λ t. x ∷ t) (take_all n xs (omega arith))

  pub length-take_le : (n : ℕ) (xs : List A) → length (take n xs) ≤ n
  length-take_le zero xs = omega arith
  length-take_le (suc n) [] = omega arith
  length-take_le (suc n) (x ∷ xs) = omega (arith, length-take_le n xs)

  pub length-take_le_length : (n : ℕ) (xs : List A) → length (take n xs) ≤ length xs
  length-take_le_length zero xs = omega arith
  length-take_le_length (suc n) [] = omega arith
  length-take_le_length (suc n) (x ∷ xs) = omega (arith, length-take_le_length n xs)

abbrev pub All {ℓ κ} : {A : Type ℓ} → (A → Type κ) → List A → Type κ
All P [] = Unit
All P (x ∷ xs) = P x × All P xs

-- An array as a function of the index: `f[i] = a`.
abbrev pub update {ℓ} : {A : Type ℓ} → (ℕ → A) → ℕ → A → ℕ → A
update f i a j = if i == j then a else f j

-- What holds of the new entry and of the others holds of all.
pub updated {ℓ κ} :
    {A : Type ℓ} (f : ℕ → A) (i : ℕ) (a : A) (P : ℕ → A → Type κ)
    → P i a
    → ((j : ℕ) → j ≢ i → P j (f j))
    → (j : ℕ) → P j (update f i a j)
updated f i a P new old j = elim (ℕ_discrete j i) [
  | yes same ↦
      let e : a ≡ update f i a i = ground arith in
      subst (λ k. P k (update f i a k)) (sym same) (subst (λ b. P i b) e new)
  | no other ↦ let e : f j ≡ update f i a j = ground arith in subst (λ b. P j b) e (old j other)
]

-- What the entries of an array weigh together, up to an index.
module _ {ℓ} {A : Type ℓ} where
  pub total : (A → ℕ) → ℕ → (ℕ → A) → ℕ
  total w zero row = 0
  total w (suc k) row = w (row k) + total w k row

  pub total-zero : (w : A → ℕ) (row : ℕ → A) → total w 0 row ≡ 0
  unfolding total
  total-zero w row = refl

  pub total-suc :
      (w : A → ℕ) (k : ℕ) (row : ℕ → A) → total w (k + 1) row ≡ w (row k) + total w k row
  unfolding total
  total-suc w k row = let e : k + 1 ≡ suc k = omega arith in rw e refl

  -- Only the entries below the index count.
  pub total-agree :
      (w : A → ℕ) (k : ℕ) (old row : ℕ → A)
      → ((j : ℕ) → j < k → row j ≡ old j)
      → total w k row ≡ total w k old
  unfolding total
  total-agree w zero old row same = omega arith
  total-agree w (suc k) old row same =
      let here : row k ≡ old k = same k (omega arith) in
      let below : total w k row ≡ total w k old =
        total-agree w k old row λ j lt. same j (omega (arith, lt)) in
      rw (here, below) refl

  -- A write below it takes the old entry's weight and puts the new one's.
  pub total-update :
      (w : A → ℕ) (k : ℕ) (row : ℕ → A) (at : ℕ) (new : A)
      → at < k
      → w new + total w k row ≡ w (row at) + total w k (update row at new)
  unfolding total
  total-update w zero row at new h = absurd (omega arith)
  total-update w (suc k) row at new h = elim (ℕ_discrete at k) [
    | yes last ↦
        let others : total w k (update row at new) ≡ total w k row =
          total-agree w k row (update row at new) λ j below. ground (arith, below) in
        ground (arith, others)
    | no early ↦ ground (arith, total-update w k row at new (omega (arith, early)))
  ]

  -- One entry weighs no more than all.
  pub total-ge : (w : A → ℕ) (n : ℕ) (f : ℕ → A) (i : ℕ) → i < n → w (f i) ≤ total w n f
  unfolding total
  total-ge w zero f i h = absurd (omega arith)
  total-ge w (suc n) f i h = elim (dec_lt i n) [
    | yes below ↦ omega (arith, total-ge w n f i below)
    | no last ↦ let e : i ≡ n = omega arith in rw e (omega arith)
  ]

  pub total_mono :
      (v w : A → ℕ) → ((a : A) → v a ≤ w a) → (n : ℕ) (f : ℕ → A) → total v n f ≤ total w n f
  unfolding total
  total_mono v w h zero f = omega arith
  total_mono v w h (suc n) f = omega (arith, h (f n), total_mono v w h n f)

  pub total-eq_zero : (w : A → ℕ) (n : ℕ) (f : ℕ → A) → ((i : ℕ) → w (f i) ≡ 0) → total w n f ≡ 0
  unfolding total
  total-eq_zero w zero f h = refl
  total-eq_zero w (suc n) f h = omega (arith, h n, total-eq_zero w n f h)

  -- Entries that weigh no more.
  pub total_le :
      (w : A → ℕ) (k : ℕ) (old row : ℕ → A)
      → ((j : ℕ) → w (row j) ≤ w (old j))
      → total w k row ≤ total w k old
  unfolding total
  total_le w zero old row less = omega arith
  total_le w (suc k) old row less = omega (arith, less k, total_le w k old row less)
