-- ===== src/Base/Merges.antt =====
-- Sequences of several processes in one order, those of each in its own.
use Prim.Native.Nat.{ℕ, ◌+◌}
use mathlib.Core.Path.{◌≡◌, refl}
use mathlib.Core.Bool.{Bool}
use mathlib.Core.List.{List, [], ◌∷◌, ◌++◌}
use native.Mathlib.Omega.{arith}
use feup_sope.Base.Tests.{if◌then◌else◌}
use feup_sope.Base.Lists.{All}

module _ {ℓ} {A : Type ℓ} where
  pub data Merge : List A → List A → List A → Type ℓ where
    none_left : Merge [] [] []
    from_first : {a : A} {xs ys zs : List A} → Merge xs ys zs → Merge (a ∷ xs) ys (a ∷ zs)
    from_second : {a : A} {xs ys zs : List A} → Merge xs ys zs → Merge xs (a ∷ ys) (a ∷ zs)

  pub All-Merge {κ} :
      (P : A → Type κ) {xs ys zs : List A} → Merge xs ys zs → All P xs → All P ys → All P zs
  All-Merge P none_left h k = tt
  All-Merge P (from_first m) h k = (h.0, All-Merge P m h.1 k)
  All-Merge P (from_second m) h k = (k.0, All-Merge P m h k.1)

  -- How many elements pass a test.
  abbrev pub count : (A → Bool) → List A → ℕ
  count q [] = 0
  count q (a ∷ rest) = (if q a then 1 else 0) + count q rest

  pub count-Merge :
      (q : A → Bool) {xs ys zs : List A} → Merge xs ys zs → count q zs ≡ count q xs + count q ys
  count-Merge q none_left = refl
  count-Merge q (from_first m) = omega (arith, count-Merge q m)
  count-Merge q (from_second m) = omega (arith, count-Merge q m)

  -- One behind the other.
  pub Merge-append : (xs ys : List A) → Merge xs ys (xs ++ ys)
  Merge-append [] [] = none_left
  Merge-append [] (y ∷ ys) = from_second (Merge-append [] ys)
  Merge-append (x ∷ xs) ys = from_first (Merge-append xs ys)
