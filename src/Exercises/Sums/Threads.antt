-- ===== src/Exercises/Sums/Threads.antt =====
-- Exercises/prob06/p05a.c, p05a1.c and p05b.c: four threads that calculate with two numbers.
use feup_sope.Base.{Option, none, some, List, [], ◌∷◌, if◌then◌else◌}
use mathlib.Core.Path.{◌≡◌}
use mathlib.Core.List.{Permᴰ}
use feup_sope.Base.Word.{ℤ}
use feup_sope.Exercises.Sums.{
  Floats, Line, ask, sum_line, difference_line, product_line, quotient_line, invalid, quotient,
  ◌>>=◌, add_int, sub_int, mul_int, is_zero,
}

-- `struct Op` of p05a1.c and p05b.c.
pub record Op : Type 0 where
  pub n1 : ℤ
  pub n2 : ℤ

module _ (F : Floats) where
  -- The four functions of p05a.c and of p05a1.c: the line that each prints.
  unfoldable pub sum : ℤ × ℤ → Option (Line F)
  sum (a, b) = do c ← add_int a b; some (sum_line a b c)

  unfoldable pub difference : ℤ × ℤ → Option (Line F)
  difference (a, b) = do c ← sub_int a b; some (difference_line a b c)

  unfoldable pub multiplication : ℤ × ℤ → Option (Line F)
  multiplication (a, b) = do c ← mul_int a b; some (product_line a b c)

  unfoldable pub division : ℤ × ℤ → Option (Line F)
  division (a, b) = some (if is_zero b then invalid else quotient_line a b (quotient F a b))

  unfoldable pub op_sum : Op → Option (Line F)
  op_sum op = do c ← add_int op.n1 op.n2; some (sum_line op.n1 op.n2 c)

  unfoldable pub op_difference : Op → Option (Line F)
  op_difference op = do c ← sub_int op.n1 op.n2; some (difference_line op.n1 op.n2 c)

  unfoldable pub op_multiplication : Op → Option (Line F)
  op_multiplication op = do c ← mul_int op.n1 op.n2; some (product_line op.n1 op.n2 c)

  unfoldable pub op_division : Op → Option (Line F)
  op_division op =
      some (if is_zero op.n2 then invalid else quotient_line op.n1 op.n2 (quotient F op.n1 op.n2))

  -- The lines of the four threads, where each is defined.
  abbrev four :
      Option (Line F) → Option (Line F) → Option (Line F) → Option (Line F) → Option (List (Line F))
  four first second third fourth = do
    a ← first
    b ← second
    c ← third
    d ← fourth
    some (a ∷ b ∷ c ∷ d ∷ [])

  unfoldable pub p05a_threads : ℤ × ℤ → Option (List (Line F))
  unfolding sum difference multiplication division
  p05a_threads n = four (sum n) (difference n) (multiplication n) (division n)

  unfoldable pub p05a1_threads : Op → Option (List (Line F))
  unfolding op_sum op_difference op_multiplication op_division
  p05a1_threads op = four (op_sum op) (op_difference op) (op_multiplication op) (op_division op)

  -- `main` of p05a.c and of p05a1.c on what is typed: the threads print in any order.
  pub data P05a (numbers : ℤ × ℤ) : List (Line F) → Type 0 where
    run :
        {texts lines : List (Line F)}
        → p05a_threads numbers ≡ some texts
        → Permᴰ texts lines
        → P05a numbers (ask ∷ lines)

  pub data P05a1 (op : Op) : List (Line F) → Type 0 where
    run :
        {texts lines : List (Line F)}
        → p05a1_threads op ≡ some texts
        → Permᴰ texts lines
        → P05a1 op (ask ∷ lines)

  -- What the functions of p05b.c put where they return: the last one returns NULL for a division by 0.
  unfoldable pub sum_result : Op → Option ℤ
  sum_result op = add_int op.n1 op.n2

  unfoldable pub difference_result : Op → Option ℤ
  difference_result op = sub_int op.n1 op.n2

  unfoldable pub multiplication_result : Op → Option ℤ
  multiplication_result op = mul_int op.n1 op.n2

  unfoldable pub division_result : Op → Option F.Float
  division_result op = if is_zero op.n2 then none else some (quotient F op.n1 op.n2)

  abbrev pub division_line : Op → Option F.Float → Line F
  division_line op none = invalid
  division_line op (some res) = quotient_line op.n1 op.n2 res

  -- `main` of p05b.c, which joins the threads in order.
  unfoldable pub p05b : Op → Option (List (Line F))
  unfolding sum_result difference_result multiplication_result division_result
  p05b op = do
    res1 ← sum_result op
    res2 ← difference_result op
    res3 ← multiplication_result op
    some (
        ask
        ∷ sum_line op.n1 op.n2 res1
        ∷ difference_line op.n1 op.n2 res2
        ∷ product_line op.n1 op.n2 res3
        ∷ division_line op (division_result op)
        ∷ [])
