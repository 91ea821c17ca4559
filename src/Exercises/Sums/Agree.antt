-- ===== src/Exercises/Sums/Agree.antt =====
-- That the programs of Exercises/prob06 that calculate in threads print the same lines.
use feup_sope.Base.{
  ◌≡◌, ap, if◌then◌else◌, refl, ◌∙◌, Bool-cases, inl, inr, some, Option, Option-cases, List, ◌∷◌,
}
use mathlib.Core.List.{Permᴰ}
use feup_sope.Base.Word.{ℤ}
use feup_sope.Exercises.Sums.{
  Floats, Line, ask, is_zero, add_int, sub_int, mul_int, ◌>>=◌, invalid, quotient_line, quotient,
}
use feup_sope.Exercises.Sums.Threads.{
  P05a, P05a1, run, p05b, division_line, p05a_threads, p05a1_threads, sum, difference,
  multiplication, division, op_sum, op_difference, op_multiplication, op_division, sum_result,
  difference_result, multiplication_result, division_result,
}

-- The lines behind the question.
abbrev asked : {F : Floats} → Option (List (Line F)) → Option (List (Line F))
asked texts = do lines ← texts; some (ask ∷ lines)

division_line-division_result :
    (F : Floats) (a b : ℤ)
    → division_line F (record { n1 = a; n2 = b }) (division_result F (record { n1 = a; n2 = b }))
      ≡ (if is_zero b then invalid else quotient_line a b (quotient F a b))
unfolding division_result
division_line-division_result F a b = elim (Bool-cases (is_zero b)) [
  | inl z ↦ rw z refl
  | inr z ↦ rw z refl
]

p05b-p05a_threads :
    (F : Floats) (a b : ℤ) → p05b F (record { n1 = a; n2 = b }) ≡ asked (p05a_threads F (a, b))
unfolding p05b p05a_threads sum difference multiplication division sum_result difference_result
    multiplication_result
p05b-p05a_threads F a b = elim (Option-cases (add_int a b)) [
  | inl e ↦ rw e refl
  | inr (p, e) ↦ elim (Option-cases (sub_int a b)) [
    | inl d ↦ rw (e, d) refl
    | inr (q, d) ↦ elim (Option-cases (mul_int a b)) [
      | inl m ↦ rw (e, d, m) refl
      | inr (r, m) ↦ rw (e, d, m, division_line-division_result F a b) refl
    ]
  ]
]

p05a1-p05a_threads :
    (F : Floats) (a b : ℤ) → p05a1_threads F (record { n1 = a; n2 = b }) ≡ p05a_threads F (a, b)
unfolding p05a1_threads p05a_threads sum difference multiplication division op_sum op_difference
    op_multiplication op_division
p05a1-p05a_threads F a b = refl

-- Whatever p05a.c prints for two numbers, p05a1.c can print the same lines in the same order, and p05b.c
-- prints them too, each once, and behind the question.
pub threads_agree :
    (F : Floats) (a b : ℤ) {lines : List (Line F)}
    → P05a F (a, b) lines
    → P05a1 F (record { n1 = a; n2 = b }) lines
      × ((joined : List (Line F)) × (p05b F (record { n1 = a; n2 = b }) ≡ some joined)
          × Permᴰ joined lines)
threads_agree F a b (run {texts} {lines} e p) =
    let same : p05b F (record { n1 = a; n2 = b }) ≡ asked (some texts) =
      p05b-p05a_threads F a b ∙ ap asked e in
    (run (p05a1-p05a_threads F a b ∙ e) p, (ask ∷ texts, same, Permᴰ.cons refl p))
