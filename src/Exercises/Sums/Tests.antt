-- ===== src/Exercises/Sums/Tests.antt =====
-- The programs that calculate, on concrete numbers.
use feup_sope.Base.{ℕ, ◌*◌, ◌≡◌, refl, true, some, none, List, [], ◌∷◌}
use mathlib.Core.List.{Permᴰ}
use feup_sope.Base.Text.{Bytes}
use feup_sope.Base.Word.{pos, negsuc, of_int}
use feup_sope.Exercises.Sums.{
  Floats, add_int, sub_int, mul_int, Line, ask, sum_line, difference_line, product_line, invalid,
}
use feup_sope.Exercises.Sums.Pipes.{p1a, p1b, p2a}
use feup_sope.Exercises.Sums.Threads.{
  P05a, run, p05a_threads, sum, difference, multiplication, division,
}
use feup_sope.Exercises.Sums.Answers.{p1a_ended, p2a_ended, pipes_agree}

-- Floats as their four bytes, with operations that are no arithmetic.
record Quad : Type 0 where
  a : ℕ
  b : ℕ
  c : ℕ
  d : ℕ

abbrev quad_of : Bytes → Quad
quad_of (a ∷ b ∷ c ∷ d ∷ []) = record { a = a; b = b; c = c; d = d }
quad_of s = record { a = 0; b = 0; c = 0; d = 0 }

abbrev quads : Floats
quads = record {
  Float = Quad;
  of_int = λ z. record { a = of_int z; b = 0; c = 0; d = 1 };
  multiply = λ x y. record { a = x.a * y.a; b = 0; c = 0; d = 2 };
  divide = λ x y. record { a = x.a; b = y.a; c = 0; d = 3 };
  to_bytes = λ x. x.a ∷ x.b ∷ x.c ∷ x.d ∷ [];
  of_bytes = quad_of;
  of_bytes-to_bytes = λ x. refl;
  length-to_bytes = λ x. refl;
}

five_plus : add_int (pos 5) (negsuc 1) ≡ some (pos 3)
unfolding add_int
five_plus = refl

five_minus : sub_int (pos 5) (negsuc 1) ≡ some (pos 7)
unfolding sub_int
five_minus = refl

pipes_agree_example :
    (p1a quads true (some (pos 5, negsuc 1))
      ≡ some (p1a_ended quads (pos 5) (negsuc 1) (pos 3) (pos 7)))
    × (p1b quads true (some (record { n1 = pos 5; n2 = negsuc 1 }))
        ≡ some (p1a_ended quads (pos 5) (negsuc 1) (pos 3) (pos 7)))
    × (p2a quads true (9 ∷ 9 ∷ 9 ∷ []) (some (pos 5, negsuc 1))
        ≡ some (p2a_ended quads (pos 5) (negsuc 1) (pos 3) (pos 7)))
pipes_agree_example =
    pipes_agree quads (pos 5) (negsuc 1) (pos 3) (pos 7) (9 ∷ 9 ∷ 9 ∷ []) refl refl five_plus
      five_minus

-- The threads with 5 and 0, of which the last one prints before the third.
abbrev printed : List (Line quads)
printed =
    ask
    ∷ sum_line (pos 5) (pos 0) (pos 5)
    ∷ difference_line (pos 5) (pos 0) (pos 5)
    ∷ invalid
    ∷ product_line (pos 5) (pos 0) (pos 0)
    ∷ []

p05a_prints : P05a quads (pos 5, pos 0) printed
unfolding p05a_threads sum difference multiplication division add_int sub_int mul_int
p05a_prints = run refl (Permᴰ.cons refl (Permᴰ.cons refl (Permᴰ.swap refl refl)))

overflow : mul_int (pos 65536) (pos 32768) ≡ none
unfolding mul_int
overflow = refl
