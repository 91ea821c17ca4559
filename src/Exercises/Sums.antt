-- ===== src/Exercises/Sums.antt =====
-- Exercises/prob05/p1a.c, p1b.c and p2a.c, in which two processes calculate with two numbers over
-- pipes, and Exercises/prob06/p05a.c, p05a1.c and p05b.c, in which four threads do.
pub mod Pipes
pub mod Threads
pub mod Memory
pub mod Answers
pub mod Agree
mod Tests
use feup_sope.Base.{
  ℕ, zero, suc, ◌+◌, ◌*◌, ◌-◌, ◌/◌, ◌%◌, ◌^◌, ◌≡◌, ◌&&◌, Bool, true, false, Option, none, some,
  List, [], ◌∷◌, ◌++◌, take, drop, length, ltb, leb, ◌==◌, if◌then◌else◌,
}
use feup_sope.Base.Text.{Bytes}
use feup_sope.Base.Word.{ℤ, pos, negsuc, pos_part, neg_part, sub_ℕ, to_int, of_int}

-- What the compiler does with a float: the conversion from int, the operations, and the 4 bytes of one
-- in memory.
pub record Floats : Type 1 where
  pub Float : Type 0
  pub of_int : ℤ → Float
  pub multiply : Float → Float → Float
  pub divide : Float → Float → Float
  pub to_bytes : Float → Bytes
  pub of_bytes : Bytes → Float
  pub of_bytes-to_bytes : (f : Float) → of_bytes (to_bytes f) ≡ f
  pub length-to_bytes : (f : Float) → length (to_bytes f) ≡ 4

infixl 5 ◌>>=◌
abbrev pub ◌>>=◌ : {A B : Type 0} → Option A → (A → Option B) → Option B
none >>= f = none
some a >>= f = f a

-- An int in 32 bits, and the operations on int: what overflows is not defined.
abbrev pub is_int : ℤ → Bool
is_int (pos n) = ltb n (2 ^ 31)
is_int (negsuc n) = ltb n (2 ^ 31)

abbrev pub as_int : ℤ → Option ℤ
as_int z = if is_int z then some z else none

unfoldable pub add_int : ℤ → ℤ → Option ℤ
add_int a b = as_int (sub_ℕ (pos_part a + pos_part b) (neg_part a + neg_part b))

unfoldable pub sub_int : ℤ → ℤ → Option ℤ
sub_int a b = as_int (sub_ℕ (pos_part a + neg_part b) (neg_part a + pos_part b))

unfoldable pub mul_int : ℤ → ℤ → Option ℤ
mul_int a b = as_int (
    sub_ℕ (pos_part a * pos_part b + neg_part a * neg_part b)
      (pos_part a * neg_part b + neg_part a * pos_part b))

-- `n != 0`
abbrev pub is_zero : ℤ → Bool
is_zero (pos zero) = true
is_zero (pos (suc n)) = false
is_zero (negsuc n) = false

-- An int in memory, the low byte first.
abbrev pub int_bytes : ℤ → Bytes
int_bytes z = let w : ℕ = of_int z in w % 256 ∷ w / 256 % 256 ∷ w / 65536 % 256 ∷ w / 16777216 ∷ []

unfoldable pub ints_bytes : ℤ → ℤ → Bytes
ints_bytes a b = int_bytes a ++ int_bytes b

abbrev pub int_of : ℕ → ℕ → ℕ → ℕ → ℤ
int_of a b c d = to_int (a + 256 * b + 65536 * c + 16777216 * d)

-- What two ints are read as, where there are 8 bytes.
unfoldable pub ints_of : Bytes → Option (ℤ × ℤ)
ints_of (a ∷ b ∷ c ∷ d ∷ e ∷ f ∷ g ∷ h ∷ []) = some (int_of a b c d, int_of e f g h)
ints_of s = none

-- The lines of the programs. The last five are those of the threads.
pub data Line (F : Floats) : Type 0 where
  parent ask son : Line F
  plus_is minus_is : ℤ → Line F
  times_is over_is : F.Float → Line F
  cannot_divide : Line F
  sum_line difference_line product_line : ℤ → ℤ → ℤ → Line F
  quotient_line : ℤ → ℤ → F.Float → Line F
  invalid : Line F

-- How a program ends: what `main` of the father returns, and the lines of father and son.
pub record Ended (F : Floats) : Type 0 where
  pub code : ℕ
  pub father_lines : List (Line F)
  pub son_lines : List (Line F)

module _ (F : Floats) where
  abbrev pub product : ℤ → ℤ → F.Float
  product a b = F.multiply (F.of_int a) (F.of_int b)

  abbrev pub quotient : ℤ → ℤ → F.Float
  quotient a b = F.divide (F.of_int a) (F.of_int b)
