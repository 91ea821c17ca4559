-- ===== src/Exercises/Sums/Pipes.antt =====
-- Exercises/prob05/p1a.c, p1b.c and p2a.c: a father and a son that calculate with two numbers.
use feup_sope.Base.{
  Bool, true, false, Option, none, some, List, [], ◌∷◌, ◌++◌, take, drop, length, ◌==◌,
  if◌then◌else◌,
}
use feup_sope.Base.Text.{Bytes}
use feup_sope.Base.Word.{ℤ, pos}
use feup_sope.Exercises.Sums.{
  Floats, Line, parent, ask, son, plus_is, minus_is, times_is, over_is, cannot_divide, product,
  quotient, Ended, ◌>>=◌, add_int, sub_int, is_zero, ints_of, ints_bytes, int_bytes, int_of,
}

module _ (F : Floats) where
  abbrev pub in_parts : ℤ → ℤ → (ℤ → ℤ → List (Line F)) → Option (List (Line F))
  in_parts a b lines = do sum ← add_int a b; difference ← sub_int a b; some (lines sum difference)

  -- The son of p1a.c, from its read into `b` on.
  unfoldable pub p1a_son : Option (ℤ × ℤ) → Option (List (Line F))
  p1a_son none = none
  p1a_son (some (b0, b1)) = in_parts b0 b1 λ sum difference.
      son
      ∷ plus_is sum
      ∷ minus_is difference
      ∷ times_is (product F b0 b1)
      ∷ (if is_zero b1 then cannot_divide else over_is (quotient F b0 b1))
      ∷ []

  abbrev pub started : List (Line F) → Option (List (Line F)) → Option (Ended F)
  started father_lines son_lines = do
    lines ← son_lines
    some (record { code = 0; father_lines = father_lines; son_lines = lines })

  -- `main` of p1a.c: `forks` is whether fork succeeds, and `numbers` what is typed. Where fork fails,
  -- the process takes itself for the son, and reads from a pipe that nobody writes to.
  unfoldable pub p1a : Bool → Option (ℤ × ℤ) → Option (Ended F)
  unfolding p1a_son
  p1a false numbers = started [] (p1a_son (ints_of []))
  p1a true none = none
  p1a true (some (a0, a1)) =
      started (parent ∷ ask ∷ []) (p1a_son (ints_of (take 8 (ints_bytes a0 a1))))

-- `struct Numbers` of p1b.c, in memory.
pub record Numbers : Type 0 where
  pub n1 : ℤ
  pub n2 : ℤ

unfoldable pub numbers_bytes : Numbers → Bytes
numbers_bytes num = int_bytes num.n1 ++ int_bytes num.n2

unfoldable pub numbers_of : Bytes → Option Numbers
numbers_of (a ∷ b ∷ c ∷ d ∷ e ∷ f ∷ g ∷ h ∷ []) =
    some (record { n1 = int_of a b c d; n2 = int_of e f g h })
numbers_of s = none

module _ (F : Floats) where
  -- The son of p1b.c, from its read into `num` on.
  unfoldable pub p1b_son : Option Numbers → Option (List (Line F))
  p1b_son none = none
  p1b_son (some num) = in_parts F num.n1 num.n2 λ sum difference.
      son
      ∷ plus_is sum
      ∷ minus_is difference
      ∷ times_is (product F num.n1 num.n2)
      ∷ (if is_zero num.n2 then cannot_divide else over_is (quotient F num.n1 num.n2))
      ∷ []

  unfoldable pub p1b : Bool → Option Numbers → Option (Ended F)
  unfolding p1b_son
  p1b false numbers = started F [] (p1b_son (numbers_of []))
  p1b true none = none
  p1b true (some num) =
      started F (parent ∷ ask ∷ []) (p1b_son (numbers_of (take 8 (numbers_bytes num))))

-- What two floats are read as.
unfoldable pub floats_of : (F : Floats) → Bytes → Option (F.Float × F.Float)
floats_of F s = if length s == 8 then some (F.of_bytes (take 4 s), F.of_bytes (drop 4 s)) else none

-- What the son of p2a.c writes to the second pipe, and prints.
pub record Written (F : Floats) : Type 0 where
  pub answers : Bytes
  pub lines : List (Line F)

module _ (F : Floats) where
  abbrev or_zero : ℤ → F.Float → F.Float
  or_zero b1 f = if is_zero b1 then F.of_int (pos 0) else f

  -- The son of p2a.c, from its read into `b` on. It writes 16 bytes of `res1`, which has 8: `behind` is
  -- what lies behind it.
  unfoldable pub p2a_son : Bytes → Option (ℤ × ℤ) → Option (Written F)
  p2a_son behind none = none
  p2a_son behind (some (b0, b1)) = do
    sum ← add_int b0 b1
    difference ← sub_int b0 b1
    some (record {
      answers =
          ints_bytes sum difference
          ++ take 16 (
              F.to_bytes (product F b0 b1) ++ F.to_bytes (or_zero b1 (quotient F b0 b1)) ++ behind);
      lines = son ∷ (if is_zero b1 then cannot_divide ∷ [] else []);
    })

  -- The father behind his reads into `res2` and `res3`.
  unfoldable pub p2a_father : Option (ℤ × ℤ) → Option (F.Float × F.Float) → Option (List (Line F))
  p2a_father none f = none
  p2a_father (some i) none = none
  p2a_father (some (sum, difference)) (some (times, over)) =
      some (parent ∷ plus_is sum ∷ minus_is difference ∷ times_is times ∷ over_is over ∷ [])

  abbrev answered : Written F → Option (Ended F)
  answered w = do
    lines ← p2a_father (ints_of (take 8 w.answers)) (floats_of F (take 8 (drop 8 w.answers)))
    some (record { code = 0; father_lines = parent ∷ ask ∷ lines; son_lines = w.lines })

  -- `main` of p2a.c.
  unfoldable pub p2a : Bool → Bytes → Option (ℤ × ℤ) → Option (Ended F)
  unfolding p2a_son p2a_father floats_of
  p2a false behind numbers = some (record { code = 1; father_lines = []; son_lines = [] })
  p2a true behind none = none
  p2a true behind (some (a0, a1)) = do
    w ← p2a_son behind (ints_of (take 8 (ints_bytes a0 a1)))
    answered w
