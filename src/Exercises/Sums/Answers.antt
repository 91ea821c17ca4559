-- ===== src/Exercises/Sums/Answers.antt =====
-- That the programs of Exercises/prob05 and prob06 that calculate come to the same answers.
use feup_sope.Base.{
  ℕ, zero, suc, ◌+◌, ◌≤◌, ◌%◌, ◌/◌, ◌≡◌, refl, ap, ◌∙◌, arith, true, some, [], ◌∷◌, ◌++◌, take,
  drop, length, if◌then◌else◌, length-append, Bool-cases, inl, inr,
}
use feup_sope.Base.Text.{Bytes}
use feup_sope.Base.Word.{ℤ, pos, sub_ℕ, pos_part, neg_part, of_int}
use feup_sope.Exercises.Sums.{
  Floats, Line, parent, ask, son, plus_is, minus_is, times_is, over_is, cannot_divide, product,
  quotient, Ended, add_int, sub_int, is_int, as_int, is_zero, ints_of, ints_bytes, int_of,
}
use feup_sope.Exercises.Sums.Memory.{to_int-of_int, word_of_bytes}
use feup_sope.Exercises.Sums.Pipes.{
  p1a, p1a_son, p1b, p1b_son, p2a, p2a_son, p2a_father, Numbers, numbers_of, numbers_bytes,
  floats_of,
}

-- The int that the bytes of one make.
abbrev reread : ℤ → ℤ
reread z =
    int_of (of_int z % 256) (of_int z / 256 % 256) (of_int z / 65536 % 256) (of_int z / 16777216)

reread_lem : (z : ℤ) → is_int z ≡ true → reread z ≡ z
reread_lem z h = rw (word_of_bytes (of_int z)) (to_int-of_int z h)

ints_of-ints_bytes :
    (a b : ℤ) → is_int a ≡ true → is_int b ≡ true → ints_of (take 8 (ints_bytes a b)) ≡ some (a, b)
unfolding ints_of ints_bytes
ints_of-ints_bytes a b h k =
    ap (λ z. some (z, reread b)) (reread_lem a h) ∙ ap (λ z. some (a, z)) (reread_lem b k)

numbers_of-numbers_bytes :
    (num : Numbers)
    → is_int num.n1 ≡ true
    → is_int num.n2 ≡ true
    → numbers_of (take 8 (numbers_bytes num)) ≡ some num
unfolding numbers_of numbers_bytes
numbers_of-numbers_bytes num h k =
    ap (λ z. some (record { n1 = z; n2 = reread num.n2 })) (reread_lem num.n1 h)
    ∙ ap (λ z. some (record { n1 = num.n1; n2 = z })) (reread_lem num.n2 k)

ints_split :
    (a b : ℤ) (s : Bytes)
    → (take 8 (ints_bytes a b ++ s) ≡ take 8 (ints_bytes a b)) × (drop 8 (ints_bytes a b ++ s) ≡ s)
unfolding ints_bytes
ints_split a b s = (refl, refl)

as_int-is_int : (z p : ℤ) → as_int z ≡ some p → is_int p ≡ true
as_int-is_int z p h = elim (Bool-cases (is_int z)) [
  | inl e ↦ ground arith
  | inr e ↦ absurd (ground arith)
]

sum-is_int : (a b p : ℤ) → add_int a b ≡ some p → is_int p ≡ true
unfolding add_int
sum-is_int a b p h = as_int-is_int (sub_ℕ (pos_part a + pos_part b) (neg_part a + neg_part b)) p h

difference-is_int : (a b p : ℤ) → sub_int a b ≡ some p → is_int p ≡ true
unfolding sub_int
difference-is_int a b p h =
    as_int-is_int (sub_ℕ (pos_part a + neg_part b) (neg_part a + pos_part b)) p h

-- The front of a list, out of a longer front of what goes on behind it.
take_front : (n m : ℕ) (xs zs : Bytes) → length xs ≡ n → n ≤ m → take n (take m (xs ++ zs)) ≡ xs
take_front zero m [] zs h le = refl
take_front (suc n) m [] zs h le = absurd (omega (arith, h))
take_front zero m (x ∷ xs) zs h le = absurd (omega (arith, h))
take_front (suc n) zero (x ∷ xs) zs h le = absurd (omega (arith, le))
take_front (suc n) (suc m) (x ∷ xs) zs h le =
    ap (λ t. x ∷ t) (take_front n m xs zs (omega (arith, h)) (omega (arith, le)))

split_front :
    (n : ℕ) (xs ys : Bytes) → length xs ≡ n → (take n (xs ++ ys) ≡ xs) × (drop n (xs ++ ys) ≡ ys)
split_front zero [] ys h = (refl, refl)
split_front (suc n) [] ys h = absurd (omega (arith, h))
split_front zero (x ∷ xs) ys h = absurd (omega (arith, h))
split_front (suc n) (x ∷ xs) ys h =
    let (front, back) = split_front n xs ys (omega (arith, h)) in (ap (λ t. x ∷ t) front, back)

floats_of-to_bytes :
    (F : Floats) (f g : F.Float) (behind : Bytes)
    → floats_of F (take 8 (take 16 (F.to_bytes f ++ F.to_bytes g ++ behind))) ≡ some (f, g)
unfolding floats_of
floats_of-to_bytes F f g behind =
    let both : length (F.to_bytes f ++ F.to_bytes g) ≡ 8 = omega (
      arith,
      length-append (F.to_bytes f) (F.to_bytes g),
      F.length-to_bytes f,
      F.length-to_bytes g,
    ) in
    let (front, back) = split_front 4 (F.to_bytes f) (F.to_bytes g) (F.length-to_bytes f) in
    rw
      (
        take_front 8 16 (F.to_bytes f ++ F.to_bytes g) behind both (omega arith),
        both,
        front,
        back,
        F.of_bytes-to_bytes f,
        F.of_bytes-to_bytes g,
      )
      refl

-- The last line on two numbers.
abbrev pub over_line : (F : Floats) → ℤ → ℤ → Line F
over_line F a b = if is_zero b then cannot_divide else over_is (quotient F a b)

-- How the programs end with these two numbers, their sum and their difference.
abbrev pub p1a_ended : (F : Floats) → ℤ → ℤ → ℤ → ℤ → Ended F
p1a_ended F a b sum difference = record {
  code = 0;
  father_lines = parent ∷ ask ∷ [];
  son_lines =
      son ∷ plus_is sum ∷ minus_is difference ∷ times_is (product F a b) ∷ over_line F a b ∷ [];
}

abbrev pub p2a_ended : (F : Floats) → ℤ → ℤ → ℤ → ℤ → Ended F
p2a_ended F a b sum difference = record {
  code = 0;
  father_lines =
      parent
      ∷ ask
      ∷ parent
      ∷ plus_is sum
      ∷ minus_is difference
      ∷ times_is (product F a b)
      ∷ over_is (if is_zero b then F.of_int (pos 0) else quotient F a b)
      ∷ [];
  son_lines = son ∷ (if is_zero b then cannot_divide ∷ [] else []);
}

module _ (F : Floats) (a b sum difference : ℤ) where
  p1a-right :
      is_int a ≡ true
      → is_int b ≡ true
      → add_int a b ≡ some sum
      → sub_int a b ≡ some difference
      → p1a F true (some (a, b)) ≡ some (p1a_ended F a b sum difference)
  unfolding p1a p1a_son
  p1a-right h k s d = rw (ints_of-ints_bytes a b h k, s, d) refl

  p1b-p1a :
      is_int a ≡ true
      → is_int b ≡ true
      → p1b F true (some (record { n1 = a; n2 = b })) ≡ p1a F true (some (a, b))
  unfolding p1a p1a_son p1b p1b_son
  p1b-p1a h k =
      rw (numbers_of-numbers_bytes (record { n1 = a; n2 = b }) h k, ints_of-ints_bytes a b h k) refl

  p2a-right :
      (behind : Bytes)
      → is_int a ≡ true
      → is_int b ≡ true
      → add_int a b ≡ some sum
      → sub_int a b ≡ some difference
      → p2a F true behind (some (a, b)) ≡ some (p2a_ended F a b sum difference)
  unfolding p2a p2a_son p2a_father
  p2a-right behind h k s d =
      let over : F.Float = if is_zero b then F.of_int (pos 0) else quotient F a b in
      let sent : Bytes = take 16 (F.to_bytes (product F a b) ++ F.to_bytes over ++ behind) in
      let (front, back) = ints_split sum difference sent in
      rw
        (
          ints_of-ints_bytes a b h k,
          s,
          d,
          front,
          back,
          ints_of-ints_bytes sum difference (sum-is_int a b sum s)
              (difference-is_int a b difference d),
          floats_of-to_bytes F (product F a b) over behind,
        )
        refl

-- For two ints whose sum and difference are ints, where fork succeeds, whatever a float is and whatever
-- lies behind the array `res1`: the sons of p1a.c and p1b.c print the sum, the difference, the product
-- and the quotient of the numbers that the father has typed, or that they cannot divide; and the father
-- of p2a.c prints those that his son has sent back, and 0 for the quotient where the son cannot divide.
pub pipes_agree :
    (F : Floats) (a b sum difference : ℤ) (behind : Bytes)
    → is_int a ≡ true
    → is_int b ≡ true
    → add_int a b ≡ some sum
    → sub_int a b ≡ some difference
    → (p1a F true (some (a, b)) ≡ some (p1a_ended F a b sum difference))
      × (p1b F true (some (record { n1 = a; n2 = b })) ≡ some (p1a_ended F a b sum difference))
      × (p2a F true behind (some (a, b)) ≡ some (p2a_ended F a b sum difference))
pipes_agree F a b sum difference behind h k s d =
    let first : p1a F true (some (a, b)) ≡ some (p1a_ended F a b sum difference) =
      p1a-right F a b sum difference h k s d in
    (first, p1b-p1a F a b sum difference h k ∙ first, p2a-right F a b sum difference behind h k s d)
