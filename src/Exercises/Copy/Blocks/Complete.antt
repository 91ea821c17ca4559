-- ===== src/Exercises/Copy/Blocks/Complete.antt =====
-- What p2b.c, p3a.c and p3b.c write, whatever `read` and `write` answer.
use feup_sope.Base.{
  ℕ, zero, suc, ◌+◌, ◌≤◌, ◌<◌, ◌≡◌, ◌⊎◌, inl, inr, refl, sym, ap, ◌∙◌, ◌==◌, Bool, true, false,
  ◌&&◌, Option, some, [], ◌∷◌, ◌++◌, arith, length, take, Bool-cases,
}
use mathlib.Core.List.{append_assoc}
use feup_sope.Base.Text.{Bytes}
use feup_sope.Base.Word.{ℤ, pos, negsuc}
use feup_sope.Exercises.Copy.{Files, Outcome, source, destination}
use feup_sope.Exercises.Copy.Blocks.{
  amount, drop, is_positive, block_loop, block_fuel, p2b, buffer_size, p2b_end,
}

-- `read` gives no more than the buffer has room for and than is left, and nothing only at the end;
-- `write` writes no more than it is given.
pub record IsPosix (f : Files) : Type 0 where
  pub reads :
      (k : ℕ) (left : Bytes) (n : ℕ)
      → f.read k left ≡ pos n
      → (n ≤ length left) × (n ≤ buffer_size) × (n ≡ 0 → left ≡ [])
  pub writes : (k : ℕ) (block : Bytes) (n : ℕ) → f.write k block ≡ pos n → n ≤ length block

-- What a copy comes to: `out` is the source up to what is left. Where the loop ends by `read`,
-- nothing is left or a call of `read` has failed; otherwise a call of `write` has not written a block.
pub record Copied (f : Files) (src : Bytes) (ended : Bool) (out : Bytes) : Type 0 where
  pub left : Bytes
  pub whole : src ≡ out ++ left
  pub ended_why : ended ≡ true → (left ≡ []) ⊎ ((k : ℕ) × (n : ℕ) × (f.read k left ≡ negsuc n))
  pub failed_why :
      ended ≡ false → (k : ℕ) × (block : Bytes) × (amount (f.write k block) < length block)

take-drop : (n : ℕ) (xs : Bytes) → xs ≡ take n xs ++ drop n xs
unfolding drop
take-drop zero xs = refl
take-drop (suc n) [] = refl
take-drop (suc n) (x ∷ xs) = ap (λ t. x ∷ t) (take-drop n xs)

length-drop : (n : ℕ) (xs : Bytes) → n ≤ length xs → length xs ≡ n + length (drop n xs)
unfolding drop
length-drop zero xs h = omega arith
length-drop (suc n) [] h = absurd (omega (arith, h))
length-drop (suc n) (x ∷ xs) h = omega (arith, length-drop n xs (omega (arith, h)))

length-take : (n : ℕ) (xs : Bytes) → n ≤ length xs → length (take n xs) ≡ n
length-take zero xs h = omega arith
length-take (suc n) [] h = absurd (omega (arith, h))
length-take (suc n) (x ∷ xs) h = omega (arith, length-take n xs (omega (arith, h)))

ℤ-cases : (z : ℤ) → ((n : ℕ) × (z ≡ pos n)) ⊎ ((n : ℕ) × (z ≡ negsuc n))
ℤ-cases (pos n) = inl (n, refl)
ℤ-cases (negsuc n) = inr (n, refl)

-- The result of the loop.
abbrev Result : Files → Bytes → Option (Bool × Bytes) → Type 0
Result f src r = (ended : Bool) × (out : Bytes) × (r ≡ some (ended, out)) × Copied f src ended out

-- The loop stops where `read` gives no bytes.
loop-ended :
    (f : Files) (fuel k : ℕ) (rest : Bytes)
    → is_positive (f.read k rest) ≡ false
    → block_loop f (suc fuel) k rest ≡ some (true, [])
unfolding block_loop
loop-ended f fuel k rest e = rw e refl

-- A block that is not written whole, and one that is.
loop-failed :
    (f : Files) (fuel k : ℕ) (rest : Bytes) (n : ℕ)
    → f.read k rest ≡ pos (suc n)
    → (is_positive (f.write k (take (suc n) rest))
        && (amount (f.write k (take (suc n) rest)) == suc n))
      ≡ false
    → block_loop f (suc fuel) k rest
      ≡ some (false, take (amount (f.write k (take (suc n) rest))) (take (suc n) rest))
unfolding block_loop
loop-failed f fuel k rest n e h = rw (e, h) refl

loop-went_on :
    (f : Files) (fuel k : ℕ) (rest : Bytes) (n : ℕ) (ended : Bool) (out : Bytes)
    → f.read k rest ≡ pos (suc n)
    → (is_positive (f.write k (take (suc n) rest))
        && (amount (f.write k (take (suc n) rest)) == suc n))
      ≡ true
    → block_loop f fuel (k + 1) (drop (suc n) rest) ≡ some (ended, out)
    → block_loop f (suc fuel) k rest ≡ some (ended, take (suc n) rest ++ out)
unfolding block_loop
loop-went_on f fuel k rest n ended out e h r = rw (e, h, r) refl

-- An answer that the test of `write` refuses is of fewer bytes.
short_write :
    (f : Files) (k : ℕ) (block : Bytes) (n : ℕ)
    → IsPosix f
    → length block ≡ suc n
    → (is_positive (f.write k block) && (amount (f.write k block) == suc n)) ≡ false
    → amount (f.write k block) < length block
short_write f k block n posix len h = elim (ℤ-cases (f.write k block)) [
  | inl (m, e) ↦ ground (arith, posix.writes k block m e)
  | inr (m, e) ↦ ground arith
]

-- The source behind a block.
Copied-block :
    (f : Files) (rest : Bytes) (n : ℕ) (ended : Bool) (out : Bytes)
    → Copied f (drop n rest) ended out
    → Copied f rest ended (take n rest ++ out)
Copied-block f rest n ended out c = record {
  left = c.left;
  whole =
      take-drop n rest
      ∙ ap (λ t. take n rest ++ t) c.whole
      ∙ sym (append_assoc (take n rest) out c.left);
  ended_why = c.ended_why;
  failed_why = c.failed_why;
}

pub block_loop-Copied :
    (f : Files)
    → IsPosix f
    → (fuel k : ℕ) (rest : Bytes) → length rest < fuel
    → Result f rest (block_loop f fuel k rest)
block_loop-Copied f posix zero k rest h = absurd (omega (arith, h))
block_loop-Copied f posix (suc fuel) k rest h = elim (ℤ-cases (f.read k rest)) [
  | inr (n, e) ↦ (
    true,
    [],
    loop-ended f fuel k rest (rw e refl),
    record {
      left = rest;
      whole = refl;
      ended_why = λ t. inr (k, n, e);
      failed_why = λ t. absurd cc;
    },
  )
  | inl (zero, e) ↦ (
    true,
    [],
    loop-ended f fuel k rest (rw e refl),
    record {
      left = rest;
      whole = refl;
      ended_why = λ t. inl ((posix.reads k rest 0 e).2 refl);
      failed_why = λ t. absurd cc;
    },
  )
  | inl (suc n, e) ↦
      let block = take (suc n) rest in
      let nw = f.write k block in
      let fits : suc n ≤ length rest = (posix.reads k rest (suc n) e).0 in
      elim (Bool-cases (is_positive nw && (amount nw == suc n))) [
        | inl ok ↦
            let (ended, out, r, c) =
              block_loop-Copied f posix fuel (k + 1) (drop (suc n) rest)
                (omega (arith, h, length-drop (suc n) rest fits)) in
            (
              ended,
              block ++ out,
              loop-went_on f fuel k rest n ended out e ok r,
              Copied-block f rest (suc n) ended out c,
            )
        | inr bad ↦ (
          false,
          take (amount nw) block,
          loop-failed f fuel k rest n e bad,
          record {
            left = drop (amount nw) block ++ drop (suc n) rest;
            whole =
                take-drop (suc n) rest
                ∙ ap (λ t. t ++ drop (suc n) rest) (take-drop (amount nw) block)
                ∙ append_assoc (take (amount nw) block) _ _;
            ended_why = λ t. absurd cc;
            failed_why =
                λ t. (k, block, short_write f k block n posix (length-take (suc n) rest fits) bad);
          },
        )
      ]
]

-- How a copy ends: with code 0 where nothing is left or `read` has failed at what is left, and with
-- code 4 where `write` has not written a whole block.
abbrev pub EndsBy : Files → Outcome → Bytes → Type 0
EndsBy f o left =
    ((o.code ≡ pos 0) × ((left ≡ []) ⊎ ((k : ℕ) × (n : ℕ) × (f.read k left ≡ negsuc n))))
    ⊎ ((o.code ≡ pos 4) × ((k : ℕ) × (block : Bytes) × (amount (f.write k block) < length block)))

p2b_end-copies :
    (f : Files) (dst text out : Bytes) (ended : Bool)
    → Copied f text ended out
    → (o : Outcome) × (left : Bytes) × (p2b_end dst (some (ended, out)) ≡ some o)
      × (o.closed ≡ source ∷ destination ∷ [])
      × (text ≡ o.written ++ left)
      × EndsBy f o left
p2b_end-copies f dst text out true c =
    (_, c.left, refl, refl, c.whole, inl (refl, c.ended_why refl))
p2b_end-copies f dst text out false c =
    (_, c.left, refl, refl, c.whole, inr (refl, c.failed_why refl))

-- For `read` and `write` that keep to their limits, p2b.c on two names, of which the first is a file
-- that opens and the second a file that is created, ends with both closed, and the destination holds
-- the source up to a point: all of it with exit code 0, unless a call of `read` has failed there, which
-- the program takes for the end; or some of it with exit code 4, and then a call of `write` has not
-- written the whole of its block.
pub p2b-copies :
    (f : Files) (name src dst text : Bytes)
    → IsPosix f
    → f.content src ≡ some text
    → f.creatable dst ≡ true
    → (o : Outcome) × (left : Bytes) × (p2b f name (src ∷ dst ∷ []) ≡ some o)
      × (o.closed ≡ source ∷ destination ∷ [])
      × (text ≡ o.written ++ left)
      × EndsBy f o left
unfolding p2b
p2b-copies f name src dst text posix there new =
    let (ended, out, r, c) = block_loop-Copied f posix (block_fuel text) 0 text (omega arith) in
    let (o, left, e, shut, whole, why) = p2b_end-copies f dst text out ended c in
    (o, left, rw (there, new, r) e, shut, whole, why)
