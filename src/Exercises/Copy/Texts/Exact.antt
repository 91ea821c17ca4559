-- ===== src/Exercises/Copy/Texts/Exact.antt =====
-- What the copies with fgets and fputs write.
use feup_sope.Base.{
  take_all, length-take_le_length, ◌||◌, Bool, ℕ, zero, suc, ◌+◌, ◌≤◌, ◌<◌, ◌≡◌, ◌≢◌, refl, sym, ap,
  ◌∙◌, true, false, Option, some, [], ◌∷◌, ◌++◌, arith, length, length-append, All, Bool-cases, inl,
  inr, take_all, Bool,
}
use feup_sope.Base.Text.{Bytes, is_empty}
use feup_sope.Base.Stdio.{fgets, c_string}
use feup_sope.Exercises.Copy.Texts.{text_loop, put_line, gives_null, is_failure}
use feup_sope.Exercises.Copy.{Files}
use feup_sope.Exercises.Copy.Blocks.{amount}
use feup_sope.Base.Word.{ℤ, pos, negsuc}

-- What `fgets` gives and what it leaves are the file.
fgets-append : (n : ℕ) (s : Bytes) → (fgets n s).0 ++ (fgets n s).1 ≡ s
unfolding fgets
fgets-append zero s = refl
fgets-append (suc n) [] = refl
fgets-append (suc n) (c ∷ cs) = ground (arith, fgets-append n cs)

-- It gives nothing only at the end of the file.
fgets-empty : (n : ℕ) (s : Bytes) → is_empty (fgets (suc n) s).0 ≡ true → s ≡ []
unfolding fgets
fgets-empty n [] h = refl
fgets-empty n (c ∷ cs) h = ground arith

-- No byte is the terminator.
abbrev pub NoNul : Bytes → Type 0
NoNul s = All (λ c. c ≢ 0) s

All-append :
    (xs ys : Bytes)
    → (NoNul (xs ++ ys) → NoNul xs × NoNul ys) × (NoNul xs → NoNul ys → NoNul (xs ++ ys))
All-append [] ys = (λ h. (tt, h), λ h k. k)
All-append (x ∷ xs) ys =
    let (parts, whole) = All-append xs ys in
    (λ h. ((h.0, (parts h.1).0), (parts h.1).1), λ h k. (h.0, whole h.1 k))

c_string-NoNul : (s : Bytes) → NoNul s → c_string s ≡ s
unfolding c_string
c_string-NoNul [] h = refl
c_string-NoNul (c ∷ cs) h = ground (arith, c_string-NoNul cs h.1)

length-c_string : (s : Bytes) → length (c_string s) ≤ length s
unfolding c_string
length-c_string [] = omega arith
length-c_string (c ∷ cs) = ground (arith, length-c_string cs)

-- A string of the length of its array is all of it.
NoNul-c_string : (s : Bytes) → length (c_string s) ≡ length s → NoNul s
unfolding c_string
NoNul-c_string [] h = tt
NoNul-c_string (c ∷ cs) h = (ground arith, NoNul-c_string cs (ground (arith, length-c_string cs)))

-- No call fails, and `write` writes what it is given.
pub record NeverFails (f : Files) : Type 0 where
  pub reads : (k : ℕ) (left : Bytes) (n : ℕ) → f.read k left ≢ negsuc n
  pub writes : (k : ℕ) (block : Bytes) → amount (f.write k block) ≡ length block

-- What the loop comes to: no more bytes than the source has; as many only where it has no byte 0, and
-- then, where no call fails, the source.
pub record Exact (f : Files) (src : Bytes) (r : Option Bytes) : Type 0 where
  pub out : Bytes
  pub ends : r ≡ some out
  pub shorter : length out ≤ length src
  pub whole : length out ≡ length src → NoNul src
  pub same : NeverFails f → NoNul src → out ≡ src

loop-ended :
    (f : Files) (room fuel k : ℕ) (rest : Bytes)
    → gives_null f room k rest ≡ true
    → text_loop f room (suc fuel) k rest ≡ some []
unfolding text_loop
loop-ended f room fuel k rest e = rw e refl

loop-went_on :
    (f : Files) (room fuel k : ℕ) (rest out : Bytes)
    → gives_null f room k rest ≡ false
    → text_loop f room fuel (k + 1) (fgets room rest).1 ≡ some out
    → text_loop f room (suc fuel) k rest ≡ some (put_line f k (fgets room rest).0 ++ out)
unfolding text_loop
loop-went_on f room fuel k rest out e r = rw (e, r) refl

nonempty : (s : Bytes) → is_empty s ≡ false → 0 < length s
nonempty [] h = absurd cc
nonempty (c ∷ cs) h = omega arith

read-is_failure :
    (f : Files) (k : ℕ) (rest : Bytes) → NeverFails f → is_failure (f.read k rest) ≡ false
read-is_failure f k rest sound = not_negative (f.read k rest) (sound.reads k rest)
  where
    not_negative : (z : ℤ) → ((n : ℕ) → z ≢ negsuc n) → is_failure z ≡ false
    not_negative (pos n) h = refl
    not_negative (negsuc n) h = absurd (h n refl)

-- NULL is for a failure or the end of the file.
null_at_end :
    (f : Files) (n k : ℕ) (rest : Bytes)
    → gives_null f (suc n) k rest ≡ true
    → NeverFails f
    → rest ≡ []
null_at_end f n k rest e sound =
    fgets-empty n rest (ground (arith, e, read-is_failure f k rest sound))

put_line-whole :
    (f : Files) (k : ℕ) (line : Bytes) → NeverFails f → NoNul line → put_line f k line ≡ line
put_line-whole f k line sound clean =
    take_all (amount (f.write k (c_string line))) (c_string line)
      (omega (arith, sound.writes k (c_string line)))
    ∙ c_string-NoNul line clean

length-put_line :
    (f : Files) (k : ℕ) (line : Bytes) → length (put_line f k line) ≤ length (c_string line)
length-put_line f k line =
    length-take_le_length (amount (f.write k (c_string line))) (c_string line)

-- A line and what is behind it.
Exact-line :
    (f : Files) (k : ℕ) (line more rest : Bytes) (r r' : Option Bytes)
    → line ++ more ≡ rest
    → (x : Exact f more r) → r' ≡ some (put_line f k line ++ x.out)
    → Exact f rest r'
Exact-line f k line more rest r r' e x h =
    let len : length rest ≡ length line + length more =
      ap length (sym e) ∙ length-append line more in
    let len' : length (put_line f k line ++ x.out) ≡ length (put_line f k line) + length x.out =
      length-append (put_line f k line) x.out in
    let fits : length (put_line f k line) ≤ length (c_string line) = length-put_line f k line in
    record {
      out = put_line f k line ++ x.out;
      ends = h;
      shorter = omega (arith, len, len', fits, length-c_string line, x.shorter);
      whole = λ j. rw (← e) (
          (All-append line more).1
            (NoNul-c_string line
              (omega (arith, j, len, len', fits, length-c_string line, x.shorter)))
            (x.whole (omega (arith, j, len, len', fits, length-c_string line, x.shorter))));
      same = λ sound j.
          let (here, behind) = (All-append line more).0 (rw e j) in
          rw (put_line-whole f k line sound here, x.same sound behind) e;
    }

-- A loop that ends on a failure has less than the whole source, unless it is at its end.
Exact-ended :
    (f : Files) (n k : ℕ) (rest : Bytes) (r : Option Bytes)
    → r ≡ some []
    → gives_null f (suc n) k rest ≡ true
    → Exact f rest r
Exact-ended f n k rest r h e = record {
  out = [];
  ends = h;
  shorter = omega arith;
  whole = λ j. no_bytes rest j;
  same = λ sound j. sym (null_at_end f n k rest e sound);
}
  where
    no_bytes : (s : Bytes) → length {A = ℕ} [] ≡ length s → NoNul s
    no_bytes [] j = tt
    no_bytes (c ∷ cs) j = absurd (omega (arith, j))

not_empty : (failed : Bool) (s : Bytes) → (failed || is_empty s) ≡ false → is_empty s ≡ false
not_empty failed s h = ground arith

pub text_loop-Exact :
    (f : Files) (n fuel k : ℕ) (rest : Bytes)
    → length rest < fuel
    → Exact f rest (text_loop f (suc n) fuel k rest)
text_loop-Exact f n zero k rest h = absurd (omega (arith, h))
text_loop-Exact f n (suc fuel) k rest h = elim (Bool-cases (gives_null f (suc n) k rest)) [
  | inl e ↦ Exact-ended f n k rest _ (loop-ended f (suc n) fuel k rest e) e
  | inr e ↦
      let line : Bytes = (fgets (suc n) rest).0 in
      let more : Bytes = (fgets (suc n) rest).1 in
      let split : line ++ more ≡ rest = fgets-append (suc n) rest in
      let some_byte = nonempty line (not_empty (is_failure (f.read k rest)) line e) in
      let less : length more < length rest =
        omega (arith, some_byte, ap length split, length-append line more) in
      let x : Exact f more (text_loop f (suc n) fuel (k + 1) more) =
        text_loop-Exact f n fuel (k + 1) more (omega (arith, h, less)) in
      Exact-line f k line more rest _ _ split x (loop-went_on f (suc n) fuel k rest x.out e x.ends)
]
