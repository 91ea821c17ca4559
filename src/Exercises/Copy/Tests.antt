-- ===== src/Exercises/Copy/Tests.antt =====
-- The theorems on the copies at a concrete file system.
use feup_sope.Base.{
  ◌≤◌, ◌≡◌, refl, ap, true, false, some, [], ◌∷◌, ◌++◌, arith, length, ltb, if◌then◌else◌, ◌↔◌,
}
use feup_sope.Base.Text.{Bytes, codes, strcmp_eq}
use feup_sope.Base.Word.{pos}
use feup_sope.Exercises.Copy.{Files, Outcome, source, destination}
use feup_sope.Exercises.Copy.Blocks.{amount, p2b}
use feup_sope.Exercises.Copy.Blocks.Complete.{IsPosix, EndsBy, p2b-copies}
use feup_sope.Exercises.Copy.Texts.{p2a, copied}
use feup_sope.Exercises.Copy.Texts.Exact.{NoNul, NeverFails}
use feup_sope.Exercises.Copy.Texts.Equivalence.{p2a-exact, p2a-p2b}

abbrev text : Bytes
text = 104 ∷ 105 ∷ 10 ∷ 33 ∷ []

-- A file, which `read` gives three bytes at a time.
abbrev three_bytes : Files
three_bytes = record {
  content = λ name. some text;
  writable = λ name. true;
  creatable = λ name. true;
  same_file = strcmp_eq;
  errno = 2;
  read = λ k left. pos (if ltb (length left) 3 then length left else 3);
  write = λ k block. pos (length block);
}

length-zero : (xs : Bytes) → length xs ≡ 0 → xs ≡ []
length-zero [] h = refl
length-zero (x ∷ xs) h = absurd (omega (arith, h))

three_bytes-IsPosix : IsPosix three_bytes
three_bytes-IsPosix = record {
  reads = λ k left n e.
      let m : (if ltb (length left) 3 then length left else 3) ≡ n = ap amount e in
      (ground (arith, m), ground (arith, m), λ z. length-zero left (ground (arith, m)));
  writes = λ k block n e. ground arith;
}

three_bytes-NeverFails : NeverFails three_bytes
three_bytes-NeverFails = record { reads = λ k left n e. absurd cc; writes = λ k block. refl }

clean_text : NoNul text
clean_text = ground arith

other : three_bytes.same_file (codes "a") (codes "b") ≡ false
unfolding strcmp_eq
other = refl

p2b-copies_example :
    (o : Outcome) × (left : Bytes) × (p2b three_bytes (codes "p2b") (codes "a" ∷ codes "b" ∷ [])
      ≡ some o)
    × (o.closed ≡ source ∷ destination ∷ [])
    × (text ≡ o.written ++ left)
    × EndsBy three_bytes o left
p2b-copies_example =
    p2b-copies three_bytes (codes "p2b") (codes "a") (codes "b") text three_bytes-IsPosix refl refl

p2a-exact_example :
    (o : Outcome) × (p2a three_bytes (codes "p2a") (codes "a" ∷ codes "b" ∷ []) ≡ some o)
    × (o.code ≡ pos 0)
    × (length o.written ≤ length text)
    × ((o.written ≡ text) ↔ NoNul text)
p2a-exact_example =
    p2a-exact three_bytes (codes "p2a") (codes "a") (codes "b") text three_bytes-NeverFails refl
      refl other

p2a-p2b_example :
    (p2a three_bytes (codes "p2a") (codes "a" ∷ codes "b" ∷ [])
      ≡ p2b three_bytes (codes "p2a") (codes "a" ∷ codes "b" ∷ []))
    × (p2b three_bytes (codes "p2a") (codes "a" ∷ codes "b" ∷ []) ≡ copied (some text))
p2a-p2b_example =
    p2a-p2b three_bytes (codes "p2a") (codes "a") (codes "b") text three_bytes-IsPosix
      three_bytes-NeverFails refl refl refl other clean_text
