-- ===== src/Exercises/Copy/Agree.antt =====
-- The copies of Exercises/prob01 and prob02 next to each other.
use feup_sope.Base.{
  List, ◌≤◌, ap, ◌+◌, ◌≡◌, ◌↔◌, ◌⊎◌, inl, inr, refl, arith, Bool, true, false, Option, none, some,
  [], ◌∷◌, ◌++◌, length,
}
use feup_sope.Base.Text.{Bytes}
use feup_sope.Base.Word.{pos}
use feup_sope.Exercises.Copy.{Files, Outcome, source, destination, unset}
use feup_sope.Exercises.Copy.Blocks.{block_fuel, p2b, p2b_end}
use feup_sope.Exercises.Copy.Blocks.Complete.{IsPosix, Copied, EndsBy, block_loop-Copied}
use feup_sope.Exercises.Copy.Screen.{p3a, p3a_end, p3b, p3b_end}
use feup_sope.Exercises.Copy.Texts.Exact.{NoNul, Exact, text_loop-Exact, NeverFails}
use feup_sope.Exercises.Copy.Texts.{text_copy, p6a, p6d, p6e, p6g, p6h, infile, outfile}

-- What p3a.c comes to: the copy, and which descriptors it closes.
abbrev pub ScreenCopy : Files → Bytes → Option Outcome → Type 0
ScreenCopy f text r =
    (o : Outcome) × (left : Bytes) × (r ≡ some o)
    × (text ≡ o.written ++ left)
    × EndsBy f o left
    × (((o.code ≡ pos 0) × (o.closed ≡ source ∷ []))
        ⊎ ((o.code ≡ pos 4) × (o.closed ≡ source ∷ unset ∷ [])))

p3a_end-ScreenCopy :
    (f : Files) (text out : Bytes) (ended : Bool)
    → Copied f text ended out
    → ScreenCopy f text (p3a_end (some (ended, out)))
p3a_end-ScreenCopy f text out true c =
    (_, c.left, refl, c.whole, inl (refl, c.ended_why refl), inl (refl, refl))
p3a_end-ScreenCopy f text out false c =
    (_, c.left, refl, c.whole, inr (refl, c.failed_why refl), inr (refl, refl))

p3b_end-p2b_end : (dst : Bytes) (r : Option (Bool × Bytes)) → p3b_end dst r ≡ p2b_end dst r
p3b_end-p2b_end dst none = refl
p3b_end-p2b_end dst (some (true, out)) = refl
p3b_end-p2b_end dst (some (false, out)) = refl

-- For `read` and `write` that keep to their limits and a source that opens, p3a.c shows the source up
-- to a point as p2b.c copies it, and closes a descriptor that has no value where a call of `write` has
-- failed, and only there; p3b.c does the same with one argument, and what p2b.c does with two.
pub p3b-p3a :
    (f : Files) (name src dst text : Bytes)
    → IsPosix f
    → f.content src ≡ some text
    → ScreenCopy f text (p3a f name (src ∷ []))
      × (p3b f name (src ∷ []) ≡ p3a f name (src ∷ []))
      × (p3b f name (src ∷ dst ∷ []) ≡ p2b f name (src ∷ dst ∷ []))
unfolding p3a p3b p2b
p3b-p3a f name src dst text posix there =
    let (ended, out, r, c) = block_loop-Copied f posix (block_fuel text) 0 text (omega arith) in
    (
      rw (there, r) (p3a_end-ScreenCopy f text out ended c),
      refl,
      rw (there, p3b_end-p2b_end dst _) refl,
    )

-- For infile.txt and outfile.txt that are different files and open, p6a.c, p6d.c and p6e.c, and p6g.c
-- and p6h.c with these two names, end in the same way: with exit code 0, and no more bytes written than
-- infile.txt has, which, where no call fails, are infile.txt if and only if it has no byte 0.
pub p6_agree :
    (f : Files) (name text : Bytes) (more : List Bytes)
    → f.content infile ≡ some text
    → f.writable outfile ≡ true
    → f.same_file infile outfile ≡ false
    → NeverFails f
    → (o : Outcome) × (p6a f ≡ some o)
      × (p6d f ≡ some o)
      × (p6e f ≡ some o)
      × (p6g f (infile ∷ outfile ∷ more) ≡ some o)
      × (p6h f name (infile ∷ outfile ∷ []) ≡ some o)
      × (o.code ≡ pos 0)
      × (length o.written ≤ length text)
      × ((o.written ≡ text) ↔ NoNul text)
unfolding p6g p6h
p6_agree f name text more there opens other sound =
    let x : Exact f text (text_copy f 256 infile outfile text) =
      rw other (text_loop-Exact f 254 (length text + 1) 0 text (omega arith)) in
    let ends = x.ends in
    let o : Outcome = record {
      code = pos 0;
      said = [];
      written = x.out;
      closed = source ∷ destination ∷ [];
    } in
    (
      o,
      rw (there, opens, ends) refl,
      rw (there, opens, ends) refl,
      rw (there, opens, ends) refl,
      rw (there, opens, ends) refl,
      rw (there, opens, ends) refl,
      refl,
      x.shorter,
      (λ e. x.whole (ap length e), x.same sound),
    )
