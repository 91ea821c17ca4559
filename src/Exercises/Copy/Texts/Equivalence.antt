-- ===== src/Exercises/Copy/Texts/Equivalence.antt =====
-- p2a.c of Exercises/prob02, which copies lines, next to p2b.c, which copies blocks.
use feup_sope.Base.{
  ◌+◌, ◌++◌, ◌≤◌, ◌≡◌, inl, inr, refl, sym, ap, ◌∙◌, true, false, some, [], ◌∷◌, arith, length,
  Bool-cases, ◌↔◌,
}
use mathlib.Core.List.{append-nil}
use feup_sope.Base.Text.{Bytes}
use feup_sope.Base.Word.{pos}
use feup_sope.Exercises.Copy.{Files, Outcome}
use feup_sope.Exercises.Copy.Blocks.{block_fuel, p2b}
use feup_sope.Exercises.Copy.Blocks.Complete.{IsPosix, block_loop-Copied}
use feup_sope.Exercises.Copy.Texts.{p2a, text_copy, copied}
use feup_sope.Exercises.Copy.Texts.Exact.{NoNul, NeverFails, Exact, text_loop-Exact}

p2b-whole :
    (f : Files) (name src dst text : Bytes)
    → IsPosix f
    → NeverFails f
    → f.content src ≡ some text
    → f.creatable dst ≡ true
    → p2b f name (src ∷ dst ∷ []) ≡ copied (some text)
unfolding p2b
p2b-whole f name src dst text posix sound there new =
    let (ended, out, r, c) = block_loop-Copied f posix (block_fuel text) 0 text (omega arith) in
    elim (Bool-cases ended) [
      | inl e ↦
          let all : out ≡ text = elim (c.ended_why e) [
            | inl at_end ↦ sym (c.whole ∙ ap (λ t. out ++ t) at_end ∙ append-nil out)
            | inr (k, n, h) ↦ absurd (sound.reads k c.left n h)
          ] in
          rw (there, new, r, e, all) refl
      | inr e ↦
          let (k, block, less) = c.failed_why e in
          absurd (omega (arith, less, sound.writes k block))
    ]

-- What p2a.c does with the output of its loop.
p2a-copied :
    (f : Files) (name src dst text out : Bytes)
    → f.content src ≡ some text
    → f.writable dst ≡ true
    → text_copy f 512 src dst text ≡ some out
    → p2a f name (src ∷ dst ∷ []) ≡ copied (some out)
unfolding p2a
p2a-copied f name src dst text out there opens e = rw (there, opens, e) refl

p2a_left-Exact :
    (f : Files) (src dst text : Bytes)
    → f.same_file src dst ≡ false
    → Exact f text (text_copy f 512 src dst text)
p2a_left-Exact f src dst text other =
    rw other (text_loop-Exact f 510 (length text + 1) 0 text (omega arith))

-- For two names of different files, of which the first opens for reading and the second for writing,
-- p2a.c ends with exit code 0 and writes no more bytes than the source has, also where a call has failed.
p2a-ends :
    (f : Files) (name src dst text : Bytes)
    → f.content src ≡ some text
    → f.writable dst ≡ true
    → f.same_file src dst ≡ false
    → (o : Outcome) × (p2a f name (src ∷ dst ∷ []) ≡ some o)
      × (o.code ≡ pos 0)
      × (length o.written ≤ length text)
      × (o.written ≡ text → NoNul text)
      × (NeverFails f → NoNul text → o.written ≡ text)
p2a-ends f name src dst text there opens other =
    let x : Exact f text (text_copy f 512 src dst text) = p2a_left-Exact f src dst text other in
    (
      _,
      p2a-copied f name src dst text x.out there opens x.ends,
      refl,
      x.shorter,
      λ e. x.whole (ap length e),
      x.same,
    )

-- Where no call fails and each takes what it is given, p2a.c ends, for two names of different files, of
-- which the first opens for reading and the second for writing, with exit code 0, and writes no more
-- bytes than the source has; it writes the source if and only if the source has no byte 0.
pub p2a-exact :
    (f : Files) (name src dst text : Bytes)
    → NeverFails f
    → f.content src ≡ some text
    → f.writable dst ≡ true
    → f.same_file src dst ≡ false
    → (o : Outcome) × (p2a f name (src ∷ dst ∷ []) ≡ some o)
      × (o.code ≡ pos 0)
      × (length o.written ≤ length text)
      × ((o.written ≡ text) ↔ NoNul text)
p2a-exact f name src dst text sound there opens other =
    let (o, e, code, shorter, only, same) = p2a-ends f name src dst text there opens other in
    (o, e, code, shorter, (only, same sound))

-- For two names of different files, of which the first opens, has no byte 0, and the second does not
-- exist and can be written, p2a.c and p2b.c do the same: where no call of `read` or `write` fails and
-- each `write` writes what it is given, both end with exit code 0 and the source in the destination.
pub p2a-p2b :
    (f : Files) (name src dst text : Bytes)
    → IsPosix f
    → NeverFails f
    → f.content src ≡ some text
    → f.writable dst ≡ true
    → f.creatable dst ≡ true
    → f.same_file src dst ≡ false
    → NoNul text
    → (p2a f name (src ∷ dst ∷ []) ≡ p2b f name (src ∷ dst ∷ []))
      × (p2b f name (src ∷ dst ∷ []) ≡ copied (some text))
p2a-p2b f name src dst text posix sound there opens new other clean =
    let x : Exact f text (text_copy f 512 src dst text) = p2a_left-Exact f src dst text other in
    let whole : p2b f name (src ∷ dst ∷ []) ≡ copied (some text) =
      p2b-whole f name src dst text posix sound there new in
    let lines : p2a f name (src ∷ dst ∷ []) ≡ copied (some x.out) =
      p2a-copied f name src dst text x.out there opens x.ends in
    (rw (lines, x.same sound clean) (sym whole), whole)
