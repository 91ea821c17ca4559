-- ===== src/Exercises/Copy/Texts.antt =====
-- p2a.c of Exercises/prob02, and p6a.c, p6d.c, p6e.c, p6g.c and p6h.c of Exercises/prob01, which copy
-- a file with fgets and fputs. A stream fails as `read` and `write` do for the file: fgets gives NULL, as
-- at the end of the file, where `read` answers a negative number, and of what fputs is given as much
-- gets to the file as `write` takes. No program looks at the result of fputs, or at ferror.
pub mod Exact
pub mod Equivalence
use feup_sope.Base.{
  take, ◌||◌, ℕ, zero, suc, ◌+◌, ◌-◌, Bool, true, false, Option, none, some, List, [], ◌∷◌, ◌++◌,
  length, if◌then◌else◌, ◌||◌, take,
}
use feup_sope.Base.Text.{Bytes, codes, is_empty}
use feup_sope.Base.Stdio.{fgets, c_string}
use feup_sope.Base.Word.{ℤ, pos, negsuc, ℤ}
use feup_sope.Exercises.Copy.{
  Files, source, destination, usage, perror, error_text, could_not_open, Outcome,
}
use feup_sope.Exercises.Copy.Blocks.{buffer_size, amount}

-- An answer of `read` that is a failure.
abbrev pub is_failure : ℤ → Bool
is_failure (pos n) = false
is_failure (negsuc n) = true

abbrev pub buf_length : ℕ
buf_length = 256

-- What gets to the file of the line that the `k`-th fputs is given.
abbrev pub put_line : Files → ℕ → Bytes → Bytes
put_line f k line = take (amount (f.write k (c_string line))) (c_string line)

abbrev pub with_line : Files → ℕ → Bytes → Option Bytes → Option Bytes
with_line f k line none = none
with_line f k line (some out) = some (put_line f k line ++ out)

-- Whether the `k`-th fgets gives NULL.
abbrev pub gives_null : Files → ℕ → ℕ → Bytes → Bool
gives_null f room k rest = is_failure (f.read k rest) || is_empty (fgets room rest).0

-- `while ((fgets(…)) != NULL) fputs(…)` with room for so many bytes before the terminator; `k` rounds
-- are over. There is no result where the fuel runs out.
unfoldable pub text_loop : Files → ℕ → ℕ → ℕ → Bytes → Option Bytes
text_loop f room zero k rest = none
text_loop f room (suc fuel) k rest =
    let after =
      with_line f k (fgets room rest).0 (text_loop f room fuel (k + 1) (fgets room rest).1) in
    let ended : Option Bytes = some [] in if gives_null f room k rest then ended else after

-- What the source reads as behind the `fopen(dst, "w")`, which empties the destination.
abbrev pub left_of : Files → Bytes → Bytes → Bytes → Bytes
left_of f src dst text = if f.same_file src dst then [] else text

-- The loop on a source, with fuel that is enough as `Exact` proves.
abbrev pub text_copy : Files → ℕ → Bytes → Bytes → Bytes → Option Bytes
text_copy f size src dst text = text_loop f (size - 1) (length text + 1) 0 (left_of f src dst text)

-- A copy that ends by itself closes both streams.
abbrev pub copied : Option Bytes → Option Outcome
copied none = none
copied (some out) =
    some record { code = pos 0; said = []; written = out; closed = source ∷ destination ∷ [] }

abbrev p2a_open : Files → Bytes → Bytes → Option Bytes → Option Outcome
p2a_open f src dst none =
    some record { code = pos 2; said = perror (some src) ∷ []; written = []; closed = [] }
p2a_open f src dst (some text) =
    let copy = copied (text_copy f buffer_size src dst text) in
    let refused : Option Outcome =
      some record {
        code = pos 3;
        said = perror (some dst) ∷ [];
        written = [];
        closed = source ∷ [];
      } in
    if f.writable dst then copy else refused

-- `main` of p2a.c, for its arguments behind the name of the program.
unfoldable pub p2a : Files → Bytes → List Bytes → Option Outcome
p2a f name (src ∷ dst ∷ []) = p2a_open f src dst (f.content src)
p2a f name _ = some record { code = pos 1; said = usage name ∷ []; written = []; closed = [] }

abbrev pub infile : Bytes
infile = codes "infile.txt"

abbrev pub outfile : Bytes
outfile = codes "outfile.txt"

abbrev p6a_open : Files → Option Bytes → Option Outcome
p6a_open f none = some record { code = pos 1; said = []; written = []; closed = [] }
p6a_open f (some text) =
    let copy = copied (text_copy f buf_length infile outfile text) in
    let refused : Option Outcome =
      some record { code = pos 2; said = []; written = []; closed = [] } in
    if f.writable outfile then copy else refused

-- `main` of p6a.c.
abbrev pub p6a : Files → Option Outcome
p6a f = p6a_open f (f.content infile)

abbrev error_title : Bytes
error_title = codes "ERROR"

abbrev p6d_open : Files → Option Bytes → Option Outcome
p6d_open f none =
    some record { code = pos 1; said = perror (some error_title) ∷ []; written = []; closed = [] }
p6d_open f (some text) =
    let copy = copied (text_copy f buf_length infile outfile text) in
    let refused : Option Outcome =
      some
        record { code = pos 2; said = perror (some error_title) ∷ []; written = []; closed = [] } in
    if f.writable outfile then copy else refused

-- `main` of p6d.c.
abbrev pub p6d : Files → Option Outcome
p6d f = p6d_open f (f.content infile)

abbrev p6e_open : Files → Option Bytes → Option Outcome
p6e_open f none =
    some record { code = pos 1; said = error_text f.errno ∷ []; written = []; closed = [] }
p6e_open f (some text) =
    let copy = copied (text_copy f buf_length infile outfile text) in
    let refused : Option Outcome =
      some record { code = pos 2; said = error_text f.errno ∷ []; written = []; closed = [] } in
    if f.writable outfile then copy else refused

-- `main` of p6e.c.
abbrev pub p6e : Files → Option Outcome
p6e f = p6e_open f (f.content infile)

abbrev no_input : Files → Option Outcome
no_input f = some record {
  code = pos 1;
  said = could_not_open (codes "inputfile.txt") f.errno ∷ [];
  written = [];
  closed = [];
}

abbrev no_output : Files → Option Outcome
no_output f = some record {
  code = pos 2;
  said = could_not_open (codes "outputfile.txt") f.errno ∷ [];
  written = [];
  closed = [];
}

abbrev p6g_open : Files → Bytes → Bytes → Option Bytes → Option Outcome
p6g_open f src dst none = no_input f
p6g_open f src dst (some text) =
    let copy = copied (text_copy f buf_length src dst text) in
    let refused = no_output f in if f.writable dst then copy else refused

abbrev p6g_without_output : Files → Option Bytes → Option Outcome
p6g_without_output f none = no_input f
p6g_without_output f (some text) = no_output f

-- `main` of p6g.c, for its arguments behind the name of the program; it does not count them, and
-- `fopen` of NULL, where there are fewer, fails.
unfoldable pub p6g : Files → List Bytes → Option Outcome
p6g f [] = no_input f
p6g f (src ∷ []) = p6g_without_output f (f.content src)
p6g f (src ∷ dst ∷ more) = p6g_open f src dst (f.content src)

-- `main` of p6h.c.
unfoldable pub p6h : Files → Bytes → List Bytes → Option Outcome
p6h f name (src ∷ dst ∷ []) = p6g_open f src dst (f.content src)
p6h f name _ = some record { code = negsuc 0; said = usage name ∷ []; written = []; closed = [] }
