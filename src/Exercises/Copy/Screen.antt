-- ===== src/Exercises/Copy/Screen.antt =====
-- Exercises/prob02: p3a.c, which copies a file to the screen, and p3b.c, which copies it there or to
-- another file.
use feup_sope.Base.{Bool, true, false, Option, none, some, List, [], ◌∷◌, if◌then◌else◌}
use feup_sope.Base.Text.{Bytes}
use feup_sope.Base.Word.{pos}
use feup_sope.Exercises.Copy.{Files, source, destination, unset, usage, perror, Outcome}
use feup_sope.Exercises.Copy.Blocks.{block_loop, block_fuel}

-- What p3a.c does behind its `open`: `fd2` is closed where it has no value, and `argv[2]` is NULL.
abbrev pub p3a_end : Option (Bool × Bytes) → Option Outcome
p3a_end none = none
p3a_end (some (true, out)) =
    some record { code = pos 0; said = []; written = out; closed = source ∷ [] }
p3a_end (some (false, out)) =
    some
      record { code = pos 4; said = perror none ∷ []; written = out; closed = source ∷ unset ∷ [] }

abbrev p3a_open : Files → Bytes → Option Bytes → Option Outcome
p3a_open f src none =
    some record { code = pos 2; said = perror (some src) ∷ []; written = []; closed = [] }
p3a_open f src (some text) = p3a_end (block_loop f (block_fuel text) 0 text)

-- `main` of p3a.c, for its arguments behind the name of the program.
unfoldable pub p3a : Files → Bytes → List Bytes → Option Outcome
p3a f name (src ∷ []) = p3a_open f src (f.content src)
p3a f name _ = some record { code = pos 1; said = usage name ∷ []; written = []; closed = [] }

-- What p3b.c does with a second argument, behind its calls of `open`.
abbrev pub p3b_end : Bytes → Option (Bool × Bytes) → Option Outcome
p3b_end dst none = none
p3b_end dst (some (true, out)) =
    some record { code = pos 0; said = []; written = out; closed = source ∷ destination ∷ [] }
p3b_end dst (some (false, out)) = some record {
  code = pos 4;
  said = perror (some dst) ∷ [];
  written = out;
  closed = source ∷ destination ∷ [];
}

abbrev p3b_open : Files → Bytes → Bytes → Option Bytes → Option Outcome
p3b_open f src dst none =
    some record { code = pos 2; said = perror (some src) ∷ []; written = []; closed = [] }
p3b_open f src dst (some text) =
    let copy = p3b_end dst (block_loop f (block_fuel text) 0 text) in
    let refused : Option Outcome =
      some record {
        code = pos 3;
        said = perror (some dst) ∷ [];
        written = [];
        closed = source ∷ [];
      } in
    if f.creatable dst then copy else refused

-- `main` of p3b.c. Its destination is the screen with one argument.
unfoldable pub p3b : Files → Bytes → List Bytes → Option Outcome
p3b f name (src ∷ []) = p3a_open f src (f.content src)
p3b f name (src ∷ dst ∷ []) = p3b_open f src dst (f.content src)
p3b f name _ = some record { code = pos 1; said = usage name ∷ []; written = []; closed = [] }
