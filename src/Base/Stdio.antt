-- ===== src/Base/Stdio.antt =====
-- What the programs use of <stdio.h> on files as bytes: fgets, fputs and strings with a terminator.
use Prim.Native.Nat.{ℕ, zero, suc}
use mathlib.Core.List.{[], ◌∷◌}
use feup_sope.Base.Tests.{◌==◌, if◌then◌else◌}
use feup_sope.Base.Text.{Bytes}

-- `fgets` with room for `n` bytes and the terminator: what it reads, to the end of the line, and what
-- is left of the file. It returns NULL where it reads nothing.
unfoldable pub fgets : ℕ → Bytes → Bytes × Bytes
fgets zero s = ([], s)
fgets (suc n) [] = ([], [])
fgets (suc n) (c ∷ cs) =
    let more : Bytes × Bytes = (c ∷ (fgets n cs).0, (fgets n cs).1) in
    if c == 10 then (c ∷ [], cs) else more

-- An array as a string: the bytes before the first that is 0.
unfoldable pub c_string : Bytes → Bytes
c_string [] = []
c_string (c ∷ cs) = let rest = c ∷ c_string cs in if c == 0 then [] else rest
