-- ===== src/Exercises/Copy/Blocks.antt =====
-- Exercises/prob02: p2b.c, p3a.c and p3b.c, which copy with read and write.
pub mod Complete
use feup_sope.Base.{
  ℕ, zero, suc, ◌+◌, ◌==◌, Bool, true, false, ◌&&◌, Option, none, some, List, [], ◌∷◌, ◌++◌, length,
  take, if◌then◌else◌,
}
use feup_sope.Base.Text.{Bytes, codes}
use feup_sope.Base.Word.{ℤ, pos, negsuc}
use feup_sope.Exercises.Copy.{
  Files, Closed, source, destination, unset, Said, usage, perror, Outcome,
}

abbrev pub buffer_size : ℕ
buffer_size = 512

-- An answer of `read` or `write` as a number of bytes; a negative one is an error.
abbrev pub amount : ℤ → ℕ
amount (pos n) = n
amount (negsuc n) = 0

unfoldable pub drop : ℕ → Bytes → Bytes
drop zero xs = xs
drop (suc n) [] = []
drop (suc n) (x ∷ xs) = drop n xs

abbrev pub is_positive : ℤ → Bool
is_positive (pos zero) = false
is_positive (pos (suc n)) = true
is_positive (negsuc n) = false

abbrev with_block : Bytes → Option (Bool × Bytes) → Option (Bool × Bytes)
with_block block none = none
with_block block (some (ended, out)) = some (ended, block ++ out)

-- `while ((nr = read(…)) > 0) if ((nw = write(…)) <= 0 || nw != nr)`, from call `k` on, for what is
-- left of the source: whether it ends by `read`, and what it writes. There is no result where the
-- fuel runs out.
unfoldable pub block_loop : Files → ℕ → ℕ → Bytes → Option (Bool × Bytes)
block_loop f zero k rest = none
block_loop f (suc fuel) k rest =
    let nr = f.read k rest in
    let block = take (amount nr) rest in
    let nw = f.write k block in
    let after = with_block block (block_loop f fuel (k + 1) (drop (amount nr) rest)) in
    let failed : Option (Bool × Bytes) = some (false, take (amount nw) block) in
    let ended : Option (Bool × Bytes) = some (true, []) in
    let step = if is_positive nw && (amount nw == amount nr) then after else failed in
    if is_positive nr then step else ended

-- Enough fuel for a source, as `Complete` proves.
abbrev pub block_fuel : Bytes → ℕ
block_fuel src = length src + 1

-- What p2b.c does behind its calls of `open`.
abbrev pub p2b_end : Bytes → Option (Bool × Bytes) → Option Outcome
p2b_end dst none = none
p2b_end dst (some (true, out)) =
    some record { code = pos 0; said = []; written = out; closed = source ∷ destination ∷ [] }
p2b_end dst (some (false, out)) = some record {
  code = pos 4;
  said = perror (some dst) ∷ [];
  written = out;
  closed = source ∷ destination ∷ [];
}

abbrev p2b_open : Files → Bytes → Bytes → Option Bytes → Option Outcome
p2b_open f src dst none =
    some record { code = pos 2; said = perror (some src) ∷ []; written = []; closed = [] }
p2b_open f src dst (some text) =
    let copy = p2b_end dst (block_loop f (block_fuel text) 0 text) in
    let refused : Option Outcome =
      some record {
        code = pos 3;
        said = perror (some dst) ∷ [];
        written = [];
        closed = source ∷ [];
      } in
    if f.creatable dst then copy else refused

-- `main` of p2b.c, for its arguments behind the name of the program.
unfoldable pub p2b : Files → Bytes → List Bytes → Option Outcome
p2b f name (src ∷ dst ∷ []) = p2b_open f src dst (f.content src)
p2b f name _ = some record { code = pos 1; said = usage name ∷ []; written = []; closed = [] }
