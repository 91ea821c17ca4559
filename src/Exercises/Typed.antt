-- ===== src/Exercises/Typed.antt =====
-- Exercises/prob02/p1.c, which reads a password, and p4a.c, which saves what is typed.
pub mod Secret
pub mod Grades
mod Tests
use feup_sope.Base.{
  ℕ, zero, suc, ◌+◌, ◌==◌, leb, Bool, true, false, ◌&&◌, Option, none, some, List, [], ◌∷◌, ◌++◌,
  length, take, drop, if◌then◌else◌,
}
use feup_sope.Base.Text.{Bytes, codes}
use feup_sope.Base.Word.{ℤ, pos, negsuc}
use feup_sope.Base.Stdio.{c_string}

-- What `read` of one byte answers: the byte, 0 at the end of the input, or -1.
pub data Key : Type 0 where
  key : ℕ → Key
  no_more no_answer : Key

-- What p1.c does with the terminal; `raw` has neither echo nor lines, and `old` is what there was.
pub data Act : Type 0 where
  wrote : Bytes → Act
  raw old : Act

-- What the loop stores, and what is left of the input.
pub record Stored : Type 0 where
  pub pass : Bytes
  pub left : List Key

abbrev max_passwd_len : ℕ
max_passwd_len = 20

abbrev store : ℕ → Option Stored → Option Stored
store c none = none
store c (some s) = some (record s { pass = c ∷ s.pass })

abbrev nothing_more : List Key → Option Stored
nothing_more left = some (record { pass = []; left = left })

-- The loop, with the room that `i` leaves and the value of `ch`, which a read that fails does not
-- change. There is no result while the program waits for a key.
unfoldable pub read_pass : ℕ → ℕ → List Key → Option Stored
read_pass zero ch keys = nothing_more keys
read_pass (suc room) ch [] = none
read_pass (suc room) ch (no_more ∷ keys) = nothing_more keys
read_pass (suc room) ch (no_answer ∷ keys) =
    let rest = store ch (read_pass room ch keys) in if ch == 10 then nothing_more keys else rest
read_pass (suc room) ch (key c ∷ keys) =
    let rest = store c (read_pass room c keys) in if c == 10 then nothing_more keys else rest

abbrev pub stars : Bytes → List Act
stars [] = []
stars (c ∷ pass) = wrote (b'*' ∷ []) ∷ stars pass

abbrev pub shown : Option Stored → Option (List Act × List Key)
shown none = none
shown (some s) = some (
  wrote (codes "\nPassword? ")
      ∷ raw
      ∷ (stars s.pass
          ++ (old
              ∷ wrote (codes "\n\nPassword: ")
              ∷ wrote (c_string (s.pass ++ 0 ∷ []))
              ∷ wrote (10 ∷ [])
              ∷ [])),
  s.left,
)

-- `main` of p1.c: what it does, and what is left of the input. `ch` is what the variable holds at the
-- start.
unfoldable pub read_password : ℕ → List Key → Option (List Act × List Key)
unfolding read_pass
read_password ch keys = shown (read_pass max_passwd_len ch keys)

-- What `read` of up to 512 bytes answers p4a.c.
pub data Block : Type 0 where
  block : Bytes → Block
  failed : Block

-- What p4a.c returns, and what it has written over the start of the file.
pub record Saved : Type 0 where
  pub code : ℕ
  pub written : Bytes

abbrev pub amount : ℤ → ℕ
amount (pos n) = n
amount (negsuc n) = 0

abbrev put : Bytes → Option Saved → Option Saved
put bytes none = none
put bytes (some s) = some (record s { written = bytes ++ s.written })

-- The loop; `write` is the answer of the call with a number, for the bytes given. There is no result
-- while the program waits for a line.
unfoldable pub save_lines : (ℕ → Bytes → ℤ) → ℕ → List Block → Option Saved
save_lines write k [] = none
save_lines write k (failed ∷ lines) = some (record { code = 0; written = [] })
save_lines write k (block line ∷ lines) =
    let n : ℕ = amount (write k line) in
    let rest = put line (save_lines write (k + 1) lines) in
    if leb (length line) 1
    then some (record { code = 0; written = [] })
    else if n == length line
    then rest
    else some (record { code = 2; written = take n line })

-- The file behind it: it is not made shorter where it existed.
abbrev pub overwritten : Bytes → Bytes → Bytes
overwritten content bytes = bytes ++ drop (length bytes) content

abbrev pub result : Bytes → Option Saved → Option (ℕ × Option Bytes)
result content none = none
result content (some s) = some (s.code, some (overwritten content s.written))

-- `main` of p4a.c with `argc - 1` arguments: what it returns, and the content of the file. `content` is
-- what the file has, or none where open fails.
unfoldable pub p4a : ℕ → Option Bytes → (ℕ → Bytes → ℤ) → List Block → Option (ℕ × Option Bytes)
unfolding save_lines
p4a zero content write lines = some (1, content)
p4a (suc (suc args)) content write lines = some (1, content)
p4a (suc zero) none write lines = some (3, none)
p4a (suc zero) (some content) write lines = result content (save_lines write 0 lines)
