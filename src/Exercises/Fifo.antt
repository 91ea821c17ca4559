-- ===== src/Exercises/Fifo.antt =====
-- Exercises/prob05/p06a1.c, which reads lines from a FIFO, and p06a2.c and p06b1.c, which write them.
pub mod Arrival
mod Tests
use feup_sope.Base.{
  ℕ, zero, suc, ◌+◌, Bool, true, false, List, [], ◌∷◌, ◌++◌, length, ltb, ◌==◌, if◌then◌else◌,
}
use feup_sope.Base.Result.{Result, ok, stop, out_of_bounds, blocked}
use feup_sope.Base.Text.{Bytes, codes}
use feup_sope.Base.Word.{ℤ, pos, negsuc}
use feup_sope.Base.Format.{print_dec}
use feup_sope.Base.Stdio.{c_string}

-- What `readline` returns, what it has stored, with the terminator, and what is left in the FIFO.
pub record Line : Type 0 where
  pub more : Bool
  pub stored : Bytes
  pub rest : Bytes

abbrev put_first : ℕ → Result Line → Result Line
put_first c (ok l) = ok (record l { stored = c ∷ l.stored })
put_first c (stop e) = stop e

-- `readline`, with the room that is left behind `str`: a byte is read at a time, up to a 0 or to the
-- end of the FIFO, which is also where a read fails. The bytes are those that the FIFO has before its
-- last writer closes it.
unfoldable pub readline : ℕ → Bytes → Result Line
readline room [] = ok (record { more = false; stored = []; rest = [] })
readline zero (c ∷ cs) = stop out_of_bounds
readline (suc room) (c ∷ cs) =
    let rest = put_first c (readline room cs) in
    if c == 0 then ok (record { more = true; stored = 0 ∷ []; rest = cs }) else rest

abbrev room_of_str : ℕ
room_of_str = 100

abbrev pub print_first : Bytes → Result Bytes → Result Bytes
print_first s (ok out) = ok (s ++ out)
print_first s (stop e) = stop e

abbrev while_more : Result Line → (Bytes → Result Bytes) → Result Bytes
while_more (stop e) loop = stop e
while_more (ok l) loop =
    let rest = print_first (c_string l.stored) (loop l.rest) in if l.more then rest else ok []

-- The loop of `main`, and what it prints. Each round takes one from the fuel.
unfoldable read_lines : ℕ → Bytes → Result Bytes
unfolding readline
read_lines zero s = stop blocked
read_lines (suc fuel) s = while_more (readline room_of_str s) (read_lines fuel)

-- `main` of the reader: a round but the last takes a byte at least.
unfoldable pub fifo_reader : Bytes → Result Bytes
unfolding read_lines
fifo_reader s = read_lines (suc (length s)) s

-- "Hello no. %d from process %d\n"
abbrev pub hello : ℕ → ℕ → Bytes
hello i pid =
    codes "Hello no. " ++ print_dec i ++ codes " from process " ++ print_dec pid ++ 10 ∷ []

abbrev room_of_message : ℕ
room_of_message = 100

abbrev write_first : Bytes → Result (List Bytes) → Result (List Bytes)
write_first w (ok ws) = ok (w ∷ ws)
write_first w (stop e) = stop e

-- The loop over `i`: the bytes of each call of `write`, which takes the terminator along.
unfoldable pub write_messages : ℕ → ℕ → ℕ → Result (List Bytes)
write_messages zero i pid = ok []
write_messages (suc rounds) i pid =
    let next = write_first (hello i pid ++ 0 ∷ []) (write_messages rounds (i + 1) pid) in
    if ltb (length (hello i pid)) room_of_message then next else stop out_of_bounds

pub data OpenMode : Type 0 where
  o_wronly o_rdwr : OpenMode

-- The loop over `open`: it waits while the answer is -1. A list of answers that comes to its end is a
-- FIFO that is never made.
abbrev pub opened : List ℤ → Result (List Bytes) → Result (List Bytes)
opened [] next = stop blocked
opened (pos fd ∷ answers) next = next
opened (negsuc n ∷ answers) next = opened answers next

-- `main` of a writer: `opens` gives the answers of `open`, by the mode.
unfoldable pub fifo_writer : OpenMode → (OpenMode → List ℤ) → ℕ → Result (List Bytes)
unfolding write_messages
fifo_writer mode opens pid = opened (opens mode) (write_messages 3 1 pid)

abbrev pub p06a2 : (OpenMode → List ℤ) → ℕ → Result (List Bytes)
p06a2 opens pid = fifo_writer o_wronly opens pid

abbrev pub p06b1 : (OpenMode → List ℤ) → ℕ → Result (List Bytes)
p06b1 opens pid = fifo_writer o_rdwr opens pid
