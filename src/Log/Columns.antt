-- ===== src/Log/Columns.antt =====
-- The lines of the log stand in columns: how long their common part is.
use feup_sope.Base.{
  ℕ, suc, ◌-◌, ◌^◌, ◌≤◌, ◌<◌, ◌≡◌, refl, ◌∙◌, arith, Bool, true, false, length, replicate,
  length-append, length-replicate,
}
use feup_sope.Base.Text.{Bytes}
use feup_sope.Base.Word.{to_int}
use feup_sope.Base.Format.{print_dec, pad_left, zero_dec, blank_dec}
use feup_sope.Base.Format.Decimal.{length-print_dec}
use feup_sope.Bank.Types.{Request, max_password_len}
use feup_sope.Log.{letter, Process, base_request_text}

length-pad_left : (c width : ℕ) (s : Bytes) → length s ≤ width → length (pad_left c width s) ≡ width
length-pad_left c width s h =
    length-append (replicate (width - length s) c) s
    ∙ omega (arith, length-replicate (width - length s) c)

-- A field of a word that fits its width is as wide as that.
length-zero_dec :
    (w n : ℕ) → n < 2 ^ 31 → n < 10 ^ suc w → length (zero_dec (suc w) (to_int n)) ≡ suc w
unfolding zero_dec
length-zero_dec w n small h =
    ground (arith, length-pad_left b'0' (suc w) (print_dec n) (length-print_dec n w h))

length-blank_dec :
    (w n : ℕ) → n < 2 ^ 31 → n < 10 ^ suc w → length (blank_dec (suc w) (to_int n)) ≡ suc w
unfolding blank_dec
length-blank_dec w n small h =
    ground (arith, length-pad_left b' ' (suc w) (print_dec n) (length-print_dec n w h))

pub length-letter : (b : Bool) → length (letter b) ≡ 1
length-letter true = refl
length-letter false = refl

-- For numbers that fit their columns, and a password and the name of an operation that fit theirs,
-- the common part of a request's entry is 80 bytes long: the entries stand in columns.
pub length-base_request_text :
    (os : Process) (id : ℕ) (req : Request) (op : Bytes)
    → id < 10 ^ 5
    → req.length < 10 ^ 3
    → req.header.pid < 10 ^ 5
    → req.header.account_id < 10 ^ 4
    → length req.header.password ≤ max_password_len
    → req.header.op_delay_ms < 10 ^ 5
    → length op ≤ 8
    → length (base_request_text os id req op) ≡ 80
unfolding base_request_text
length-base_request_text os id req op hi hl hp ha hw hd ho =
    simp
      (
        length-append,
        length-letter,
        length-zero_dec 4 id (omega arith) hi,
        length-blank_dec 2 req.length (omega arith) hl,
        length-zero_dec 4 req.header.pid (omega arith) hp,
        length-zero_dec 3 req.header.account_id (omega arith) ha,
        length-replicate,
      )
      (omega (arith, length-print_dec req.header.op_delay_ms 4 hd))
