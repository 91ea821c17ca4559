-- ===== src/Log/Texts.antt =====
-- The texts of log.c are lines, if the texts and words that they are made of are as the records say.
use feup_sope.Base.{
  ℕ, ◌^◌, ◌≤◌, ◌<◌, ◌≡◌, refl, arith, Bool, true, false, length, length-append, length-replicate,
}
use feup_sope.Base.Text.{Bytes}
use feup_sope.Base.Format.Decimal.{length-print_dec}
use feup_sope.Bank.Types.{Request, max_password_len, RetCode, Reply}
use feup_sope.Log.{letter, Process, base_request_text, base_reply_text, rc_str}
use feup_sope.Log.Columns.{length-letter}
use feup_sope.Log.Lines.{
  newlines, plain, newlines-zero_dec, newlines-blank_dec, length-zero_dec, length-blank_dec,
}

-- A password that fits its field.
abbrev pub IsPassword : Bytes → Type 0
IsPassword p = (newlines p ≡ 0) × (length p ≤ max_password_len)

abbrev pub IsWordRequest : Request → Type 0
IsWordRequest r =
    (r.length < 2 ^ 32)
    × (r.header.pid < 2 ^ 32)
    × (r.header.account_id < 2 ^ 32)
    × (r.header.op_delay_ms < 2 ^ 32)
    × (r.args.account_id < 2 ^ 32)
    × (r.args.amount < 2 ^ 32)

newlines-letter : (b : Bool) → newlines (letter b) ≡ 0
newlines-letter true = refl
newlines-letter false = refl

pub newlines-rc_str : (c : RetCode) → newlines (rc_str c) ≡ 0
newlines-rc_str c = ground arith

length-rc_str : (c : RetCode) → length (rc_str c) ≤ 12
length-rc_str c = ground arith

pub newlines-base_request_text :
    (os : Process) (id : ℕ) (req : Request) (op : Bytes)
    → newlines req.header.password ≡ 0
    → newlines op ≡ 0
    → newlines (base_request_text os id req op) ≡ 0
unfolding base_request_text
newlines-base_request_text os id req op hw ho =
    simp (plain, newlines-letter, newlines-zero_dec, newlines-blank_dec, hw, ho) refl

pub length-base_request_text :
    (os : Process) (id : ℕ) (req : Request) (op : Bytes)
    → id < 2 ^ 32
    → req.length < 2 ^ 32
    → req.header.pid < 2 ^ 32
    → req.header.account_id < 2 ^ 32
    → length req.header.password ≤ max_password_len
    → req.header.op_delay_ms < 2 ^ 32
    → length op ≤ 8
    → length (base_request_text os id req op) ≤ 200
unfolding base_request_text
length-base_request_text os id req op hi hl hp ha hw hd ho =
    simp (length-append, length-replicate, length-letter)
      (omega (
        arith,
        length-zero_dec 5 id hi,
        length-blank_dec 3 req.length hl,
        length-zero_dec 5 req.header.pid hp,
        length-zero_dec 4 req.header.account_id ha,
        length-print_dec req.header.op_delay_ms 9 (omega arith),
      ))

pub newlines-base_reply_text :
    (os : Process) (id : ℕ) (r : Reply) (op : Bytes)
    → newlines op ≡ 0
    → newlines (base_reply_text os id r op) ≡ 0
unfolding base_reply_text
newlines-base_reply_text os id r op ho =
    simp (plain, newlines-letter, newlines-zero_dec, newlines-blank_dec, newlines-rc_str, ho) refl

pub length-base_reply_text :
    (os : Process) (id : ℕ) (r : Reply) (op : Bytes)
    → id < 2 ^ 32
    → r.length < 2 ^ 32
    → r.account_id < 2 ^ 32
    → length op ≤ 8
    → length (base_reply_text os id r op) ≤ 200
unfolding base_reply_text
length-base_reply_text os id r op hi hl ha ho =
    simp (length-append, length-replicate, length-letter)
      (omega (
        arith,
        length-zero_dec 5 id hi,
        length-blank_dec 3 r.length hl,
        length-zero_dec 4 r.account_id ha,
        length-rc_str r.ret_code,
      ))
