-- ===== src/Bank/Reply/Transfer.antt =====
-- OP_TRANSFER of `build_tlv_reply` against plain arithmetic, and what it does to the sum of all
-- balances.
use feup_sope.Base.{
  ℕ, ◌+◌, ◌-◌, ◌%◌, ◌^◌, ◌≤◌, ◌<◌, ◌≡◌, ◌≢◌, arith, ltb, if◌then◌else◌, update, total, total-update,
}
use feup_sope.Base.Word.{add32, sub32, to_int, ltb_ℤ, pos}
use feup_sope.Bank.Types.{
  RetCode, rc_ok, rc_no_funds, rc_too_high, Slot, Reply, max_balance, min_balance,
  max_bank_accounts,
}
use feup_sope.Bank.State.{Bank, Result, ok, Ensures}
use feup_sope.Bank.Reply.{move_amount}

abbrev pub balance_of : Bank → ℕ → ℕ
balance_of b i = (b.accounts i).bank_account.balance

abbrev pub with_balance : Slot → ℕ → Slot
with_balance s v = record s { bank_account = record (s.bank_account) { balance = v } }

-- What a transfer between two accounts should answer, by the balances as plain numbers.
abbrev pub funds_code : ℕ → ℕ → ℕ → RetCode
funds_code source dest amount =
    if ltb source (amount + min_balance)
    then rc_no_funds
    else if ltb max_balance (dest + amount)
    then rc_too_high
    else rc_ok

-- The bank after an amount has left one account and reached another.
abbrev pub after_move : Bank → ℕ → ℕ → ℕ → Bank
after_move b source dest amount = record b {
  accounts =
      update (update b.accounts dest (with_balance (b.accounts dest) (balance_of b dest + amount)))
        source (with_balance (b.accounts source) (balance_of b source - amount));
}

abbrev pub move_result : RetCode → ℕ → ℕ → ℕ → Reply → Bank → Result (Reply × Bank)
move_result rc_ok source dest amount r b =
    ok (record r { payload = balance_of b source - amount }, after_move b source dest amount)
move_result rc source dest amount r b = ok (record r { ret_code = rc }, b)

-- The wrapping arithmetic and the cast to int agree with plain arithmetic while all three numbers
-- are at most MAX_BALANCE.
no_funds_iff :
    (source amount : ℕ)
    → source ≤ max_balance
    → amount ≤ max_balance
    → ltb_ℤ (to_int (sub32 source amount)) (pos min_balance) ≡ ltb source (amount + min_balance)
no_funds_iff source amount hs ha = ground arith

too_high_iff :
    (dest amount : ℕ)
    → dest ≤ max_balance
    → amount ≤ max_balance
    → ltb max_balance (add32 dest amount) ≡ ltb max_balance (dest + amount)
too_high_iff dest amount hd ha = ground arith

pub move_amount_lem :
    (source dest amount : ℕ) (r : Reply) (b : Bank)
    → source < max_bank_accounts
    → dest < max_bank_accounts
    → source ≢ dest
    → balance_of b source ≤ max_balance
    → balance_of b dest ≤ max_balance
    → amount ≤ max_balance
    → move_amount source dest amount r b
      ≡ move_result
          (funds_code (balance_of b source) (balance_of b dest) amount)
          source
          dest
          amount
          r
          b
unfolding move_amount
move_amount_lem source dest amount r b ls ld ne hs hd ha = ground (
  arith,
  no_funds_iff (balance_of b source) amount hs ha,
  too_high_iff (balance_of b dest) amount hd ha,
)

-- The sum of all balances of the array.
pub total_balance : Bank → ℕ
total_balance b = total (λ (s : Slot). s.bank_account.balance) max_bank_accounts b.accounts

-- Two balances written, as `move_amount` writes them.
abbrev pub set_two : Bank → ℕ → ℕ → ℕ → ℕ → Bank
set_two b dest v source w = record b {
  accounts =
      update (update b.accounts dest (with_balance (b.accounts dest) v)) source
        (with_balance (b.accounts source) w);
}

pub total_balance-set_two :
    (b : Bank) (dest v source w : ℕ)
    → source < max_bank_accounts
    → dest < max_bank_accounts
    → source ≢ dest
    → total_balance (set_two b dest v source w) + balance_of b source + balance_of b dest
      ≡ total_balance b + v + w
unfolding total_balance
total_balance-set_two b dest v source w ls ld ne =
    let weigh = λ (s : Slot). s.bank_account.balance in
    let mid = update b.accounts dest (with_balance (b.accounts dest) v) in
    let kept : weigh (mid source) ≡ balance_of b source = ground arith in
    let first : v + total weigh max_bank_accounts b.accounts
        ≡ balance_of b dest + total weigh max_bank_accounts mid =
      total-update weigh max_bank_accounts b.accounts dest (with_balance (b.accounts dest) v) ld in
    let second : w + total weigh max_bank_accounts mid
        ≡ weigh (mid source)
          + total weigh max_bank_accounts (update mid source (with_balance (b.accounts source) w)) =
      total-update weigh max_bank_accounts mid source (with_balance (b.accounts source) w) ls in
    omega (arith, kept, first, second)

-- Modulo 2 ^ 32 the sum is the same before and after.
abbrev pub KeepsTotal : Bank → Reply → Bank → Type 0
KeepsTotal b r b' = total_balance b' % 2 ^ 32 ≡ total_balance b % 2 ^ 32

pub move_amount-KeepsTotal :
    (source dest amount : ℕ) (r : Reply) (b : Bank)
    → source ≢ dest
    → amount < 2 ^ 32
    → Ensures (KeepsTotal b) (move_amount source dest amount r b)
unfolding move_amount
move_amount-KeepsTotal source dest amount r b ne ha = ground (
  arith,
  total_balance-set_two b dest (add32 (balance_of b dest) amount) source
      (sub32 (balance_of b source) amount),
)
