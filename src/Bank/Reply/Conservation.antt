-- ===== src/Bank/Reply/Conservation.antt =====
-- No request but the creation of an account changes the sum of all balances; and no balance goes
-- past MAX_BALANCE by amounts that are not past it.
use feup_sope.Base.{ℕ, ◌^◌, ◌≤◌, ◌<◌, ◌≡◌, refl, ◌≢◌, arith}
use feup_sope.Bank.Types.{
  Request, Reply, OpType, op_create_account, op_balance, op_transfer, op_shutdown, op_other, rc_ok,
  max_balance,
}
use feup_sope.Bank.State.{Host, Bank, Result, ok, stop, Ensures, Ensures-and, Ensures-forall}
use feup_sope.Bank.Reply.{
  move_amount, check_transfer, reply_balance, reply_shutdown, dispatch, build_tlv_reply,
}
use feup_sope.Bank.Reply.Rules.{first_reply, build_tlv_reply-Ensures}
use feup_sope.Bank.Reply.Transfer.{
  balance_of, total_balance, total_balance-set_two, KeepsTotal, move_amount-KeepsTotal,
}
use feup_sope.Base.Word.{add32, sub32}

check_transfer-KeepsTotal :
    (req : Request) (r : Reply) (b : Bank)
    → req.args.amount < 2 ^ 32
    → Ensures (KeepsTotal b) (check_transfer req r b)
unfolding check_transfer
check_transfer-KeepsTotal req r b word = ground (
  arith,
  λ (ne : req.header.account_id ≢ req.args.account_id).
      move_amount-KeepsTotal req.header.account_id req.args.account_id req.args.amount r b ne word,
)

dispatch-KeepsTotal :
    (host : Host) (op : OpType) (req : Request) (r : Reply) (id : ℕ) (b : Bank)
    → op ≢ op_create_account
    → req.args.amount < 2 ^ 32
    → Ensures (KeepsTotal b) (dispatch host op req r id b)
unfolding dispatch
dispatch-KeepsTotal host op_create_account req r id b ne word = absurd (ne refl)
dispatch-KeepsTotal host op_balance req r id b ne word = ground arith
dispatch-KeepsTotal host op_transfer req r id b ne word =
    check_transfer-KeepsTotal req (record r { payload = req.args.amount }) b word
dispatch-KeepsTotal host op_shutdown req r id b ne word = ground arith
dispatch-KeepsTotal host (op_other n) req r id b ne word = refl

-- Whatever the request asks for, if it is not the creation of an account and `build_tlv_reply`
-- returns, the sum of all balances is the same modulo 2 ^ 32.
pub build_tlv_reply-KeepsTotal :
    (host : Host) (req : Request) (r : Reply) (id : ℕ) (b : Bank)
    → req.op ≢ op_create_account
    → req.args.amount < 2 ^ 32
    → Ensures (KeepsTotal b) (build_tlv_reply host req r id b)
build_tlv_reply-KeepsTotal host req r id b ne word =
    build_tlv_reply-Ensures (KeepsTotal b) host req r id b (λ r' b' h. h)
      (λ _. dispatch-KeepsTotal host req.op req (first_reply req r rc_ok) id b ne word)
      (λ rc k. refl)

-- All balances are at most MAX_BALANCE.
abbrev pub IsWithin : Bank → Type 0
IsWithin b = (i : ℕ) → balance_of b i ≤ max_balance

-- No balance has wrapped round, and nothing has been made or lost.
abbrev pub IsSound : Bank → Reply → Bank → Type 0
IsSound b r b' = IsWithin b' × (total_balance b' ≡ total_balance b)

reads_only :
    (b : Bank) (within : IsWithin b) (x : Result (Reply × Bank))
    → Ensures (λ _ b'. b' ≡ b) x
    → Ensures (IsSound b) x
reads_only b within (ok (r, b')) same = rw same (within, refl)
reads_only b within (stop e) same = tt

reply_balance-reads :
    (req : Request) (r : Reply) (b : Bank) → Ensures (λ _ b'. b' ≡ b) (reply_balance req r b)
unfolding reply_balance
reply_balance-reads req r b = ground arith

reply_shutdown-reads :
    (req : Request) (r : Reply) (b : Bank) → Ensures (λ _ b'. b' ≡ b) (reply_shutdown req r b)
unfolding reply_shutdown
reply_shutdown-reads req r b = ground arith

module _ (source dest amount : ℕ) (r : Reply) (b : Bank) (ne : source ≢ dest) (within : IsWithin b)
    (small : amount ≤ max_balance) where
  move_amount-within :
      (j : ℕ) → Ensures (λ _ b'. balance_of b' j ≤ max_balance) (move_amount source dest amount r b)
  unfolding move_amount
  move_amount-within j = ground (arith, within source, within dest, within j)

  move_amount-total :
      Ensures (λ _ b'. total_balance b' ≡ total_balance b) (move_amount source dest amount r b)
  unfolding move_amount
  move_amount-total = ground (
    arith,
    within source,
    within dest,
    total_balance-set_two b dest (add32 (balance_of b dest) amount) source
        (sub32 (balance_of b source) amount),
  )

  move_amount-IsSound : Ensures (IsSound b) (move_amount source dest amount r b)
  move_amount-IsSound =
      Ensures-and (λ _. IsWithin) (λ _ b'. total_balance b' ≡ total_balance b)
        (move_amount source dest amount r b)
        (Ensures-forall (λ j _ b'. balance_of b' j ≤ max_balance)
          (move_amount source dest amount r b) move_amount-within)
        move_amount-total

check_transfer-IsSound :
    (req : Request) (r : Reply) (b : Bank)
    → IsWithin b
    → req.args.amount ≤ max_balance
    → Ensures (IsSound b) (check_transfer req r b)
unfolding check_transfer
check_transfer-IsSound req r b within small = ground (
  arith,
  λ (ne : req.header.account_id ≢ req.args.account_id).
      move_amount-IsSound req.header.account_id req.args.account_id req.args.amount r b ne within
        small,
)

dispatch-IsSound :
    (host : Host) (op : OpType) (req : Request) (r : Reply) (id : ℕ) (b : Bank)
    → op ≢ op_create_account
    → IsWithin b
    → req.args.amount ≤ max_balance
    → Ensures (IsSound b) (dispatch host op req r id b)
unfolding dispatch
dispatch-IsSound host op_create_account req r id b ne within small = absurd (ne refl)
dispatch-IsSound host op_balance req r id b ne within small =
    reads_only b within (reply_balance req r b) (reply_balance-reads req r b)
dispatch-IsSound host op_transfer req r id b ne within small =
    check_transfer-IsSound req (record r { payload = req.args.amount }) b within small
dispatch-IsSound host op_shutdown req r id b ne within small =
    reads_only b within (reply_shutdown req r b) (reply_shutdown-reads req r b)
dispatch-IsSound host (op_other n) req r id b ne within small = (within, refl)

-- While the balances and the amounts asked for are at most MAX_BALANCE, no request but the
-- creation of an account takes a balance past it or changes the sum of all balances.
pub build_tlv_reply-IsSound :
    (host : Host) (req : Request) (r : Reply) (id : ℕ) (b : Bank)
    → req.op ≢ op_create_account
    → IsWithin b
    → req.args.amount ≤ max_balance
    → Ensures (IsSound b) (build_tlv_reply host req r id b)
build_tlv_reply-IsSound host req r id b ne within small =
    build_tlv_reply-Ensures (IsSound b) host req r id b (λ r' b' h. h)
      (λ _. dispatch-IsSound host req.op req (first_reply req r rc_ok) id b ne within small)
      (λ rc k. (within, refl))
