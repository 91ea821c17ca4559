-- ===== src/Bank/Reply/Frame.antt =====
-- What a refused request leaves alone.
use feup_sope.Base.{ℕ, ◌≡◌, refl, ◌≢◌, arith}
use feup_sope.Bank.Types.{
  OpType, op_create_account, op_balance, op_transfer, op_shutdown, op_other, rc_ok, Request, Reply,
}
use feup_sope.Bank.State.{Host, Bank, Ensures}
use feup_sope.Bank.Reply.Rules.{first_reply, build_tlv_reply-Ensures}
use feup_sope.Bank.Reply.{
  move_amount, check_transfer, reply_balance, reply_create, reply_shutdown, dispatch,
  build_tlv_reply,
}

-- A refusal comes with the bank as it was.
abbrev pub IsUnchanged : Bank → Reply → Bank → Type 0
IsUnchanged b r b' = r.ret_code ≢ rc_ok → b' ≡ b

move_amount-keeps :
    (s d a : ℕ) (r : Reply) (b : Bank)
    → r.ret_code ≡ rc_ok
    → Ensures (IsUnchanged b) (move_amount s d a r b)
unfolding move_amount
move_amount-keeps s d a r b e = ground arith

check_transfer-keeps :
    (req : Request) (r : Reply) (b : Bank)
    → r.ret_code ≡ rc_ok
    → Ensures (IsUnchanged b) (check_transfer req r b)
unfolding check_transfer
check_transfer-keeps req r b e =
    ground
      (arith, move_amount-keeps req.header.account_id req.args.account_id req.args.amount r b e)

reply_balance-keeps :
    (req : Request) (r : Reply) (b : Bank)
    → r.ret_code ≡ rc_ok
    → Ensures (IsUnchanged b) (reply_balance req r b)
unfolding reply_balance
reply_balance-keeps req r b e = ground arith

reply_create-keeps :
    (host : Host) (req : Request) (r : Reply) (id : ℕ) (b : Bank)
    → r.ret_code ≡ rc_ok
    → Ensures (IsUnchanged b) (reply_create host req r id b)
unfolding reply_create
reply_create-keeps host req r id b e = ground arith

dispatch-keeps :
    (host : Host) (op : OpType) (req : Request) (r : Reply) (id : ℕ) (b : Bank)
    → r.ret_code ≡ rc_ok
    → Ensures (IsUnchanged b) (dispatch host op req r id b)
unfolding dispatch
dispatch-keeps host op_create_account req r id b e = reply_create-keeps host req r id b e
dispatch-keeps host op_balance req r id b e = reply_balance-keeps req r b e
dispatch-keeps host op_transfer req r id b e =
    check_transfer-keeps req (record r { payload = req.args.amount }) b e
dispatch-keeps host op_shutdown req r id b e = unfold reply_shutdown in ground arith
dispatch-keeps host (op_other n) req r id b e = ground arith

-- An answer other than RC_OK means that the whole bank, with its log, is as it was.
pub build_tlv_reply-keeps :
    (host : Host) (req : Request) (r : Reply) (id : ℕ) (b : Bank)
    → Ensures (IsUnchanged b) (build_tlv_reply host req r id b)
build_tlv_reply-keeps host req r id b =
    build_tlv_reply-Ensures (IsUnchanged b) host req r id b (λ r' b' h. h)
      (λ _. dispatch-keeps host req.op req (first_reply req r rc_ok) id b refl) (λ rc ne h. refl)
