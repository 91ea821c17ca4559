-- ===== src/Bank/Reply.antt =====
-- `build_tlv_reply` of Project2/source/banking_aux.c: what the server does for a request.
pub mod Rules
pub mod Frame
pub mod Transfer
pub mod Answers
pub mod Conservation
use feup_sope.Base.{ℕ, not, ltb, ◌==◌, if◌then◌else◌}
use feup_sope.Base.Word.{pos, add32, sub32, to_int, ltb_ℤ}
use feup_sope.Bank.Types.{
  max_balance, min_balance, admin_account_id, sizeof_pointer, OpType, op_create_account, op_balance,
  op_transfer, op_shutdown, op_other, RetCode, rc_ok, rc_op_nallow, rc_id_in_use, rc_id_not_found,
  rc_same_id, rc_no_funds, rc_too_high, Request, Reply,
}
use feup_sope.Bank.State.{Host, M, ok, pure, branch, ◌>>=◌, ◌>>◌, slot, with_slot, set_slot}
use feup_sope.Bank.Accounts.{is_active_account, create_bank_account, validate_bank_account}

abbrev pub refuse : Reply → RetCode → M Reply
refuse reply rc = pure (record reply { ret_code = rc })

-- `accounts[i].bankAccount.balance = v`
abbrev pub set_balance : ℕ → ℕ → M (Unit {0})
set_balance i v = do
  acc ← slot i
  set_slot i (record acc { bank_account = record (acc.bank_account) { balance = v } })

abbrev pub get_balance : ℕ → M ℕ
get_balance i = with_slot i (λ acc. acc.bank_account.balance)

abbrev get_active_threads : M ℕ
get_active_threads b = ok (b.active_threads, b)

module _ (host : Host) where
  -- case OP_CREATE_ACCOUNT
  unfoldable pub reply_create : Request → Reply → ℕ → M Reply
  unfolding is_active_account
  reply_create req reply id =
      branch (not (req.header.account_id == admin_account_id)) (refuse reply rc_op_nallow) do
        used ← is_active_account req.args.account_id
        branch used (refuse reply rc_id_in_use) do
          create_bank_account host
              (record {
                account_id = req.args.account_id;
                balance = req.args.amount;
                password = req.args.password;
              })
              id
          pure reply

-- case OP_BALANCE, which asks whether the account of the arguments exists
unfoldable pub reply_balance : Request → Reply → M Reply
unfolding is_active_account
reply_balance req reply =
    branch (req.header.account_id == admin_account_id) (refuse reply rc_op_nallow) do
      used ← is_active_account req.args.account_id
      branch (not used) (refuse reply rc_id_not_found)
          do balance ← get_balance reply.account_id; pure (record reply { payload = balance })

-- The tests on the two balances, and the move of the amount.
unfoldable pub move_amount : ℕ → ℕ → ℕ → Reply → M Reply
move_amount source dest amount reply = do
  source_balance ← get_balance source
  dest_balance ← get_balance dest
  branch (ltb_ℤ (to_int (sub32 source_balance amount)) (pos min_balance)) (refuse reply rc_no_funds)
      (branch (ltb max_balance (add32 dest_balance amount)) (refuse reply rc_too_high) do
        set_balance dest (add32 dest_balance amount)
        remaining ← get_balance source
        set_balance source (sub32 remaining amount)
        balance ← get_balance source
        pure (record reply { payload = balance }))

-- case OP_TRANSFER, behind its first assignment
unfoldable pub check_transfer : Request → Reply → M Reply
unfolding is_active_account
check_transfer req reply =
    let source = req.header.account_id in
    let dest = req.args.account_id in
    branch (source == dest) (refuse reply rc_same_id) (
      branch (source == admin_account_id) (refuse reply rc_op_nallow) (
        branch (dest == admin_account_id) (refuse reply rc_op_nallow) do
          used ← is_active_account dest
          branch (not used) (refuse reply rc_id_not_found)
              (move_amount source dest req.args.amount reply)))

unfoldable pub reply_transfer : Request → Reply → M Reply
unfolding check_transfer
reply_transfer req reply = check_transfer req (record reply { payload = req.args.amount })

-- case OP_SHUTDOWN
unfoldable pub reply_shutdown : Request → Reply → M Reply
reply_shutdown req reply =
    branch (not (req.header.account_id == admin_account_id)) (refuse reply rc_op_nallow)
      do active_offices ← get_active_threads; pure (record reply { payload = active_offices })

module _ (host : Host) where
  -- The `switch`.
  unfoldable pub dispatch : OpType → Request → Reply → ℕ → M Reply
  unfolding reply_balance reply_transfer reply_shutdown
  dispatch op_create_account req reply id = reply_create host req reply id
  dispatch op_balance req reply id = reply_balance req reply
  dispatch op_transfer req reply id = reply_transfer req reply
  dispatch op_shutdown req reply id = reply_shutdown req reply
  dispatch (op_other n) req reply id = pure reply

  abbrev pub dispatch_if_ok : RetCode → Request → Reply → ℕ → M Reply
  dispatch_if_ok rc_ok req reply id = dispatch req.op req reply id
  dispatch_if_ok _ req reply id = pure reply

  -- `reply` is what the caller's variable holds. `sizeof(reply)` is the size of a pointer.
  unfoldable pub build_tlv_reply : Request → Reply → ℕ → M Reply
  build_tlv_reply req reply id = do
    rc ← validate_bank_account host req.header
    answered ←
        dispatch_if_ok rc req
          (record {
            op = req.op;
            length = reply.length;
            account_id = req.header.account_id;
            ret_code = rc;
            payload = reply.payload;
          })
          id
    pure (record answered { length = sizeof_pointer })
