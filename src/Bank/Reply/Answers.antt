-- ===== src/Bank/Reply/Answers.antt =====
-- The answers of `build_tlv_reply` to a client whose password is right, operation by operation.
use feup_sope.Base.{
  ℕ, ◌+◌, ◌-◌, ◌^◌, ◌≤◌, ◌<◌, ◌≡◌, refl, ap, ◌∙◌, ◌≢◌, false, arith, ◌==◌, if◌then◌else◌,
}
use feup_sope.Base.Text.{is_empty}
use feup_sope.Base.Word.{pos, add32, sub32, to_int, ltb_ℤ}
use feup_sope.Bank.Types.{
  rc_ok, rc_op_nallow, rc_id_not_found, op_balance, op_transfer, op_shutdown, op_other, Request,
  Reply, max_balance, min_balance, max_bank_accounts, admin_account_id, sizeof_pointer,
}
use feup_sope.Bank.State.{Host, Bank, IsUsed, ok}
use feup_sope.Bank.Accounts.{validate_bank_account}
use feup_sope.Bank.Reply.{
  move_amount, check_transfer, reply_balance, reply_shutdown, build_tlv_reply,
}
use feup_sope.Bank.Reply.Rules.{
  first_reply, finish, dispatch_balance, dispatch_transfer, dispatch_shutdown, dispatch_other,
  build_tlv_reply-eq,
}
use feup_sope.Bank.Reply.Transfer.{balance_of, set_two, funds_code, move_result, move_amount_lem}

check_transfer_between :
    (req : Request) (r : Reply) (b : Bank)
    → req.header.account_id ≢ req.args.account_id
    → req.header.account_id ≢ admin_account_id
    → req.args.account_id ≢ admin_account_id
    → req.args.account_id < max_bank_accounts
    → IsUsed b req.args.account_id
    → check_transfer req r b
      ≡ move_amount req.header.account_id req.args.account_id req.args.amount r b
unfolding check_transfer
check_transfer_between req r b ne hs hd ld used = ground arith

add_negative : (d k : ℕ) → 0 < k → k ≤ d → d ≤ max_balance → add32 d (2 ^ 32 - k) ≡ d - k
add_negative d k h kd bd = omega arith

sub_negative : (s k : ℕ) → 0 < k → s ≤ max_balance → k ≤ max_balance → sub32 s (2 ^ 32 - k) ≡ s + k
sub_negative s k h bs bk = omega arith

no_funds_negative :
    (s k : ℕ)
    → 0 < k
    → s ≤ max_balance
    → k ≤ max_balance
    → ltb_ℤ (to_int (sub32 s (2 ^ 32 - k))) (pos min_balance) ≡ false
no_funds_negative s k h bs bk = rw (sub_negative s k h bs bk) (ground arith)

-- A negative amount is the number 2 ^ 32 - k: the tests pass, and k moves the other way.
move_amount_negative :
    (source dest k : ℕ) (r : Reply) (b : Bank)
    → source < max_bank_accounts
    → dest < max_bank_accounts
    → source ≢ dest
    → 0 < k
    → k ≤ balance_of b dest
    → balance_of b dest ≤ max_balance
    → balance_of b source ≤ max_balance
    → move_amount source dest (2 ^ 32 - k) r b
      ≡ ok (
        record r { payload = balance_of b source + k },
        set_two b dest (balance_of b dest - k) source (balance_of b source + k),
      )
unfolding move_amount
move_amount_negative source dest k r b ls ld ne hk kd bd bs = ground (
  arith,
  add_negative (balance_of b dest) k hk kd bd,
  sub_negative (balance_of b source) k hk bs (omega arith),
  no_funds_negative (balance_of b source) k hk bs (omega arith),
)

reply_balance_lem :
    (req : Request) (r : Reply) (b : Bank)
    → req.header.account_id ≢ admin_account_id
    → req.header.account_id < max_bank_accounts
    → req.args.account_id < max_bank_accounts
    → r.account_id ≡ req.header.account_id
    → finish (reply_balance req r b)
      ≡ ok (
        if is_empty (b.accounts req.args.account_id).bank_account.hash
            then record r { ret_code = rc_id_not_found; length = sizeof_pointer }
            else record r { length = sizeof_pointer; payload = balance_of b req.header.account_id },
        b,
      )
unfolding reply_balance
reply_balance_lem req r b hs ls ld e = ground arith

reply_shutdown_lem :
    (req : Request) (r : Reply) (b : Bank)
    → finish (reply_shutdown req r b)
      ≡ ok (
        if req.header.account_id == admin_account_id
            then record r { length = sizeof_pointer; payload = b.active_threads }
            else record r { ret_code = rc_op_nallow; length = sizeof_pointer },
        b,
      )
unfolding reply_shutdown
reply_shutdown_lem req r b = ground arith

module _ (host : Host) (req : Request) (r : Reply) (id : ℕ) (b : Bank)
    (login : validate_bank_account host req.header b ≡ ok (rc_ok, b)) where
  -- The reply of a transfer, before the tests on the balances.
  abbrev offer : Reply
  offer = record (first_reply req r rc_ok) { payload = req.args.amount }

  -- Between two different accounts in use, neither of them the administrator's, a transfer whose
  -- numbers are at most MAX_BALANCE is answered by plain arithmetic.
  pub transfer_answer :
      req.op ≡ op_transfer
      → req.header.account_id ≢ req.args.account_id
      → req.header.account_id ≢ admin_account_id
      → req.args.account_id ≢ admin_account_id
      → req.header.account_id < max_bank_accounts
      → req.args.account_id < max_bank_accounts
      → IsUsed b req.args.account_id
      → balance_of b req.header.account_id ≤ max_balance
      → balance_of b req.args.account_id ≤ max_balance
      → req.args.amount ≤ max_balance
      → build_tlv_reply host req r id b
        ≡ finish (
            move_result
              (funds_code
                (balance_of b req.header.account_id)
                (balance_of b req.args.account_id)
                req.args.amount)
              req.header.account_id
              req.args.account_id
              req.args.amount
              (record (first_reply req r rc_ok) { payload = req.args.amount })
              b)
  transfer_answer op ne hs hd ls ld used bs bd ha =
      build_tlv_reply-eq host req r id b login
      ∙ ap finish (
          dispatch_transfer host req (first_reply req r rc_ok) id b op
          ∙ check_transfer_between req offer b ne hs hd ld used
          ∙ move_amount_lem req.header.account_id req.args.account_id req.args.amount offer b ls ld
              ne bs bd ha)

  -- A request whose operation is none of the four is answered RC_OK, and nothing is done.
  pub unknown_op_answer :
      (n : ℕ)
      → req.op ≡ op_other n
      → build_tlv_reply host req r id b
        ≡ ok (record (first_reply req r rc_ok) { length = sizeof_pointer }, b)
  unknown_op_answer n op =
      build_tlv_reply-eq host req r id b login
      ∙ ap finish (dispatch_other host req (first_reply req r rc_ok) id b n op)

  -- A client who asks for 2 ^ 32 - k takes k from the other account, which did not agree to it.
  pub negative_transfer_answer :
      (k : ℕ)
      → req.op ≡ op_transfer
      → req.header.account_id ≢ req.args.account_id
      → req.header.account_id ≢ admin_account_id
      → req.args.account_id ≢ admin_account_id
      → req.header.account_id < max_bank_accounts
      → req.args.account_id < max_bank_accounts
      → IsUsed b req.args.account_id
      → balance_of b req.header.account_id ≤ max_balance
      → balance_of b req.args.account_id ≤ max_balance
      → 0 < k
      → k ≤ balance_of b req.args.account_id
      → req.args.amount ≡ 2 ^ 32 - k
      → build_tlv_reply host req r id b
        ≡ ok (
          record (first_reply req r rc_ok) {
            length = sizeof_pointer;
            payload = balance_of b req.header.account_id + k;
          },
          set_two b req.args.account_id
              (balance_of b req.args.account_id - k)
              req.header.account_id
              (balance_of b req.header.account_id + k),
        )
  negative_transfer_answer k op ne hs hd ls ld used bs bd hk kd e =
      build_tlv_reply-eq host req r id b login
      ∙ ap finish (
          dispatch_transfer host req (first_reply req r rc_ok) id b op
          ∙ check_transfer_between req offer b ne hs hd ld used
          ∙ ap (λ a. move_amount req.header.account_id req.args.account_id a offer b) e
          ∙ move_amount_negative req.header.account_id req.args.account_id k offer b ls ld ne hk kd
              bd bs)

  -- OP_BALANCE looks for the account of the arguments, which the client does not set, in place of
  -- the client's own: where that one is not in use, the answer is RC_ID_NOT_FOUND.
  pub balance_answer :
      req.op ≡ op_balance
      → req.header.account_id ≢ admin_account_id
      → req.header.account_id < max_bank_accounts
      → req.args.account_id < max_bank_accounts
      → build_tlv_reply host req r id b
        ≡ ok (
          if is_empty (b.accounts req.args.account_id).bank_account.hash
              then record (first_reply req r rc_id_not_found) { length = sizeof_pointer }
              else record (first_reply req r rc_ok) {
                length = sizeof_pointer;
                payload = balance_of b req.header.account_id;
              },
          b,
        )
  balance_answer op hs ls ld =
      build_tlv_reply-eq host req r id b login
      ∙ ap finish (dispatch_balance host req (first_reply req r rc_ok) id b op)
      ∙ reply_balance_lem req (first_reply req r rc_ok) b hs ls ld refl

  -- Only the administrator may shut the server down, and is told the number of busy offices.
  pub shutdown_answer :
      req.op ≡ op_shutdown
      → build_tlv_reply host req r id b
        ≡ ok (
          if req.header.account_id == admin_account_id
              then record (first_reply req r rc_ok) {
                length = sizeof_pointer;
                payload = b.active_threads;
              }
              else record (first_reply req r rc_op_nallow) { length = sizeof_pointer },
          b,
        )
  shutdown_answer op =
      build_tlv_reply-eq host req r id b login
      ∙ ap finish (dispatch_shutdown host req (first_reply req r rc_ok) id b op)
      ∙ reply_shutdown_lem req (first_reply req r rc_ok) b
