-- ===== src/Bank/Reply/Rules.antt =====
-- The rules by which a property of `build_tlv_reply` follows from one of the `switch`.
use feup_sope.Base.{ℕ, ◌≡◌, refl, ◌≢◌, arith}
use feup_sope.Bank.Types.{
  OpType, op_create_account, op_balance, op_transfer, op_shutdown, op_other, RetCode, rc_ok,
  sizeof_pointer, Request, Reply, ReqHeader,
}
use feup_sope.Bank.State.{Host, Bank, Result, M, ok, stop, pure, Ensures, IsUsed}
use feup_sope.Bank.Password.{generate_sha256_hash}
use feup_sope.Bank.Accounts.{check_password, validate_bank_account}
use feup_sope.Bank.Reply.{
  check_transfer, reply_balance, reply_create, reply_shutdown, dispatch, dispatch_if_ok,
  build_tlv_reply,
}

-- Checking a password only reads the bank, and succeeds only for an account in use.
pub validate_bank_account-reads :
    (host : Host) (header : ReqHeader) (b : Bank)
    → Ensures
        (λ rc b'. (b' ≡ b) × (rc ≡ rc_ok → IsUsed b header.account_id))
        (validate_bank_account host header b)
unfolding validate_bank_account check_password generate_sha256_hash
validate_bank_account-reads host header b = ground arith

-- The reply as `build_tlv_reply` fills it in before the `switch`.
abbrev pub first_reply : Request → Reply → RetCode → Reply
first_reply req reply rc = record {
  op = req.op;
  length = reply.length;
  account_id = req.header.account_id;
  ret_code = rc;
  payload = reply.payload;
}

module _ (Q : Reply → Bank → Type 0) where
  -- The continuation of an action that only reads.
  Ensures-after_reading :
      (P : RetCode → Type 0) (b : Bank) (x : Result (RetCode × Bank)) (f : RetCode → M Reply)
      → Ensures (λ rc b'. (b' ≡ b) × P rc) x
      → ((rc : RetCode) → P rc → Ensures Q (f rc b))
      → Ensures Q (elim x [ ok p ↦ f p.0 p.1 | stop e ↦ stop e ])
  Ensures-after_reading P b (ok (rc, b')) f same keep = rw same.0 (keep rc same.1)
  Ensures-after_reading P b (stop e) f same keep = tt

  Ensures-length :
      (x : Result (Reply × Bank))
      → ((r : Reply) (b : Bank) → Q r b → Q (record r { length = sizeof_pointer }) b)
      → Ensures Q x
      → Ensures Q
          (elim x [ ok p ↦ pure (record (p.0) { length = sizeof_pointer }) p.1 | stop e ↦ stop e ])
  Ensures-length (ok p) lift keep = lift p.0 p.1 keep
  Ensures-length (stop e) lift keep = tt

  dispatch_if_ok-Ensures :
      (host : Host) (rc : RetCode) (req : Request) (r : Reply) (id : ℕ) (b : Bank)
      → (rc ≡ rc_ok → Ensures Q (dispatch host req.op req r id b))
      → (rc ≢ rc_ok → Q r b)
      → Ensures Q (dispatch_if_ok host rc req r id b)
  dispatch_if_ok-Ensures host rc_ok req r id b act other = act refl
  dispatch_if_ok-Ensures host rc req r id b act other = other (λ e. cc)

  pub build_tlv_reply-Ensures :
      (host : Host) (req : Request) (r : Reply) (id : ℕ) (b : Bank)
      → ((r : Reply) (b : Bank) → Q r b → Q (record r { length = sizeof_pointer }) b)
      → (IsUsed b req.header.account_id
          → Ensures Q (dispatch host req.op req (first_reply req r rc_ok) id b))
      → ((rc : RetCode) → rc ≢ rc_ok → Q (first_reply req r rc) b)
      → Ensures Q (build_tlv_reply host req r id b)
  unfolding build_tlv_reply
  build_tlv_reply-Ensures host req r id b lift act other =
      Ensures-after_reading (λ rc. rc ≡ rc_ok → IsUsed b req.header.account_id) b
        (validate_bank_account host req.header b) _ (validate_bank_account-reads host req.header b)
        λ rc login. Ensures-length (dispatch_if_ok host rc req (first_reply req r rc) id b) lift (
          dispatch_if_ok-Ensures host rc req (first_reply req r rc) id b (λ e. rw e (act (login e)))
            (other rc))

-- The end of `build_tlv_reply`, behind the `switch`.
abbrev pub finish : Result (Reply × Bank) → Result (Reply × Bank)
finish (ok (r, b)) = ok (record r { length = sizeof_pointer }, b)
finish (stop e) = stop e

pub build_tlv_reply-eq :
    (host : Host) (req : Request) (r : Reply) (id : ℕ) (b : Bank)
    → validate_bank_account host req.header b ≡ ok (rc_ok, b)
    → build_tlv_reply host req r id b
      ≡ finish (dispatch host req.op req (first_reply req r rc_ok) id b)
unfolding build_tlv_reply
build_tlv_reply-eq host req r id b e = ground arith

pub build_tlv_reply-refused :
    (host : Host) (req : Request) (r : Reply) (id : ℕ) (b : Bank) (rc : RetCode)
    → rc ≢ rc_ok
    → validate_bank_account host req.header b ≡ ok (rc, b)
    → build_tlv_reply host req r id b
      ≡ ok (record (first_reply req r rc) { length = sizeof_pointer }, b)
unfolding build_tlv_reply
build_tlv_reply-refused host req r id b rc ne e = ground arith

module _ (host : Host) (req : Request) (r : Reply) (id : ℕ) (b : Bank) where
  pub dispatch_create :
      {op : OpType}
      → op ≡ op_create_account
      → dispatch host op req r id b ≡ reply_create host req r id b
  unfolding dispatch
  dispatch_create e = rw e

  pub dispatch_balance :
      {op : OpType} → op ≡ op_balance → dispatch host op req r id b ≡ reply_balance req r b
  unfolding dispatch
  dispatch_balance e = rw e

  pub dispatch_transfer :
      {op : OpType}
      → op ≡ op_transfer
      → dispatch host op req r id b ≡ check_transfer req (record r { payload = req.args.amount }) b
  unfolding dispatch
  dispatch_transfer e = rw e

  pub dispatch_shutdown :
      {op : OpType} → op ≡ op_shutdown → dispatch host op req r id b ≡ reply_shutdown req r b
  unfolding dispatch
  dispatch_shutdown e = rw e

  pub dispatch_other :
      {op : OpType} (n : ℕ) → op ≡ op_other n → dispatch host op req r id b ≡ ok (r, b)
  unfolding dispatch
  dispatch_other n e = rw e
