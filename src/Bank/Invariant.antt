-- ===== src/Bank/Invariant.antt =====
-- The well-formedness of the array of accounts, kept by `create_bank_account` and by
-- `build_tlv_reply` of Project2/source/banking_aux.c.
use feup_sope.Base.{
  ℕ, ◌+◌, ◌^◌, ◌≤◌, ◌<◌, ◌≡◌, true, false, not, List, [], ◌∷◌, arith, length, All, Option-cases,
  inl, inr,
}
use feup_sope.Base.Text.{is_empty, IsWord, tokens, tokens-IsWord, Bytes}
use feup_sope.Bank.Types.{
  Slot, Request, Reply, OpType, op_create_account, op_balance, op_transfer, op_shutdown, op_other,
  hash_len, salt_len, rc_ok,
}
use feup_sope.Bank.State.{Host, Bank, Ensures, Ensures-forall}
use feup_sope.Bank.Password.{
  salt_from, length-salt_from, first_word, generate_password_salt, generate_sha256_hash,
  sha256sum_command,
}
use feup_sope.Bank.Accounts.{CreateArgs, open_account, create_bank_account}
use feup_sope.Bank.Reply.{move_amount, check_transfer, reply_create, dispatch, build_tlv_reply}
use feup_sope.Bank.Reply.Rules.{first_reply, build_tlv_reply-Ensures}

-- The entry `i` of the array. `active` and `is_active_account` agree on it.
pub record IsValidSlot (i : ℕ) (s : Slot) : Type 0 where
  pub used : s.active ≡ not (is_empty s.bank_account.hash)
  pub numbered : s.active ≡ true → s.bank_account.account_id ≡ i
  pub hashed : length s.bank_account.hash ≤ hash_len
  pub salted : s.active ≡ true → length s.bank_account.salt ≡ salt_len
  pub word : s.bank_account.balance < 2 ^ 32

abbrev pub IsValid : Bank → Type 0
IsValid b = (i : ℕ) → IsValidSlot i (b.accounts i)

abbrev KeepsSlot : ℕ → {A : Type 0} → A → Bank → Type 0
KeepsSlot j _ b' = IsValidSlot j (b'.accounts j)

-- A hash that comes back is a word of at most 64 bytes, and the bank has not changed.
first_word-fits :
    (ws : List Bytes) (b : Bank)
    → All (IsWord b' ') ws
    → Ensures (λ w b'. (is_empty w ≡ false) × (length w ≤ hash_len) × (b' ≡ b)) (first_word ws b)
first_word-fits [] b h = tt
first_word-fits (w ∷ ws) b h = ground (arith, h.0.0)

generate_sha256_hash-fits :
    (host : Host) (password salt : Bytes) (b : Bank)
    → Ensures
        (λ w b'. (is_empty w ≡ false) × (length w ≤ hash_len) × (b' ≡ b))
        (generate_sha256_hash host password salt b)
unfolding generate_sha256_hash
generate_sha256_hash-fits host password salt b =
    elim (Option-cases (host.pipe (sha256sum_command password salt))) [
      | inl e ↦ ground arith
      | inr (line, e) ↦
          ground (arith, first_word-fits (tokens b' ' line) b (tokens-IsWord b' ' line))
    ]

module _ (j : ℕ) where
  open_account-keeps :
      (host : Host) (acc_data : CreateArgs) (id : ℕ) (b : Bank)
      → acc_data.balance < 2 ^ 32
      → IsValidSlot j (b.accounts j)
      → Ensures (KeepsSlot j) (open_account host acc_data id b)
  unfolding open_account generate_password_salt
  open_account-keeps host acc_data id b word v = ground (
    arith,
    length-salt_from host salt_len b.rand_calls,
    generate_sha256_hash-fits host acc_data.password (salt_from host salt_len b.rand_calls)
        (record b { rand_calls = b.rand_calls + salt_len }),
  )

  create_bank_account-keeps :
      (host : Host) (acc_data : CreateArgs) (id : ℕ) (b : Bank)
      → acc_data.balance < 2 ^ 32
      → IsValidSlot j (b.accounts j)
      → Ensures (KeepsSlot j) (create_bank_account host acc_data id b)
  unfolding create_bank_account
  create_bank_account-keeps host acc_data id b word v =
      ground (arith, open_account-keeps host acc_data id b word v)

  move_amount-keeps :
      (source dest amount : ℕ) (r : Reply) (b : Bank)
      → IsValidSlot j (b.accounts j)
      → Ensures (KeepsSlot j) (move_amount source dest amount r b)
  unfolding move_amount
  move_amount-keeps source dest amount r b v = ground arith

  check_transfer-keeps :
      (req : Request) (r : Reply) (b : Bank)
      → IsValidSlot j (b.accounts j)
      → Ensures (KeepsSlot j) (check_transfer req r b)
  unfolding check_transfer
  check_transfer-keeps req r b v =
      ground
        (arith, move_amount-keeps req.header.account_id req.args.account_id req.args.amount r b v)

  reply_create-keeps :
      (host : Host) (req : Request) (r : Reply) (id : ℕ) (b : Bank)
      → req.args.amount < 2 ^ 32
      → IsValidSlot j (b.accounts j)
      → Ensures (KeepsSlot j) (reply_create host req r id b)
  unfolding reply_create
  reply_create-keeps host req r id b word v = ground (
    arith,
    create_bank_account-keeps host
        (record {
          account_id = req.args.account_id;
          balance = req.args.amount;
          password = req.args.password;
        })
        id b word v,
  )

  dispatch-keeps :
      (host : Host) (op : OpType) (req : Request) (r : Reply) (id : ℕ) (b : Bank)
      → req.args.amount < 2 ^ 32
      → IsValidSlot j (b.accounts j)
      → Ensures (KeepsSlot j) (dispatch host op req r id b)
  unfolding dispatch
  dispatch-keeps host op_create_account req r id b word v =
      reply_create-keeps host req r id b word v
  dispatch-keeps host op_balance req r id b word v = ground arith
  dispatch-keeps host op_transfer req r id b word v =
      check_transfer-keeps req (record r { payload = req.args.amount }) b v
  dispatch-keeps host op_shutdown req r id b word v = ground arith
  dispatch-keeps host (op_other n) req r id b word v = v

  slot-kept :
      (host : Host) (req : Request) (r : Reply) (id : ℕ) (b : Bank)
      → req.args.amount < 2 ^ 32
      → IsValidSlot j (b.accounts j)
      → Ensures (KeepsSlot j) (build_tlv_reply host req r id b)
  slot-kept host req r id b word v =
      build_tlv_reply-Ensures (KeepsSlot j) host req r id b (λ r' b' h. h)
        (λ _. dispatch-keeps host req.op req (first_reply req r rc_ok) id b word v) (λ rc ne. v)

-- Whatever the request, if `build_tlv_reply` returns then every entry is well formed that was so.
pub build_tlv_reply-IsValid :
    (host : Host) (req : Request) (r : Reply) (id : ℕ) (b : Bank)
    → req.args.amount < 2 ^ 32
    → IsValid b
    → Ensures (λ _ b'. IsValid b') (build_tlv_reply host req r id b)
build_tlv_reply-IsValid host req r id b word v =
    Ensures-forall (λ j. KeepsSlot j) (build_tlv_reply host req r id b)
      λ j. slot-kept j host req r id b word (v j)
