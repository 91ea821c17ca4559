-- ===== src/Bank/Semaphores.antt =====
-- What `build_tlv_reply` does to the semaphore of an account and to its mark `active`.
use feup_sope.Base.{ℕ, ◌≡◌, refl, ◌≢◌, ◌⊎◌, inl, true, false, arith}
use feup_sope.Bank.Types.{
  Slot, Request, Reply, OpType, op_create_account, op_balance, op_transfer, op_shutdown, op_other,
  rc_ok,
}
use feup_sope.Bank.State.{Host, Bank, Ensures, IsUsed}
use feup_sope.Bank.Password.{generate_password_salt, generate_sha256_hash}
use feup_sope.Bank.Accounts.{CreateArgs, open_account, create_bank_account}
use feup_sope.Bank.Reply.{move_amount, check_transfer, reply_create, dispatch, build_tlv_reply}
use feup_sope.Bank.Reply.Rules.{first_reply, build_tlv_reply-Ensures}
use feup_sope.Bank.Invariant.{IsValidSlot}

-- Nothing happens to the two fields, or the account is new and its semaphore is free.
pub record IsSame (s s' : Slot) : Type 0 where
  pub active : s'.active ≡ s.active
  pub semaphore : s'.semaphore ≡ s.semaphore

pub record IsNew (s s' : Slot) : Type 0 where
  pub before : s.active ≡ false
  pub after : s'.active ≡ true
  pub free : s'.semaphore ≡ 1

abbrev pub SlotStep : Request → ℕ → Bank → Bank → Type 0
SlotStep req j b b' =
    IsSame (b.accounts j) (b'.accounts j)
    ⊎ IsNew (b.accounts j) (b'.accounts j)
      × (req.op ≡ op_create_account)
      × (j ≢ req.header.account_id)

module _ (j : ℕ) where
  abbrev Steps : Bank → {A : Type 0} → A → Bank → Type 0
  Steps b _ b' = IsSame (b.accounts j) (b'.accounts j)

  abbrev Creates : ℕ → Bank → {A : Type 0} → A → Bank → Type 0
  Creates i b _ b' =
      IsSame (b.accounts j) (b'.accounts j) ⊎ (j ≡ i) × IsNew (b.accounts j) (b'.accounts j)

  open_account-Creates :
      (host : Host) (acc_data : CreateArgs) (id : ℕ) (b : Bank)
      → (b.accounts acc_data.account_id).active ≡ false
      → Ensures (Creates acc_data.account_id b) (open_account host acc_data id b)
  unfolding open_account generate_password_salt generate_sha256_hash
  open_account-Creates host acc_data id b free = ground arith

  create_bank_account-Creates :
      (host : Host) (acc_data : CreateArgs) (id : ℕ) (b : Bank)
      → IsValidSlot acc_data.account_id (b.accounts acc_data.account_id)
      → Ensures (Creates acc_data.account_id b) (create_bank_account host acc_data id b)
  unfolding create_bank_account
  create_bank_account-Creates host acc_data id b v = ground (
    arith,
    λ (free : (b.accounts acc_data.account_id).active ≡ false).
        open_account-Creates host acc_data id b free,
  )

  move_amount-Steps :
      (source dest amount : ℕ) (r : Reply) (b : Bank)
      → Ensures (Steps b) (move_amount source dest amount r b)
  unfolding move_amount
  move_amount-Steps source dest amount r b = ground arith

  check_transfer-Steps :
      (req : Request) (r : Reply) (b : Bank) → Ensures (Steps b) (check_transfer req r b)
  unfolding check_transfer
  check_transfer-Steps req r b =
      ground
        (arith, move_amount-Steps req.header.account_id req.args.account_id req.args.amount r b)

  reply_create-Creates :
      (host : Host) (req : Request) (r : Reply) (id : ℕ) (b : Bank)
      → IsValidSlot req.args.account_id (b.accounts req.args.account_id)
      → IsUsed b req.header.account_id
      → Ensures
          (λ _ b'.
            IsSame (b.accounts j) (b'.accounts j)
            ⊎ (j ≢ req.header.account_id) × IsNew (b.accounts j) (b'.accounts j))
          (reply_create host req r id b)
  unfolding reply_create
  reply_create-Creates host req r id b v login = ground (
    arith,
    create_bank_account-Creates host
        (record {
          account_id = req.args.account_id;
          balance = req.args.amount;
          password = req.args.password;
        })
        id b v,
  )

  dispatch-Steps :
      (host : Host) (op : OpType) (req : Request) (r : Reply) (id : ℕ) (b : Bank)
      → req.op ≡ op
      → IsValidSlot req.args.account_id (b.accounts req.args.account_id)
      → IsUsed b req.header.account_id
      → Ensures (λ _. SlotStep req j b) (dispatch host op req r id b)
  unfolding dispatch
  dispatch-Steps host op_create_account req r id b e v login =
      ground (arith, reply_create-Creates host req r id b v login)
  dispatch-Steps host op_balance req r id b e v login = ground arith
  dispatch-Steps host op_transfer req r id b e v login =
      ground (arith, check_transfer-Steps req (record r { payload = req.args.amount }) b)
  dispatch-Steps host op_shutdown req r id b e v login = ground arith
  dispatch-Steps host (op_other n) req r id b e v login =
      inl (record { active = refl; semaphore = refl })

  pub build_tlv_reply-SlotStep :
      (host : Host) (req : Request) (r : Reply) (id : ℕ) (b : Bank)
      → IsValidSlot req.args.account_id (b.accounts req.args.account_id)
      → Ensures (λ _. SlotStep req j b) (build_tlv_reply host req r id b)
  build_tlv_reply-SlotStep host req r id b v =
      build_tlv_reply-Ensures (λ _. SlotStep req j b) host req r id b (λ r' b' h. h)
        (dispatch-Steps host req.op req (first_reply req r rc_ok) id b refl v)
        (λ rc ne. inl (record { active = refl; semaphore = refl }))
