-- ===== src/Bank/Accounts.antt =====
-- The accounts of Project2/source/banking_aux.c.
pub mod Login
use feup_sope.Base.{Bool, true, false, not, ℕ, if◌then◌else◌}
use feup_sope.Base.Text.{Bytes, is_empty, strcmp_eq}
use feup_sope.Bank.Types.{
  admin_account_id, ReqHeader, RetCode, rc_ok, rc_login_fail, rc_id_not_found, sem_init,
  role_account, account_creation, sync_mech_sem,
}
use feup_sope.Bank.State.{Host, M, pure, branch, ◌>>=◌, ◌>>◌, slot, with_slot, set_slot, add_log}
use feup_sope.Bank.Password.{generate_password_salt, generate_sha256_hash}

unfoldable pub is_active_account : ℕ → M Bool
is_active_account acc_id = with_slot acc_id (λ acc. not (is_empty acc.bank_account.hash))

-- general_aux.c's `init_sem`, for the semaphore of an account.
unfoldable pub init_sem : ℕ → ℕ → ℕ → M (Unit {0})
init_sem acc_id id val = do
  add_log (sync_mech_sem id sem_init role_account acc_id val)
  acc ← slot acc_id
  set_slot acc_id (record acc { semaphore = val })

-- `req_create_account_t`
pub record CreateArgs : Type 0 where
  pub account_id : ℕ
  pub balance : ℕ
  pub password : Bytes

module _ (host : Host) where
  -- The part of `create_bank_account` for an identifier that is free.
  unfoldable pub open_account : CreateArgs → ℕ → M Bool
  unfolding init_sem
  open_account acc_data id = do
    let acc_id = acc_data.account_id
    acc ← slot acc_id
    salt ← generate_password_salt host
    hash ← generate_sha256_hash host acc_data.password salt
    set_slot acc_id (record {
      bank_account = record {
        account_id = acc_id;
        hash = hash;
        salt = salt;
        balance = acc_data.balance;
      };
      semaphore = acc.semaphore;
      active = true;
    })
    admin ← slot admin_account_id
    add_log (account_creation id admin.bank_account)
    init_sem acc_id id 1
    pure true

  unfoldable pub create_bank_account : CreateArgs → ℕ → M Bool
  unfolding is_active_account
  create_bank_account acc_data id = do
    used ← is_active_account acc_data.account_id
    branch used (pure false) (open_account acc_data id)

  -- The comparison of the hashes, for an account that exists.
  unfoldable pub check_password : ReqHeader → M RetCode
  check_password header = do
    acc ← slot header.account_id
    hash ← generate_sha256_hash host header.password acc.bank_account.salt
    pure (if strcmp_eq hash acc.bank_account.hash then rc_ok else rc_login_fail)

  unfoldable pub validate_bank_account : ReqHeader → M RetCode
  unfolding is_active_account
  validate_bank_account header = do
    used ← is_active_account header.account_id
    branch used (check_password header) (pure rc_id_not_found)
