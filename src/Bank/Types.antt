-- ===== src/Bank/Types.antt =====
-- Project2/source/types.h, constants.h and banking_aux.h: the records that the programs share.
use feup_sope.Base.{ℕ, Bool, false, []}
use feup_sope.Base.Text.{Bytes}

abbrev pub max_bank_offices : ℕ
max_bank_offices = 99

abbrev pub max_bank_accounts : ℕ
max_bank_accounts = 4096

abbrev pub min_balance : ℕ
min_balance = 1

abbrev pub max_balance : ℕ
max_balance = 1000000000

abbrev pub admin_account_id : ℕ
admin_account_id = 0

abbrev pub main_thread_id : ℕ
main_thread_id = 0

abbrev pub min_password_len : ℕ
min_password_len = 8

abbrev pub max_password_len : ℕ
max_password_len = 20

abbrev pub hash_len : ℕ
hash_len = 64

abbrev pub salt_len : ℕ
salt_len = 64

abbrev pub max_op_delay_ms : ℕ
max_op_delay_ms = 99999

-- The field of a message can hold any number: `op_other n` is one that is no enumerator.
pub data OpType : Type 0 where
  op_create_account op_balance op_transfer op_shutdown : OpType
  op_other : ℕ → OpType

pub data RetCode : Type 0 where
  rc_ok rc_srv_down rc_srv_timeout rc_usr_down rc_login_fail rc_op_nallow : RetCode
  rc_id_in_use rc_id_not_found rc_same_id rc_no_funds rc_too_high rc_other : RetCode

pub data SyncMechOp : Type 0 where
  mutex_lock mutex_unlock mutex_trylock cond_signal cond_wait sem_init sem_post sem_wait :
      SyncMechOp

pub data SyncRole : Type 0 where
  role_producer role_consumer role_account : SyncRole

pub record BankAccount : Type 0 where
  pub account_id : ℕ
  pub hash : Bytes
  pub salt : Bytes
  pub balance : ℕ

-- `bank_account_sem_t`
pub record Slot : Type 0 where
  pub bank_account : BankAccount
  pub semaphore : ℕ
  pub active : Bool

-- An entry of the static array before anything is written to it.
abbrev pub empty_slot : Slot
empty_slot = record {
  bank_account = record { account_id = 0; hash = []; salt = []; balance = 0 };
  semaphore = 0;
  active = false;
}

pub record ReqHeader : Type 0 where
  pub pid : ℕ
  pub account_id : ℕ
  pub password : Bytes
  pub op_delay_ms : ℕ

-- The union of `req_create_account_t` and `req_transfer_t`. The members lie over each other:
-- `create.account_id` is `transfer.account_id`, and `create.balance` is `transfer.amount`.
pub record ReqArgs : Type 0 where
  pub account_id : ℕ
  pub amount : ℕ
  pub password : Bytes

pub record Request : Type 0 where
  pub op : OpType
  pub length : ℕ
  pub header : ReqHeader
  pub args : ReqArgs

-- `rep_balance_t`, `rep_transfer_t` and `rep_shutdown_t` are one uint32_t each, at the same place
-- of the union: `payload`.
pub record Reply : Type 0 where
  pub op : OpType
  pub length : ℕ
  pub account_id : ℕ
  pub ret_code : RetCode
  pub payload : ℕ

-- sizeof(req_value_t): a header of 33 bytes and a union of 29.
abbrev pub sizeof_req_value : ℕ
sizeof_req_value = 62

abbrev pub sizeof_pointer : ℕ
sizeof_pointer = 8

-- A call of a `log_` function of general_aux.c, or of one that logs what it does.
pub data LogCall : Type 0 where
  office_open office_close : ℕ → LogCall
  request : ℕ → Request → LogCall
  account_creation : ℕ → BankAccount → LogCall
  reply : ℕ → Reply → LogCall
  sync_mech : ℕ → SyncMechOp → SyncRole → ℕ → LogCall
  sync_mech_sem : ℕ → SyncMechOp → SyncRole → ℕ → ℕ → LogCall
  delay : ℕ → LogCall
  sync_delay : ℕ → ℕ → ℕ → LogCall
