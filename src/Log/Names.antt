-- ===== src/Log/Names.antt =====
-- The widths and the tables of names of Project2/source/log.c.
use feup_sope.Base.{ℕ, Option, none, some}
use feup_sope.Base.Text.{Bytes, codes}
use feup_sope.Bank.Types.{
  OpType, op_create_account, op_balance, op_transfer, op_shutdown, op_other, RetCode, rc_ok,
  rc_srv_down, rc_srv_timeout, rc_usr_down, rc_login_fail, rc_op_nallow, rc_id_in_use,
  rc_id_not_found, rc_same_id, rc_no_funds, rc_too_high, rc_other, SyncMechOp, mutex_lock,
  mutex_unlock, mutex_trylock, cond_signal, cond_wait, sem_init, sem_post, sem_wait, SyncRole,
  role_producer, role_consumer, role_account,
}

abbrev pub width_id : ℕ
width_id = 5

abbrev pub width_delay : ℕ
width_delay = 5

abbrev pub width_account : ℕ
width_account = 4

abbrev pub width_balance : ℕ
width_balance = 10

abbrev pub width_op : ℕ
width_op = 8

abbrev pub width_rc : ℕ
width_rc = 12

abbrev pub width_hash : ℕ
width_hash = 5

abbrev pub width_tlv_len : ℕ
width_tlv_len = 3

abbrev pub width_startend : ℕ
width_startend = 5

-- An operation that is no enumerator is past the end of the table.
abbrev pub op_type_str : OpType → Option Bytes
op_type_str op_create_account = some (codes "CREATE")
op_type_str op_balance = some (codes "BALANCE")
op_type_str op_transfer = some (codes "TRANSFER")
op_type_str op_shutdown = some (codes "SHUTDOWN")
op_type_str (op_other n) = none

abbrev pub rc_str : RetCode → Bytes
rc_str rc_ok = codes "OK"
rc_str rc_srv_down = codes "SRV_DOWN"
rc_str rc_srv_timeout = codes "SRV_TIMEOUT"
rc_str rc_usr_down = codes "USR_DOWN"
rc_str rc_login_fail = codes "LOGIN_FAIL"
rc_str rc_op_nallow = codes "OP_NALLOW"
rc_str rc_id_in_use = codes "ID_IN_USE"
rc_str rc_id_not_found = codes "ID_NOT_FOUND"
rc_str rc_same_id = codes "SAME_ID"
rc_str rc_no_funds = codes "NO_FUNDS"
rc_str rc_too_high = codes "TOO_HIGH"
rc_str rc_other = codes "OTHER"

abbrev pub sync_mech_str : SyncMechOp → Bytes
sync_mech_str mutex_lock = codes "MUTEX_LOCK"
sync_mech_str mutex_trylock = codes "MUTEX_TRYLOCK"
sync_mech_str mutex_unlock = codes "MUTEX_UNLOCK"
sync_mech_str cond_signal = codes "COND_SIGNAL"
sync_mech_str cond_wait = codes "COND_WAIT"
sync_mech_str sem_init = codes "SEM_INIT"
sync_mech_str sem_post = codes "SEM_POST"
sync_mech_str sem_wait = codes "SEM_WAIT"

-- `SYNC_ROLE_STR[role][0]`, as the text of "%c".
abbrev pub sync_role_char : SyncRole → Bytes
sync_role_char role_account = codes "A"
sync_role_char role_consumer = codes "C"
sync_role_char role_producer = codes "P"
