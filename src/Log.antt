-- ===== src/Log.antt =====
-- Project2/source/log.c with the log_ functions of general_aux.c: the text of each log entry.
pub mod Columns
pub mod Entries
pub mod File
pub mod Api
mod Tests
pub mod Calls
pub mod Texts
pub mod Lines
mod Names
pub use Names.*
use mathlib.Core.Option
use feup_sope.Base.{
  ℕ, zero, suc, ◌+◌, ◌-◌, Bool, true, false, Option, none, some, List, [], ◌∷◌, ◌++◌, length, take,
  replicate, ◌==◌, not, if◌then◌else◌,
}
use feup_sope.Base.Text.{Bytes, codes}
use feup_sope.Base.Word.{ℤ, pos, negsuc, to_int}
use feup_sope.Base.Format.{print_dec, pad_left, pad_right, zero_dec, blank_dec}
use feup_sope.Bank.Types.{
  OpType, op_create_account, op_balance, op_transfer, op_shutdown, op_other, RetCode, rc_ok,
  rc_srv_down, rc_srv_timeout, rc_usr_down, rc_login_fail, rc_op_nallow, rc_id_in_use,
  rc_id_not_found, rc_same_id, rc_no_funds, rc_too_high, rc_other, SyncMechOp, mutex_lock,
  mutex_unlock, mutex_trylock, cond_signal, cond_wait, sem_init, sem_post, sem_wait, SyncRole,
  role_producer, role_consumer, role_account, BankAccount, ReqArgs, Request, Reply, LogCall,
  office_open, office_close, request, account_creation, reply, sync_mech, sync_mech_sem, delay,
  sync_delay, hash_len, salt_len, max_password_len, main_thread_id,
}

-- What the process is given: the constant PIPE_BUF, `getpid()`, the identifiers of the threads, what
-- `open` answers for the file of the log, and how many bytes `write` takes of those that it is given for
-- a descriptor: none where it fails, as it does for the -1 of an `open` that has failed.
pub record Process : Type 0 where
  pub pipe_buf : ℕ
  pub pid : ℕ
  pub tid : ℕ → ℕ
  pub fd : ℤ
  pub takes : ℤ → Bytes → ℕ

-- What a function of the log returns, and what `write` takes from it.
pub record Printed : Type 0 where
  pub ret : ℤ
  pub written : Bytes

-- What `vsnprintf` keeps of a text: what fits with the terminator.
abbrev pub buffer_of : Process → Bytes → Bytes
buffer_of os text = take (os.pipe_buf - 1) text

-- `vsnprintf` counts the whole text; the result of `write` is not looked at.
abbrev pub atomic_printf : Process → Bytes → Printed
atomic_printf os text = record {
  ret = pos (length text);
  written = take (os.takes os.fd (buffer_of os text)) (buffer_of os text);
}

abbrev pub error_code : ℕ → Printed
error_code n = record { ret = negsuc (n - 1); written = [] }

abbrev pub newline : Bytes
newline = 10 ∷ []

-- The sign for the currency, in UTF-8.
abbrev pub euro : Bytes
euro = 226 ∷ 130 ∷ 172 ∷ []

abbrev pub letter : Bool → Bytes
letter true = codes "R"
letter false = codes "E"

-- "%0*d" of a field that is a uint32_t
abbrev id_field : ℕ → Bytes
id_field n = zero_dec width_id (to_int n)

abbrev account_field : ℕ → Bytes
account_field n = zero_dec width_account (to_int n)

-- "%*u"
abbrev unsigned_field : ℕ → ℕ → Bytes
unsigned_field width n = pad_left b' ' width (print_dec n)

-- The padding is `MAX_PASSWORD_LEN - strlen(password)` blanks; a negative width counts as positive.
abbrev pass_padding : Bytes → Bytes
pass_padding p = replicate ((max_password_len - length p) + (length p - max_password_len)) b' '

-- The text of `logBaseRequestInfo`, before `snprintf` cuts it.
unfoldable pub base_request_text : Process → ℕ → Request → Bytes → Bytes
base_request_text os id req op =
    letter (not (id == os.pid))
    ++ codes " - "
    ++ id_field id
    ++ codes " - ["
    ++ blank_dec width_tlv_len (to_int req.length)
    ++ codes " bytes] "
    ++ id_field req.header.pid
    ++ codes " ("
    ++ account_field req.header.account_id
    ++ codes ", \""
    ++ req.header.password
    ++ codes "\")"
    ++ pass_padding req.header.password
    ++ codes " ["
    ++ unsigned_field width_delay req.header.op_delay_ms
    ++ codes " ms] "
    ++ pad_right width_op op

unfoldable pub log_base_request_info : Process → ℕ → Request → Option Bytes
log_base_request_info os id req =
    Option.map (λ op. take (os.pipe_buf - 1) (base_request_text os id req op)) (op_type_str req.op)

unfoldable pub base_reply_text : Process → ℕ → Reply → Bytes → Bytes
base_reply_text os id r op =
    letter (id == os.pid)
    ++ codes " - "
    ++ id_field id
    ++ codes " - ["
    ++ blank_dec width_tlv_len (to_int r.length)
    ++ codes " bytes] "
    ++ account_field r.account_id
    ++ codes " "
    ++ pad_left b' ' width_op op
    ++ codes " "
    ++ pad_left b' ' width_rc (rc_str r.ret_code)

unfoldable pub log_base_reply_info : Process → ℕ → Reply → Option Bytes
log_base_reply_info os id r =
    Option.map (λ op. take (os.pipe_buf - 1) (base_reply_text os id r op)) (op_type_str r.op)

-- What `logRequest` prints behind the common part; `none` where its switch has no case.
abbrev pub request_rest : OpType → ReqArgs → Option Bytes
request_rest op_create_account a = some (
    codes " "
    ++ account_field a.account_id
    ++ codes " "
    ++ unsigned_field width_balance a.amount
    ++ euro
    ++ codes " \""
    ++ a.password
    ++ codes "\""
    ++ newline)
request_rest op_balance a = some newline
request_rest op_transfer a = some (
    codes " "
    ++ account_field a.account_id
    ++ codes " "
    ++ unsigned_field width_balance a.amount
    ++ euro
    ++ newline)
request_rest op_shutdown a = some newline
request_rest (op_other n) a = none

-- `none` stands for a read past the table of the operations.
unfoldable pub log_request : Process → ℕ → Option Request → Option Printed
log_request os id none = some (error_code 1)
log_request os id (some req) = elim (request_rest req.op req.args) [
  | some rest ↦ Option.map (λ s. atomic_printf os (s ++ rest)) (log_base_request_info os id req)
  | none ↦ some (error_code 2)
]

abbrev pub reply_rest : OpType → ℕ → Option Bytes
reply_rest op_create_account payload = some newline
reply_rest op_balance payload =
    some (codes " " ++ blank_dec width_balance (to_int payload) ++ euro ++ newline)
reply_rest op_transfer payload =
    some (codes " " ++ blank_dec width_balance (to_int payload) ++ euro ++ newline)
reply_rest op_shutdown payload = some (codes " " ++ blank_dec 0 (to_int payload) ++ newline)
reply_rest (op_other n) payload = none

unfoldable pub log_reply : Process → ℕ → Option Reply → Option Printed
log_reply os id none = some (error_code 1)
log_reply os id (some r) = elim (reply_rest r.op r.payload) [
  | some rest ↦ Option.map (λ s. atomic_printf os (s ++ rest)) (log_base_reply_info os id r)
  | none ↦ some (error_code 2)
]

abbrev startend : Bool → Bytes
startend true = codes "OPEN"
startend false = codes "CLOSE"

abbrev pub bank_office_text : Process → ℕ → Bool → Bytes
bank_office_text os id opens =
    codes "I - "
    ++ id_field id
    ++ codes " - "
    ++ pad_right width_startend (startend opens)
    ++ codes " "
    ++ print_dec (os.tid id)
    ++ newline

-- `&hash[n]`: the rest of an array is 0 behind a hash that is shorter.
abbrev pub from_index : ℕ → Bytes → Bytes
from_index zero s = s
from_index (suc n) [] = []
from_index (suc n) (c ∷ cs) = from_index n cs

abbrev pub account_creation_text : ℕ → BankAccount → Bytes
account_creation_text id account =
    codes "I - "
    ++ id_field id
    ++ codes " - "
    ++ account_field account.account_id
    ++ codes " "
    ++ pad_left b' ' salt_len account.salt
    ++ codes " ..."
    ++ pad_left b' ' width_hash (from_index (hash_len - width_hash) account.hash)
    ++ newline

unfoldable pub log_account_creation : Process → ℕ → Option BankAccount → Printed
log_account_creation os id none = error_code 1
log_account_creation os id (some account) = atomic_printf os (account_creation_text id account)

-- `logSyncMech` and `logSyncMechSem`, up to the value of the semaphore
abbrev pub sync_mech_text : ℕ → SyncMechOp → SyncRole → ℕ → Bytes
sync_mech_text id smo role sid =
    codes "S - "
    ++ id_field id
    ++ codes " - "
    ++ sync_role_char role
    ++ id_field sid
    ++ codes " "
    ++ sync_mech_str smo

abbrev pub sync_mech_sem_text : ℕ → SyncMechOp → SyncRole → ℕ → ℕ → Bytes
sync_mech_sem_text id smo role sid val =
    sync_mech_text id smo role sid
    ++ codes " [val="
    ++ blank_dec 0 (to_int val)
    ++ codes "]"
    ++ newline

abbrev pub delay_text : ℕ → ℕ → Bytes
delay_text id delay_ms =
    codes "A - "
    ++ id_field id
    ++ codes " - ["
    ++ unsigned_field width_delay delay_ms
    ++ codes " ms]"
    ++ newline

abbrev pub sync_delay_text : ℕ → ℕ → ℕ → Bytes
sync_delay_text id sid delay_ms =
    codes "A - "
    ++ id_field id
    ++ codes " - "
    ++ sync_role_char role_account
    ++ id_field sid
    ++ codes " ["
    ++ unsigned_field width_delay delay_ms
    ++ codes " ms]"
    ++ newline

-- What a call of a log_ function of general_aux.c does with the file that it opens to append.
unfoldable pub log_call : Process → LogCall → Option Printed
unfolding log_request log_reply log_account_creation
log_call os (office_open id) = some (atomic_printf os (bank_office_text os id true))
log_call os (office_close id) = some (atomic_printf os (bank_office_text os id false))
log_call os (request id req) = log_request os id (some req)
log_call os (account_creation id account) = some (log_account_creation os id (some account))
log_call os (reply id r) = log_reply os id (some r)
log_call os (sync_mech id smo role sid) =
    some (atomic_printf os (sync_mech_text id smo role sid ++ newline))
log_call os (sync_mech_sem id smo role sid val) =
    some (atomic_printf os (sync_mech_sem_text id smo role sid val))
log_call os (delay delay_ms) = some (atomic_printf os (delay_text main_thread_id delay_ms))
log_call os (sync_delay id sid delay_ms) = some (atomic_printf os (sync_delay_text id sid delay_ms))

-- The file of the log after the calls of a list that has the latest first: what `write` has taken of
-- each.
unfoldable pub log_file : Process → List LogCall → Option Bytes
unfolding log_call
log_file os [] = some []
log_file os (l ∷ ls) = elim (log_file os ls) [
  | none ↦ none
  | some text ↦ Option.map (λ p. text ++ p.written) (log_call os l)
]
