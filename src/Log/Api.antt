-- ===== src/Log/Api.antt =====
-- Project2/source/sope.h: what log.c offers to the rest of the program, and where it keeps to it.
use feup_sope.Base.{
  ℕ, ◌-◌, [], ◌∷◌, ◌^◌, ◌≤◌, ◌<◌, ◌≡◌, refl, ◌∙◌, arith, Option, none, some, length, true, false,
  ◌++◌, take_all, length-take_le, take, ◌↔◌, ap, sym,
}
use feup_sope.Base.Text.{Bytes}
use feup_sope.Base.Word.{pos, negsuc, ℤ}
use feup_sope.Bank.Types.{
  Request, Reply, BankAccount, SyncMechOp, SyncRole, LogCall, office_open, office_close, request,
  account_creation, reply, sync_mech, sync_mech_sem, delay, sync_delay, op_other, main_thread_id,
}
use feup_sope.Log.{
  Process, Printed, log_request, log_reply, log_account_creation, atomic_printf, bank_office_text,
  sync_mech_text, sync_mech_sem_text, delay_text, sync_delay_text, newline, log_call,
}
use feup_sope.Log.Lines.{newlines}
use feup_sope.Log.Calls.{PrintsEntry}
use feup_sope.Log.Entries.{IsLoggable}
use feup_sope.Log.File.{log_call-PrintsEntry}

-- The functions of sope.h; the first argument is the descriptor that they write to. A pointer that may
-- be NULL is an `Option`; there is no result where a function reads outside of a table.
pub record LogApi : Type 0 where
  pub log_request : ℤ → ℕ → Option Request → Option Printed
  pub log_reply : ℤ → ℕ → Option Reply → Option Printed
  pub log_bank_office_open : ℤ → ℕ → ℕ → Option Printed
  pub log_bank_office_close : ℤ → ℕ → ℕ → Option Printed
  pub log_account_creation : ℤ → ℕ → Option BankAccount → Option Printed
  pub log_sync_mech : ℤ → ℕ → SyncMechOp → SyncRole → ℕ → Option Printed
  pub log_sync_mech_sem : ℤ → ℕ → SyncMechOp → SyncRole → ℕ → ℕ → Option Printed
  pub log_delay : ℤ → ℕ → ℕ → Option Printed
  pub log_sync_delay : ℤ → ℕ → ℕ → ℕ → Option Printed

-- The process with this descriptor, and with this identifier of its thread.
abbrev with_fd : Process → ℤ → Process
with_fd os fd = record os { fd = fd }

abbrev with_tid : Process → ℤ → ℕ → Process
with_tid os fd tid = record os { fd = fd; tid = λ i. tid }

-- What log.c gives for them.
abbrev pub log_api : Process → LogApi
log_api os = record {
  log_request = λ fd. log_request (with_fd os fd);
  log_reply = λ fd. log_reply (with_fd os fd);
  log_bank_office_open = λ fd id tid.
      some (atomic_printf (with_fd os fd) (bank_office_text (with_tid os fd tid) id true));
  log_bank_office_close = λ fd id tid.
      some (atomic_printf (with_fd os fd) (bank_office_text (with_tid os fd tid) id false));
  log_account_creation = λ fd id account. some (log_account_creation (with_fd os fd) id account);
  log_sync_mech = λ fd id smo role sid.
      some (atomic_printf (with_fd os fd) (sync_mech_text id smo role sid ++ newline));
  log_sync_mech_sem = λ fd id smo role sid val.
      some (atomic_printf (with_fd os fd) (sync_mech_sem_text id smo role sid val));
  log_delay = λ fd id delay_ms. some (atomic_printf (with_fd os fd) (delay_text id delay_ms));
  log_sync_delay =
      λ fd id sid delay_ms. some (atomic_printf (with_fd os fd) (sync_delay_text id sid delay_ms));
}

-- A call of the program through them, with what `open` has answered.
abbrev pub call : LogApi → Process → LogCall → Option Printed
call api os (office_open id) = api.log_bank_office_open os.fd id (os.tid id)
call api os (office_close id) = api.log_bank_office_close os.fd id (os.tid id)
call api os (request id req) = api.log_request os.fd id (some req)
call api os (account_creation id account) = api.log_account_creation os.fd id (some account)
call api os (reply id r) = api.log_reply os.fd id (some r)
call api os (sync_mech id smo role sid) = api.log_sync_mech os.fd id smo role sid
call api os (sync_mech_sem id smo role sid val) = api.log_sync_mech_sem os.fd id smo role sid val
call api os (delay delay_ms) = api.log_delay os.fd main_thread_id delay_ms
call api os (sync_delay id sid delay_ms) = api.log_sync_delay os.fd id sid delay_ms

call-log_call : (os : Process) (l : LogCall) → call (log_api os) os l ≡ log_call os l
unfolding log_call
call-log_call os l = ground arith

-- The result is the number of characters of one text, which is not 0, whatever `write` does. It is what
-- sope.h promises, "number of printed characters or a negative value in case of error", if and only if
-- `write` takes the whole text.
abbrev pub CountsText : Process → Option Printed → Type 0
CountsText os r =
    (p : Printed) × (text : Bytes) × (r ≡ some p)
    × (p.ret ≡ pos (length text))
    × (0 < length text)
    × ((p.ret ≡ pos (length p.written)) ↔ (length text ≤ os.takes os.fd text))

abbrev pub IsError : Option Printed → Type 0
IsError r = (p : Printed) × (n : ℕ) × (r ≡ some p) × (p.ret ≡ negsuc n) × (p.written ≡ [])

has_byte : (s : Bytes) → newlines s ≡ 1 → 0 < length s
has_byte [] h = absurd (omega (arith, h))
has_byte (c ∷ cs) h = omega arith

-- A prefix is as long as the text only where it takes all of it.
take-length_iff : (k : ℕ) (s : Bytes) → (pos (length s) ≡ pos (length (take k s))) ↔ (length s ≤ k)
take-length_iff k s = (
  λ h. let e : length s ≡ length (take k s) = cc in omega (arith, length-take_le k s, e),
  λ h. ap (λ t. pos (length t)) (sym (take_all k s h)),
)

counted :
    (os : Process) (l : LogCall)
    → 512 ≤ os.pipe_buf
    → ((i : ℕ) → os.tid i < 2 ^ 64)
    → IsLoggable l
    → CountsText os (call (log_api os) os l)
counted os l big tids loggable =
    let (text, e, entry) : PrintsEntry os l = log_call-PrintsEntry os big tids l loggable in
    let whole : take (os.pipe_buf - 1) text ≡ text =
      take_all (os.pipe_buf - 1) text (omega (arith, big, entry.2)) in
    (
      atomic_printf os text,
      text,
      call-log_call os l ∙ e,
      refl,
      has_byte text entry.0,
      rw whole (take-length_iff (os.takes os.fd text) text),
    )

-- For PIPE_BUF at least 512 and identifiers of threads with 64 bits: a call of log.c whose words have 32
-- bits, whose texts fit their fields without a newline and whose operation is one of the four returns
-- the number of characters of its text, which is not 0, even where `open` or `write` has failed, so that
-- it is the number of printed characters, as sope.h says, if and only if `write` takes the whole text;
-- with a NULL pointer, or for a request or a reply with another operation, nothing is printed and the
-- result is negative.
pub log_api-keeps :
    (os : Process) (l : LogCall) (req : Request) (r : Reply) (fd : ℤ) (id n : ℕ)
    → 512 ≤ os.pipe_buf
    → ((i : ℕ) → os.tid i < 2 ^ 64)
    → IsLoggable l
    → req.op ≡ op_other n
    → r.op ≡ op_other n
    → CountsText os (call (log_api os) os l)
      × IsError ((log_api os).log_request fd id none)
      × IsError ((log_api os).log_reply fd id none)
      × IsError ((log_api os).log_account_creation fd id none)
      × IsError ((log_api os).log_request fd id (some req))
      × IsError ((log_api os).log_reply fd id (some r))
unfolding log_request log_reply log_account_creation
log_api-keeps os l req r fd id n big tids loggable other other' = (
  counted os l big tids loggable,
  (_, 0, refl, refl, refl),
  (_, 0, refl, refl, refl),
  (_, 0, refl, refl, refl),
  (_, 1, rw other refl, refl, refl),
  (_, 1, rw other' refl, refl, refl),
)
