-- ===== src/Log/File.antt =====
-- The file of the log after any calls of the log_ functions of general_aux.c.
use feup_sope.Base.{
  ◌-◌, ℕ, ◌^◌, ◌≤◌, ◌<◌, ◌≡◌, refl, arith, true, false, some, List, [], ◌∷◌, ◌++◌, length, All,
  take_all, take,
}
use feup_sope.Base.Text.{Bytes}
use feup_sope.Bank.Types.{
  office_open, office_close, request, account_creation, reply, sync_mech, sync_mech_sem, delay,
  sync_delay, OpType, op_create_account, op_balance, op_transfer, op_shutdown, op_other, LogCall,
  ReqArgs, main_thread_id,
}
use feup_sope.Log.{
  Process, log_file, log_call, log_account_creation, reply_rest, request_rest, bank_office_text,
  account_creation_text, sync_mech_text, newline, sync_mech_sem_text, delay_text, sync_delay_text,
}
use feup_sope.Log.Lines.{newlines, newlines-append}
use feup_sope.Log.Calls.{PrintsEntry, request_entry, reply_entry, text_entry}
use feup_sope.Log.Entries.{
  IsLoggable, HasName, office-IsRest, account-IsRest, sync_mech-IsRest, sync_mech_sem-IsRest,
  delay-IsRest, sync_delay-IsRest,
}

request_has_case :
    (o : OpType) (a : ReqArgs) → HasName o → (rest : Bytes) × (request_rest o a ≡ some rest)
request_has_case op_create_account a h = (_, refl)
request_has_case op_balance a h = (_, refl)
request_has_case op_transfer a h = (_, refl)
request_has_case op_shutdown a h = (_, refl)
request_has_case (op_other n) a (op, e) = absurd cc

reply_has_case :
    (o : OpType) (payload : ℕ) → HasName o → (rest : Bytes) × (reply_rest o payload ≡ some rest)
reply_has_case op_create_account payload h = (_, refl)
reply_has_case op_balance payload h = (_, refl)
reply_has_case op_transfer payload h = (_, refl)
reply_has_case op_shutdown payload h = (_, refl)
reply_has_case (op_other n) payload (op, e) = absurd cc

module _ (os : Process) (big : 512 ≤ os.pipe_buf) (tids : (i : ℕ) → os.tid i < 2 ^ 64) where
  -- What a call of a log_ function gives to `write` is one line, and is not cut short, if its words have 32
  -- bits, its texts fit their fields without a newline and its operation is one of the four.
  pub log_call-PrintsEntry : (l : LogCall) → IsLoggable l → PrintsEntry os l
  unfolding log_call log_account_creation
  log_call-PrintsEntry (office_open id) h =
      text_entry os big (office_open id) (bank_office_text os id true) refl
        (office-IsRest os id true tids h)
  log_call-PrintsEntry (office_close id) h =
      text_entry os big (office_close id) (bank_office_text os id false) refl
        (office-IsRest os id false tids h)
  log_call-PrintsEntry (request id req) h =
      let (rest, e) = request_has_case req.op req.args h.4 in
      request_entry os big id req h.4.0 rest h.0 h.1 h.2 h.3 h.4.1 e
  log_call-PrintsEntry (account_creation id a) h =
      text_entry os big (account_creation id a) (account_creation_text id a) refl
        (account-IsRest id a h)
  log_call-PrintsEntry (reply id r) h =
      let (rest, e) = reply_has_case r.op r.payload h.4 in
      reply_entry os big id r h.4.0 rest h.0 h.1 h.2 h.3 h.4.1 e
  log_call-PrintsEntry (sync_mech id smo role sid) h =
      text_entry os big (sync_mech id smo role sid) (sync_mech_text id smo role sid ++ newline) refl
        (sync_mech-IsRest id smo role sid h.0 h.1)
  log_call-PrintsEntry (sync_mech_sem id smo role sid val) h =
      text_entry os big (sync_mech_sem id smo role sid val) (sync_mech_sem_text id smo role sid val)
        refl (sync_mech_sem-IsRest id smo role sid val h.0 h.1 h.2)
  log_call-PrintsEntry (delay delay_ms) h =
      text_entry os big (delay delay_ms) (delay_text main_thread_id delay_ms) refl
        (delay-IsRest 0 delay_ms (omega arith) h)
  log_call-PrintsEntry (sync_delay id sid delay_ms) h =
      text_entry os big (sync_delay id sid delay_ms) (sync_delay_text id sid delay_ms) refl
        (sync_delay-IsRest id sid delay_ms h.0 h.1 h.2)

  -- The file of the log has as many lines as there were calls, and ends with one, if every write takes
  -- what it is given.
  log_file-lines :
      ((buffer : Bytes) → os.takes os.fd buffer ≡ length buffer)
      → (ls : List LogCall) → All IsLoggable ls
      → (file : Bytes) × (log_file os ls ≡ some file) × (newlines file ≡ length ls)
  unfolding log_file
  log_file-lines writes [] h = ([], refl, refl)
  log_file-lines writes (l ∷ ls) h =
      let (file, e, n) = log_file-lines writes ls h.1 in
      let (text, printed, entry) = log_call-PrintsEntry l h.0 in
      let whole : take (os.pipe_buf - 1) text ≡ text =
        take_all (os.pipe_buf - 1) text (omega (arith, big, entry.2)) in
      let all : take (os.takes os.fd text) text ≡ text =
        take_all (os.takes os.fd text) text (omega (arith, writes text)) in
      (
        file ++ text,
        rw (log_file, e, printed, whole, all) refl,
        omega (arith, newlines-append file text, n, entry.0),
      )
