-- ===== src/Server/Serve.antt =====
-- What a bank office does with one request while it holds the mutex: lines 47 to 89 of
-- `read_request` in Project2/source/server.c, with the semaphore functions of general_aux.c.
pub mod Semaphores
pub mod Blocking
pub mod Totality
use feup_sope.Base.{ℕ, suc, ◌+◌, ◌-◌, Bool, true, false, ◌∷◌, ◌++◌, ltb, leb, if◌then◌else◌}
use feup_sope.Base.Text.{Bytes, codes}
use feup_sope.Bank.Types.{
  OpType, op_transfer, Slot, Request, Reply, rc_usr_down, LogCall, request, reply, sync_mech_sem,
  sync_delay, sem_wait, sem_post, role_account,
}
use feup_sope.Bank.State.{
  Host, Bank, M, ok, stop, blocked, pure, halt, branch, ◌>>=◌, ◌>>◌, slot, with_slot, set_slot,
  add_log,
}
use feup_sope.Bank.Reply.{build_tlv_reply}
use feup_sope.Base.Format.{zero_dec}
use feup_sope.Base.Word.{to_int}

-- `sem_wait` and `sem_post` on the semaphore of account `i`, whose entry is `s`.
abbrev take_semaphore : ℕ → Slot → M (Unit {0})
take_semaphore i s =
    branch (leb 1 s.semaphore) (set_slot i (record s { semaphore = s.semaphore - 1 }))
      (halt blocked)

-- `wait_sem`
unfoldable pub wait_account : ℕ → ℕ → M (Unit {0})
wait_account i id = do
  s ← slot i
  add_log (sync_mech_sem id sem_wait role_account i s.semaphore)
  take_semaphore i s

-- `post_sem`
unfoldable pub post_account : ℕ → ℕ → M (Unit {0})
post_account i id = do
  s ← slot i
  add_log (sync_mech_sem id sem_post role_account i s.semaphore)
  set_slot i (record s { semaphore = s.semaphore + 1 })

abbrev is_transfer : OpType → Bool
is_transfer op_transfer = true
is_transfer _ = false

abbrev active_slot : ℕ → M Bool
active_slot i = with_slot i (λ s. s.active)

-- `wait_sem` and `sync_delay` for an account that is active.
unfoldable pub enter_account : ℕ → ℕ → ℕ → M (Unit {0})
unfolding wait_account
enter_account i id delay_ms = do
  active ← active_slot i
  branch active (wait_account i id >> add_log (sync_delay id i delay_ms)) (pure tt)

unfoldable pub leave_account : ℕ → ℕ → M (Unit {0})
unfolding post_account
leave_account i id = do active ← active_slot i; branch active (post_account i id) (pure tt)

-- The waits for the requesting account and, for a transfer, for the target.
unfoldable pub acquire : Request → ℕ → M (Unit {0})
unfolding enter_account
acquire req id = do
  enter_account req.header.account_id id req.header.op_delay_ms
  branch (is_transfer req.op) (enter_account req.args.account_id id req.header.op_delay_ms)
      (pure tt)

unfoldable pub release : Request → ℕ → M (Unit {0})
unfolding leave_account
release req id = do
  leave_account req.header.account_id id
  branch (is_transfer req.op) (leave_account req.args.account_id id) (pure tt)

-- `++active_threads`
abbrev start_request : M (Unit {0})
start_request b = ok (tt, record b { active_threads = b.active_threads + 1 })

-- general_aux.c's path of a user's FIFO: `USER_FIFO_PATH_PREFIX`, and the process in five digits.
unfoldable pub get_user_fifo_path : ℕ → Bytes
unfolding zero_dec
get_user_fifo_path pid = codes "/tmp/secure_" ++ zero_dec 5 (to_int pid)

module _ (host : Host) where
  -- `open_user_fifo` and the `write` of the reply, or the mark that the user is gone.
  unfoldable pub send_reply : ℕ → Reply → M Reply
  send_reply pid r b =
      let path = get_user_fifo_path pid in
      let b' = record b { opens = b.opens + 1 } in
      branch (host.fifo_is_open b.opens path)
        (λ b''. ok (r, record b'' { sent = (path, r) ∷ b''.sent }))
        (pure (record r { ret_code = rc_usr_down })) b'

  -- `garbage` is what the local variable `reply` holds before `build_tlv_reply`.
  unfoldable pub serve : Request → Reply → ℕ → M Reply
  serve req garbage id = do
    add_log (request id req)
    start_request
    acquire req id
    answer ← build_tlv_reply host req garbage id
    release req id
    final ← send_reply req.header.pid answer
    add_log (reply id final)
    pure final
