-- ===== src/Server/Start.antt =====
-- The start of `main` in Project2/source/server.c, until it waits for requests.
pub mod Login
mod Tests
use feup_sope.Base.{
  ℕ, zero, suc, ◌+◌, ◌≤◌, ◌<◌, ◌≡◌, refl, arith, Bool, true, false, not, Option, none, some, List,
  [], ◌∷◌, ◌++◌, ◌∷◌, ltb, if◌then◌else◌,
}
use feup_sope.Base.Text.{Bytes}
use feup_sope.Base.Word.{ℤ, pos, negsuc, ltb_ℤ}
use feup_sope.Base.Format.Decimal.{atoi}
use feup_sope.Bank.Types.{
  Slot, empty_slot, max_bank_accounts, max_bank_offices, admin_account_id, main_thread_id,
  office_open, sync_mech_sem, sem_init, role_producer,
}
use feup_sope.Bank.State.{
  exit_failure, blocked, Host, Bank, M, pure, halt, branch, ◌>>=◌, ◌>>◌, add_log, out_of_bounds,
  Result,
}
use feup_sope.Bank.Password.{is_valid_password}
use feup_sope.Bank.Accounts.{create_bank_account}
use feup_sope.Client.{Mkfifo, FifoEnd, created, retrying, fifo_failure, create_fifo}

-- argv[1] and argv[2]
pub record Arguments : Type 0 where
  pub offices : Bytes
  pub password : Bytes

-- What `main` is answered: for the thread with this index, whether pthread_create makes it, and for the
-- FIFO of the server, the calls of mkfifo, and whether it opens.
pub record Answers : Type 0 where
  pub creates : ℕ → Bool
  pub mkfifo : List Mkfifo
  pub is_open : Bool

-- The global variables as the program finds them.
abbrev pub boot : Bank
boot = record {
  accounts = λ i. empty_slot;
  active_threads = 0;
  rand_calls = 0;
  opens = 0;
  log = [];
  sent = [];
}

-- `for (…) accounts[i].active = false`
abbrev pub initiate_accounts : M (Unit {0})
initiate_accounts b = pure tt (record b {
  accounts = λ i.
      if ltb i max_bank_accounts then record (b.accounts i) { active = false } else b.accounts i;
})

-- The loop that creates the threads, of `n` rounds, each with the identifier one past its index; every
-- round has its entry in the log. The result is the identifiers of the threads that run.
unfoldable pub open_offices : (ℕ → Bool) → ℕ → M (List ℕ)
open_offices creates zero = pure []
open_offices creates (suc n) = do
  running ← open_offices creates n
  add_log (office_open (n + 1))
  pure (if creates n then running ++ ((n + 1) ∷ []) else running)

-- The arrays of threads have this size, which must not be negative.
abbrev pub number_of_offices : ℤ → M ℕ
number_of_offices (pos n) = pure n
number_of_offices (negsuc n) = halt out_of_bounds

module _ (host : Host) where
  unfoldable pub initiate : (ℕ → Bool) → Bytes → ℤ → M (List ℕ)
  unfolding open_offices
  initiate creates admin_password threads_number = do
    initiate_accounts
    add_log (sync_mech_sem main_thread_id sem_init role_producer admin_account_id 0)
    n ← number_of_offices threads_number
    running ← open_offices creates n
    create_bank_account host
        (record { account_id = admin_account_id; balance = 0; password = admin_password })
        main_thread_id
    pure running

  -- `main` up to the loop; the result is the identifiers of the bank offices that run. While
  -- `create_fifo` calls itself the server is `blocked`.
  unfoldable pub server_start : Answers → Option Arguments → M (List ℕ)
  unfolding initiate
  server_start answers none = halt exit_failure
  server_start answers (some argv) =
      branch (ltb_ℤ (pos max_bank_offices) (atoi argv.offices)) (halt exit_failure) (
        branch (not (is_valid_password argv.password)) (halt exit_failure) (
          initiate answers.creates argv.password (atoi argv.offices) >>= λ running.
          elim (create_fifo answers.mkfifo) [
            | created ↦ branch answers.is_open (pure running) (halt exit_failure)
            | retrying ↦ halt blocked
            | fifo_failure ↦ halt exit_failure
          ]))
