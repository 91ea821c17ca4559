-- ===== src/Server/Offices/Deadlock.antt =====
-- A request that an office of server.c never gets through, and what becomes of the threads.
use feup_sope.Base.{ℕ, ◌+◌, ◌<◌, ◌≡◌, ◌≢◌, true, some}
use feup_sope.Bank.Types.{Request, op_transfer, max_bank_accounts, Slot}
use feup_sope.Bank.State.{Host, Bank}
use feup_sope.Queue.{list_queue_front}
use feup_sope.Server.Offices.{Shared, serving, pushing, System, Step}

-- Any number of steps.
pub data Steps (host : Host) (n : ℕ) (s : System) : System → Type 0 where
  stay : Steps host n s s
  step : {t u : System} → Steps host n s t → Step host n t u → Steps host n s u

-- A move that leaves the mutex, the queue and the accounts alone.
abbrev Quiet : Shared → Shared → Type 0
Quiet m m' =
    (m'.mutex ≡ m.mutex)
    × (m'.requests ≡ m.requests)
    × (m'.bank.accounts ≡ m.bank.accounts)
    × (m'.taken ≡ m.taken)

-- A transfer from an active account to itself, in a bank where its semaphore is free.
pub record IsSelfTransfer (req : Request) (accounts : ℕ → Slot) : Type 0 where
  pub op : req.op ≡ op_transfer
  pub same : req.header.account_id ≡ req.args.account_id
  pub inside : req.header.account_id < max_bank_accounts
  pub active : (accounts req.header.account_id).active ≡ true
  pub free : (accounts req.header.account_id).semaphore ≡ 1

module _ (host : Host) (n i : ℕ) (req : Request) where
  -- Office `i` has the mutex and is about to handle such a request.
  record IsStuck (s : System) : Type 0 where
    serves : s.office i ≡ serving
    alone : (j : ℕ) → s.office j ≡ serving → i ≡ j
    main_idle : (other : Request) → s.main ≢ pushing other
    held : s.shared.mutex ≡ some (i + 1)
    front : list_queue_front s.shared.requests ≡ some req
    to_itself : IsSelfTransfer req s.shared.bank.accounts
