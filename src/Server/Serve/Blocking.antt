-- ===== src/Server/Serve/Blocking.antt =====
-- Requests that an office never gets through.
use feup_sope.Base.{ℕ, ◌+◌, ◌≤◌, ◌<◌, ◌≡◌, true, ◌∷◌, arith}
use feup_sope.Bank.Types.{Request, Reply, op_transfer, max_bank_accounts, request}
use feup_sope.Bank.State.{Host, Bank, stop, blocked, out_of_bounds}
use feup_sope.Server.Serve.{acquire, serve}
use feup_sope.Server.Serve.Semaphores.{semaphore_of}

self_acquire :
    (req : Request) (id : ℕ) (b : Bank)
    → req.op ≡ op_transfer
    → req.header.account_id ≡ req.args.account_id
    → req.header.account_id < max_bank_accounts
    → (b.accounts req.header.account_id).active ≡ true
    → semaphore_of b req.header.account_id ≡ 1
    → acquire req id b ≡ stop blocked
unfolding acquire
self_acquire req id b op same lt active free = ground arith

-- A transfer from an active account with a free semaphore to itself stops blocked: the second wait is
-- for the semaphore that the first has taken.
pub self_transfer-blocked :
    (host : Host) (req : Request) (garbage : Reply) (id : ℕ) (b : Bank)
    → req.op ≡ op_transfer
    → req.header.account_id ≡ req.args.account_id
    → req.header.account_id < max_bank_accounts
    → (b.accounts req.header.account_id).active ≡ true
    → semaphore_of b req.header.account_id ≡ 1
    → serve host req garbage id b ≡ stop blocked
unfolding serve
self_transfer-blocked host req garbage id b op same lt active free = ground (
  arith,
  self_acquire req id
      (record b { log = request id req ∷ b.log; active_threads = b.active_threads + 1 }) op same lt
      active free,
)

outside_acquire :
    (req : Request) (id : ℕ) (b : Bank)
    → max_bank_accounts ≤ req.header.account_id
    → acquire req id b ≡ stop out_of_bounds
unfolding acquire
outside_acquire req id b ge = ground arith

-- A request in the name of an account number past the end of the array reads outside of it: the
-- server does not look at the number first.
pub outside_request-out_of_bounds :
    (host : Host) (req : Request) (garbage : Reply) (id : ℕ) (b : Bank)
    → max_bank_accounts ≤ req.header.account_id
    → serve host req garbage id b ≡ stop out_of_bounds
unfolding serve
outside_request-out_of_bounds host req garbage id b ge = ground (
  arith,
  outside_acquire req id
      (record b { log = request id req ∷ b.log; active_threads = b.active_threads + 1 }) ge,
)
