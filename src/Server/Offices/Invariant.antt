-- ===== src/Server/Offices/Invariant.antt =====
-- What holds of the threads of server.c in every reachable state, and each step keeps it.
pub mod OfficeMoves
pub mod MainMoves
pub mod Runs
use feup_sope.Base.{
  ℕ, suc, ◌+◌, ◌≤◌, ◌<◌, ◌≡◌, ◌≢◌, refl, sym, ap, ◌∙◌, true, false, none, some, List, [], ◌∷◌, ◌++◌,
  arith, length, length-append, update, total, total-update, total_mono, total-eq_zero,
}
use mathlib.Core.List.{append_assoc}
use feup_sope.Bank.Types.{
  Request, Reply, sync_mech, mutex_lock, role_consumer, admin_account_id, main_thread_id,
}
use feup_sope.Bank.State.{Host, Bank}
use feup_sope.Queue.{ListQueue, list_queue_push, list_queue_pop, list_queue_front}
use feup_sope.Queue.Refinement.{
  Represents, init-Represents, push-Represents, pop-Represents, front-Represents, size-Represents,
}
use feup_sope.Server.Offices.{
  Shared, OfficePc, at_loop, waiting, woken, locking, serving, answered, returned, OfficeMove,
  enter, leave, wake, close, go_on, handle, finish, MainPc, polling, reading, got, pushing, posting,
  closing, joining, done, poll, MainMove, test, end_loop, read_request, read_nothing, push, post,
  let_exit, all_posted, join, exit, System, Step, by_main, by_office, start, Reach, here, next,
  logged, settled, less_active,
}

-- An office that has been woken for a request and has not taken it yet.
abbrev pub ready : OfficePc → ℕ
ready woken = 1
ready locking = 1
ready serving = 1
ready _ = 0

-- An office that is past the test of `close_thread`.
abbrev pub busy : OfficePc → ℕ
busy locking = 1
busy serving = 1
busy _ = 0

-- The main thread has pushed a request, and has not posted it yet.
abbrev pub unposted : MainPc → ℕ
unposted (posting _) = 1
unposted _ = 0

pub busy-le-ready : (p : OfficePc) → busy p ≤ ready p
busy-le-ready p = ground arith

-- `xs` are the requests in the queue.
pub record Inv (n : ℕ) (m : Shared) (main : MainPc) (pc : ℕ → OfficePc) (xs : List Request)
    : Type 0 where
  pub content : Represents m.requests xs
  pub fifo : m.pushed ≡ m.taken ++ xs
  pub posted : m.close_thread ≡ false → m.main_sem + total ready n pc + unposted main ≡ length xs
  pub idle : m.close_thread ≡ true → total busy n pc ≡ 0
  pub held : (i : ℕ) → pc i ≡ serving → m.mutex ≡ some (i + 1)
  pub main_held : (req : Request) → main ≡ pushing req → m.mutex ≡ some 0
  pub ending : (k : ℕ) → main ≡ closing k → m.close_thread ≡ true

-- A count over the offices after office `i` has moved from `p` to `p'`.
pub count_moved :
    (w : OfficePc → ℕ) (n : ℕ) (pc : ℕ → OfficePc) (i : ℕ) (p p' : OfficePc)
    → i < n
    → pc i ≡ p
    → total w n (update pc i p') + w p ≡ total w n pc + w p'
count_moved w n pc i p p' lt e = rw (← e) (omega (arith, total-update w n pc i p' lt))

pub some-injective : {A : Type 0} {x y : A} → some x ≡ some y → x ≡ y
some-injective e = cc
