-- ===== src/Server/Offices.antt =====
-- The threads of Project2/source/server.c: `read_request`, which every bank office runs, and the
-- part of `main` from its loop on. A step is what one thread does between two points at which
-- another can change what it reads; a whole request is one step, since the mutex is held.
pub mod Invariant
pub mod Safety
pub mod Deadlock
use feup_sope.Base.{
  ℕ, suc, ◌+◌, ◌-◌, ◌≤◌, ◌<◌, ◌≡◌, ◌≢◌, Bool, true, false, ◌&&◌, Option, none, some, List, [], ◌∷◌,
  ◌++◌, update, ◌==◌, if◌then◌else◌,
}
use feup_sope.Bank.Types.{
  Request, Reply, OpType, op_shutdown, RetCode, rc_ok, LogCall, office_open, office_close,
  sync_mech, sync_mech_sem, delay, mutex_lock, mutex_unlock, sem_wait, sem_post, role_consumer,
  role_producer, admin_account_id, main_thread_id,
}
use feup_sope.Bank.State.{Host, Bank, ok}
use feup_sope.Queue.{ListQueue, list_queue_push, list_queue_pop, list_queue_front, list_queue_init}
use feup_sope.Server.Serve.{serve}

-- The variables that the threads share. `pushed` and `taken` are no variables of the program: they
-- record the requests that `push` and `pop` have been called for, in order.
pub record Shared : Type 0 where
  pub bank : Bank
  pub requests : ListQueue Request
  pub main_sem : ℕ
  pub mutex : Option ℕ  -- the thread that holds it
  pub server_exit : Bool
  pub close_thread : Bool
  pub shutdown_delay_ms : ℕ
  pub pushed : List Request
  pub taken : List Request

abbrev pub logged : LogCall → Shared → Shared
logged l m = record m { bank = record (m.bank) { log = l ∷ m.bank.log } }

-- Where a bank office stands in `read_request`.
pub data OfficePc : Type 0 where
  at_loop : OfficePc  -- before `while (!close_thread)`
  waiting : OfficePc  -- in `sem_wait(&main_sem)`
  woken : OfficePc  -- before `if (close_thread) break`
  locking : OfficePc  -- in `pthread_mutex_lock`
  serving : OfficePc  -- before `requests.front`, with the mutex
  answered : Request → Reply → OfficePc  -- behind `unlock_mutex`
  returned : OfficePc

-- `reply.type == OP_SHUTDOWN && reply.value.header.ret_code == RC_OK`
abbrev pub is_shutdown : OpType → RetCode → Bool
is_shutdown op_shutdown rc_ok = true
is_shutdown op_shutdown _ = false
is_shutdown _ _ = false

abbrev pub settled : Request → Reply → Shared → Shared
settled req r m =
    if is_shutdown r.op r.ret_code
    then record m { shutdown_delay_ms = req.header.op_delay_ms; server_exit = true }
    else m

abbrev pub less_active : Shared → Shared
less_active m = record m { bank = record (m.bank) { active_threads = m.bank.active_threads - 1 } }

pub data OfficeMove (host : Host) (id : ℕ) (m : Shared)
    : OfficePc → Shared → OfficePc → Type 0 where
  enter :
      m.close_thread ≡ false
      → OfficeMove host id m at_loop
          (logged (sync_mech_sem id sem_wait role_consumer admin_account_id m.main_sem) m)
          waiting
  leave : m.close_thread ≡ true → OfficeMove host id m at_loop m returned
  wake :
      0 < m.main_sem → OfficeMove host id m waiting (record m { main_sem = m.main_sem - 1 }) woken
  close : m.close_thread ≡ true → OfficeMove host id m woken m returned
  go_on : m.close_thread ≡ false → OfficeMove host id m woken m locking
  lock :
      m.mutex ≡ none
      → OfficeMove host id m locking
          (logged
            (sync_mech id mutex_lock role_consumer admin_account_id)
            (record m { mutex = some id }))
          serving
  handle :
      (req : Request) (garbage r : Reply) (q : ListQueue Request) (b : Bank)
      → list_queue_front m.requests ≡ some req
      → list_queue_pop m.requests ≡ some q
      → serve host req garbage id m.bank ≡ ok (r, b)
      → OfficeMove host id m serving
          (logged
            (sync_mech id mutex_unlock role_consumer req.header.pid)
            (record m { bank = b; requests = q; mutex = none; taken = m.taken ++ (req ∷ []) }))
          (answered req r)
  finish :
      {req : Request} {r : Reply}
      → OfficeMove host id m (answered req r) (less_active (settled req r m)) at_loop

-- Where the main thread stands.
pub data MainPc : Type 0 where
  polling : MainPc  -- before `while (!close_thread)`
  reading : MainPc  -- before `read`
  got : Request → MainPc  -- in `pthread_mutex_lock`
  pushing : Request → MainPc  -- before `requests.push`, with the mutex
  posting : Request → MainPc  -- before `sem_post(&main_sem)`
  closing : ℕ → MainPc  -- so many posts left of the loop that lets the offices exit
  joining : ℕ → MainPc  -- before `pthread_join` of the office with this index
  done : MainPc

-- `if (server_exit && requests.size == 0) close_thread = true;`
abbrev pub poll : Shared → Shared
poll m = if m.server_exit && m.requests.size == 0 then record m { close_thread = true } else m

pub data MainMove (n : ℕ) (office : ℕ → OfficePc) (m : Shared)
    : MainPc → Shared → MainPc → Type 0 where
  test : m.close_thread ≡ false → MainMove n office m polling (poll m) reading
  end_loop :
      m.close_thread ≡ true
      → MainMove n office m polling (logged (delay m.shutdown_delay_ms) m) (closing n)
  -- the FIFO has a request, chosen by the clients, or nothing
  read_request : (req : Request) → MainMove n office m reading m (got req)
  read_nothing : MainMove n office m reading m polling
  lock :
      {req : Request}
      → m.mutex ≡ none
      → MainMove n office m
          (got req)
          (logged
            (sync_mech main_thread_id mutex_lock role_consumer admin_account_id)
            (record m { mutex = some main_thread_id }))
          (pushing req)
  push :
      {req : Request} (q : ListQueue Request)
      → list_queue_push m.requests req ≡ some q
      → MainMove n office m
          (pushing req)
          (logged
            (sync_mech main_thread_id mutex_unlock role_consumer req.header.pid)
            (record m { requests = q; mutex = none; pushed = m.pushed ++ (req ∷ []) }))
          (posting req)
  post :
      {req : Request}
      → MainMove n office m
          (posting req)
          (logged
            (sync_mech_sem main_thread_id sem_post role_producer req.header.pid m.main_sem)
            (record m { main_sem = m.main_sem + 1 }))
          polling
  let_exit :
      {k : ℕ}
      → MainMove n office m
          (closing (suc k))
          (logged
            (sync_mech_sem main_thread_id sem_post role_producer admin_account_id m.main_sem)
            (record m { main_sem = m.main_sem + 1 }))
          (closing k)
  all_posted : MainMove n office m (closing 0) m (joining 0)
  join :
      {i : ℕ}
      → i < n
      → office i ≡ returned
      → MainMove n office m (joining i) (logged (office_close (i + 1)) m) (joining (i + 1))
  exit : {i : ℕ} → n ≤ i → MainMove n office m (joining i) m done

-- `n` offices; the one with index `i` has the identifier `i + 1`.
pub record System : Type 0 where
  pub shared : Shared
  pub main : MainPc
  pub office : ℕ → OfficePc

pub data Step (host : Host) (n : ℕ) (s : System) : System → Type 0 where
  by_main :
      {m : Shared} {p : MainPc}
      → MainMove n s.office s.shared s.main m p
      → Step host n s (record { shared = m; main = p; office = s.office })
  by_office :
      (i : ℕ) {m : Shared} {p : OfficePc}
      → i < n
      → OfficeMove host (i + 1) s.shared (s.office i) m p
      → Step host n s (record { shared = m; main = s.main; office = update s.office i p })

-- The threads as `main` has created them, over a bank that has the administrator's account.
abbrev pub start : Bank → System
start b = record {
  shared = record {
    bank = b;
    requests = list_queue_init;
    main_sem = 0;
    mutex = none;
    server_exit = false;
    close_thread = false;
    shutdown_delay_ms = 0;
    pushed = [];
    taken = [];
  };
  main = polling;
  office = λ _. at_loop;
}

pub data Reach (host : Host) (n : ℕ) (b : Bank) : System → Type 0 where
  here : Reach host n b (start b)
  next : {s t : System} → Reach host n b s → Step host n s t → Reach host n b t
