-- ===== src/Server/Offices/Invariant/OfficeMoves.antt =====
-- Each move of a bank office keeps the invariant of the threads of server.c.
use feup_sope.Base.{
  ℕ, ◌+◌, ◌≤◌, ◌<◌, ◌≡◌, ◌≢◌, refl, sym, ap, ◌∙◌, true, false, none, some, List, [], ◌∷◌, ◌++◌,
  arith, update,
}
use mathlib.Core.List.{append_assoc}
use feup_sope.Bank.Types.{Request, Reply, sync_mech, mutex_lock, role_consumer, admin_account_id}
use feup_sope.Bank.State.{Host}
use feup_sope.Queue.{ListQueue, list_queue_pop, list_queue_front}
use feup_sope.Queue.Refinement.{pop-Represents, front-Represents}
use feup_sope.Server.Offices.{
  Shared, OfficePc, at_loop, waiting, woken, locking, serving, answered, returned, OfficeMove,
  enter, leave, wake, close, go_on, handle, finish, MainPc, logged, settled, less_active,
}
use feup_sope.Server.Offices.Invariant.{ready, busy, Inv, count_moved, some-injective}

module _ {n : ℕ} {m : Shared} {main : MainPc} {pc : ℕ → OfficePc} {xs : List Request}
    (inv : Inv n m main pc xs) (i : ℕ) (lt : i < n) where
  open inv use {content, fifo, posted, idle, held, main_held, ending}

  -- A move that leaves the mutex, the queue and `close_thread` alone.
  quiet_move :
      (m' : Shared) (p p' : OfficePc)
      → pc i ≡ p
      → m'.requests ≡ m.requests
      → m'.pushed ≡ m.pushed
      → m'.taken ≡ m.taken
      → m'.close_thread ≡ m.close_thread
      → m'.mutex ≡ m.mutex
      → p' ≢ serving
      → (m.close_thread ≡ false → m'.main_sem + ready p' ≡ m.main_sem + ready p)
      → (m.close_thread ≡ true → busy p' ≤ busy p)
      → Inv n m' main (update pc i p') xs
  quiet_move m' p p' e requests pushed taken closed mutex ns sem rest = record {
    content = rw requests content;
    fifo = rw (pushed, taken) fifo;
    posted = λ h. ground (
      arith,
      count_moved ready n pc i p p' lt e,
      closed,
      posted (sym closed ∙ h),
      sem (sym closed ∙ h),
    );
    idle = λ h.
        ground
          (arith, count_moved busy n pc i p p' lt e, idle (sym closed ∙ h), rest (sym closed ∙ h));
    held = λ j h. ground (arith, held j);
    main_held = λ req h. mutex ∙ main_held req h;
    ending = λ k h. closed ∙ ending k h;
  }

  lock_move :
      pc i ≡ locking
      → m.mutex ≡ none
      → (m' : Shared)
      → m'
        ≡ logged
            (sync_mech (i + 1) mutex_lock role_consumer admin_account_id)
            (record m { mutex = some (i + 1) })
      → Inv n m' main (update pc i serving) xs
  lock_move e unlocked m' same = record {
    content = rw same content;
    fifo = rw same fifo;
    posted = λ h. ground (arith, count_moved ready n pc i locking serving lt e, posted);
    idle = λ h. ground (arith, count_moved busy n pc i locking serving lt e, idle);
    held = λ j h. ground (arith, held j);
    main_held = λ req h. absurd (ground (arith, main_held req h));
    ending = λ k h. ground (arith, ending k h);
  }

handle_move :
    {n : ℕ} {m : Shared} {main : MainPc} {pc : ℕ → OfficePc} (xs : List Request)
    → Inv n m main pc xs
    → (i : ℕ) → i < n
    → pc i ≡ serving
    → (req : Request) (r : Reply) (q : ListQueue Request) (m' : Shared)
    → list_queue_front m.requests ≡ some req
    → list_queue_pop m.requests ≡ some q
    → m'.requests ≡ q
    → m'.mutex ≡ none
    → m'.pushed ≡ m.pushed
    → m'.taken ≡ m.taken ++ (req ∷ [])
    → m'.main_sem ≡ m.main_sem
    → m'.close_thread ≡ m.close_thread
    → (ys : List Request) × Inv n m' main (update pc i (answered req r)) ys
handle_move {m} [] inv i lt e req r q m' front pop requests mutex pushed taken sem closed =
    let none_there : list_queue_front m.requests ≡ none =
      front-Represents m.requests [] inv.content in
    absurd (ground arith)
handle_move {n} {m} {pc} (x ∷ xs) inv i lt e req r q m' front pop requests mutex pushed taken sem
      closed =
    let (q', popped, rest) = pop-Represents m.requests x xs inv.content in
    let same : q' ≡ q = some-injective (sym popped ∙ pop) in
    let first : x ≡ req =
      some-injective (sym (front-Represents m.requests (x ∷ xs) inv.content) ∙ front) in
    (
      xs,
      record {
        content = rw (requests, ← same) rest;
        fifo =
            pushed
            ∙ inv.fifo
            ∙ ap (λ z. m.taken ++ (z ∷ xs)) first
            ∙ sym (append_assoc m.taken (req ∷ []) xs)
            ∙ sym (ap (λ t. t ++ xs) taken);
        posted = λ h. ground (
          arith,
          count_moved ready n pc i serving (answered req r) lt e,
          inv.posted (sym closed ∙ h),
        );
        idle = λ h. ground (
          arith,
          count_moved busy n pc i serving (answered req r) lt e,
          inv.idle (sym closed ∙ h),
        );
        held = λ j h. absurd (ground (arith, inv.held i e, inv.held j));
        main_held = λ req' h. absurd (ground (arith, inv.held i e, inv.main_held req' h));
        ending = λ k h. closed ∙ inv.ending k h;
      },
    )

-- A move of an office keeps the invariant, for what is then in the queue.
pub OfficeMove-Inv :
    {host : Host} {n : ℕ} {m : Shared} {main : MainPc} {pc : ℕ → OfficePc} {xs : List Request}
    (i : ℕ) {m' : Shared} {p p' : OfficePc}
    → Inv n m main pc xs
    → i < n
    → pc i ≡ p
    → OfficeMove host (i + 1) m p m' p'
    → (ys : List Request) × Inv n m' main (update pc i p') ys
OfficeMove-Inv {m} {xs} i inv lt e (enter opened) = (
  xs,
  quiet_move inv i lt _ at_loop waiting e refl refl refl refl refl (λ h. cc) (λ h. refl)
      (λ h. omega arith),
)
OfficeMove-Inv {m} {xs} i inv lt e (leave closed) = (
  xs,
  quiet_move inv i lt m at_loop returned e refl refl refl refl refl (λ h. cc) (λ h. refl)
      (λ h. omega arith),
)
OfficeMove-Inv {m} {xs} i inv lt e (wake up) = (
  xs,
  quiet_move inv i lt _ waiting woken e refl refl refl refl refl (λ h. cc) (λ h. omega arith)
      (λ h. omega arith),
)
OfficeMove-Inv {m} {xs} i inv lt e (close closed) = (
  xs,
  quiet_move inv i lt m woken returned e refl refl refl refl refl (λ h. cc) (λ h. cc)
      (λ h. omega arith),
)
OfficeMove-Inv {m} {xs} i inv lt e (go_on opened) = (
  xs,
  quiet_move inv i lt m woken locking e refl refl refl refl refl (λ h. cc) (λ h. refl) (λ h. cc),
)
OfficeMove-Inv {xs} i inv lt e (OfficeMove.lock free) = (xs, lock_move inv i lt e free _ refl)
OfficeMove-Inv {xs} i inv lt e (handle req garbage r q b front pop served) =
    handle_move xs inv i lt e req r q _ front pop refl refl refl refl refl refl
OfficeMove-Inv {m} {xs} i inv lt e (finish {req} {r}) = (
  xs,
  quiet_move inv i lt (less_active (settled req r m)) (answered req r) at_loop e (ground arith)
      (ground arith) (ground arith) (ground arith) (ground arith) (λ h. cc) (λ h. ground arith)
      (λ h. omega arith),
)
