-- ===== src/Server/Offices/Invariant/MainMoves.antt =====
-- Each move of the main thread keeps the invariant of the threads of server.c.
use feup_sope.Base.{
  ℕ, suc, ◌+◌, ◌≡◌, ◌≢◌, refl, sym, ap, ◌∙◌, true, false, none, some, List, [], ◌∷◌, ◌++◌, arith,
  length-append, total_mono,
}
use mathlib.Core.List.{append_assoc}
use feup_sope.Bank.Types.{
  Request, sync_mech, mutex_lock, role_consumer, admin_account_id, main_thread_id,
}
use feup_sope.Queue.{ListQueue, list_queue_push}
use feup_sope.Queue.Refinement.{push-Represents, size-Represents}
use feup_sope.Server.Offices.{
  Shared, OfficePc, MainPc, polling, reading, got, pushing, posting, closing, joining, done, poll,
  MainMove, test, end_loop, read_request, read_nothing, push, post, let_exit, all_posted, join,
  exit, logged,
}
use feup_sope.Server.Offices.Invariant.{ready, busy, unposted, busy-le-ready, Inv, some-injective}

-- A move of the main thread that leaves the queue and `close_thread` alone.
main_quiet :
    {n : ℕ} {m : Shared} {main : MainPc} {pc : ℕ → OfficePc} {xs : List Request}
    → Inv n m main pc xs
    → (main' : MainPc) (m' : Shared) → m'.requests ≡ m.requests
    → m'.pushed ≡ m.pushed
    → m'.taken ≡ m.taken
    → m'.close_thread ≡ m.close_thread
    → m'.mutex ≡ m.mutex
    → ((req : Request) → main' ≢ pushing req)
    → ((k : ℕ) → main' ≡ closing k → m.close_thread ≡ true)
    → (m.close_thread ≡ false → m'.main_sem + unposted main' ≡ m.main_sem + unposted main)
    → Inv n m' main' pc xs
main_quiet inv main' m' requests pushed taken closed mutex np end sem = record {
  content = rw requests inv.content;
  fifo = rw (pushed, taken) inv.fifo;
  posted = λ h. ground (arith, closed, inv.posted (sym closed ∙ h), sem (sym closed ∙ h));
  idle = λ h. inv.idle (sym closed ∙ h);
  held = λ j h. mutex ∙ inv.held j h;
  main_held = λ req h. absurd (np req h);
  ending = λ k h. closed ∙ end k h;
}

-- The poll sets `close_thread` only while the queue is empty, so no office is past its test.
poll_move :
    {n : ℕ} {m : Shared} {pc : ℕ → OfficePc} {xs : List Request}
    → Inv n m polling pc xs
    → m.close_thread ≡ false
    → Inv n (poll m) reading pc xs
poll_move {n} {m} {pc} {xs} inv opened = record {
  content = ground (arith, inv.content);
  fifo = ground (arith, inv.fifo);
  posted = λ h. ground (arith, inv.posted opened);
  idle = λ h. ground (
    arith,
    inv.posted opened,
    size-Represents m.requests xs inv.content,
    total_mono busy ready busy-le-ready n pc,
  );
  held = λ j h. ground (arith, inv.held j h);
  main_held = λ req h. cc;
  ending = λ k h. cc;
}

main_lock :
    {n : ℕ} {m : Shared} {pc : ℕ → OfficePc} {xs : List Request} {req : Request}
    → Inv n m (got req) pc xs
    → m.mutex ≡ none
    → (m' : Shared)
    → m'
      ≡ logged
          (sync_mech main_thread_id mutex_lock role_consumer admin_account_id)
          (record m { mutex = some main_thread_id })
    → Inv n m' (pushing req) pc xs
main_lock inv free m' same = record {
  content = rw same inv.content;
  fifo = rw same inv.fifo;
  posted = λ h. ground (arith, inv.posted);
  idle = λ h. ground (arith, inv.idle);
  held = λ j h. absurd (ground (arith, inv.held j h));
  main_held = λ req h. ground arith;
  ending = λ k h. cc;
}

main_push :
    {n : ℕ} {m : Shared} {pc : ℕ → OfficePc} {xs : List Request} {req : Request}
    → Inv n m (pushing req) pc xs
    → (q : ListQueue Request) (m' : Shared) → list_queue_push m.requests req ≡ some q
    → m'.requests ≡ q
    → m'.pushed ≡ m.pushed ++ (req ∷ [])
    → m'.taken ≡ m.taken
    → m'.main_sem ≡ m.main_sem
    → m'.close_thread ≡ m.close_thread
    → Inv n m' (posting req) pc (xs ++ (req ∷ []))
main_push {m} {xs} {req} inv q m' done_push requests pushed taken sem closed =
    let (q', pushed', rest) = push-Represents m.requests xs req inv.content in
    let same : q' ≡ q = some-injective (sym pushed' ∙ done_push) in
    record {
      content = rw (requests, ← same) rest;
      fifo =
          pushed
          ∙ ap (λ t. t ++ (req ∷ [])) inv.fifo
          ∙ append_assoc m.taken xs (req ∷ [])
          ∙ sym (ap (λ t. t ++ (xs ++ (req ∷ []))) taken);
      posted = λ h. ground (arith, inv.posted (sym closed ∙ h), length-append xs (req ∷ []));
      idle = λ h. inv.idle (sym closed ∙ h);
      held = λ j h. absurd (ground (arith, inv.held j h, inv.main_held req refl));
      main_held = λ req' h. cc;
      ending = λ k h. cc;
    }

-- A move of the main thread keeps the invariant, for what is then in the queue.
pub MainMove-Inv :
    {n : ℕ} {m : Shared} {pc : ℕ → OfficePc} {xs : List Request} {m' : Shared} {p p' : MainPc}
    → Inv n m p pc xs
    → MainMove n pc m p m' p'
    → (ys : List Request) × Inv n m' p' pc ys
MainMove-Inv {xs} inv (test opened) = (xs, poll_move inv opened)
MainMove-Inv {n} {xs} inv (end_loop closed) = (
  xs,
  main_quiet inv (closing n) _ refl refl refl refl refl (λ r h. cc) (λ k h. closed) (λ h. cc),
)
MainMove-Inv {xs} inv (read_request req) =
    (xs, main_quiet inv (got req) _ refl refl refl refl refl (λ r h. cc) (λ k h. cc) (λ h. refl))
MainMove-Inv {xs} inv read_nothing =
    (xs, main_quiet inv polling _ refl refl refl refl refl (λ r h. cc) (λ k h. cc) (λ h. refl))
MainMove-Inv {xs} inv (MainMove.lock free) = (xs, main_lock inv free _ refl)
MainMove-Inv {xs} inv (push {req} q pushed) =
    (xs ++ (req ∷ []), main_push inv q _ pushed refl refl refl refl refl)
MainMove-Inv {xs} inv (post {req}) = (
  xs,
  main_quiet inv polling _ refl refl refl refl refl (λ r h. cc) (λ k h. cc) (λ h. omega arith),
)
MainMove-Inv {m} {xs} inv (let_exit {k}) =
    let closed : m.close_thread ≡ true = inv.ending (suc k) refl in
    (
      xs,
      main_quiet inv (closing k) _ refl refl refl refl refl (λ r h. cc) (λ k' h. closed) (λ h. cc),
    )
MainMove-Inv {xs} inv all_posted =
    (xs, main_quiet inv (joining 0) _ refl refl refl refl refl (λ r h. cc) (λ k h. cc) (λ h. refl))
MainMove-Inv {xs} inv (join {i} lt over) = (
  xs,
  main_quiet inv (joining (i + 1)) _ refl refl refl refl refl (λ r h. cc) (λ k h. cc) (λ h. refl),
)
MainMove-Inv {xs} inv (exit past) =
    (xs, main_quiet inv done _ refl refl refl refl refl (λ r h. cc) (λ k h. cc) (λ h. refl))
