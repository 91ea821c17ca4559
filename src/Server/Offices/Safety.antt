-- ===== src/Server/Offices/Safety.antt =====
-- What holds in every reachable state of the threads of server.c.
use feup_sope.Base.{ℕ, ◌<◌, ◌≡◌, ◌≢◌, refl, true, some, List, [], ◌∷◌, ◌++◌, arith, total-ge}
use feup_sope.Bank.Types.{Request}
use feup_sope.Bank.State.{Host, Bank}
use feup_sope.Queue.{ListQueue, list_queue_pop, list_queue_front}
use feup_sope.Queue.Refinement.{Represents, pop-Represents, front-Represents}
use feup_sope.Server.Offices.{
  Shared, OfficePc, serving, OfficeMove, handle, finish, enter, leave, wake, close, go_on, MainPc,
  pushing, MainMove, test, end_loop, read_request, read_nothing, push, post, let_exit, all_posted,
  join, exit, System, Step, by_main, by_office, Reach,
}
use feup_sope.Server.Offices.Invariant.{Inv, ready, busy}
use feup_sope.Server.Offices.Invariant.Runs.{Reach-Inv}

-- What a move keeps once `close_thread` is set.
abbrev StaysClosed : Shared → Shared → Type 0
StaysClosed m m' = (m'.close_thread ≡ true) × (m'.taken ≡ m.taken)

office_closed :
    {host : Host} {id : ℕ} {m m' : Shared} {p p' : OfficePc}
    → OfficeMove host id m p m' p'
    → m.close_thread ≡ true
    → busy p ≡ 0
    → StaysClosed m m'
office_closed (enter opened) c idle = cc
office_closed (leave closed) c idle = (c, refl)
office_closed (wake up) c idle = (c, refl)
office_closed (close closed) c idle = (c, refl)
office_closed (go_on opened) c idle = cc
office_closed (OfficeMove.lock free) c idle = absurd (omega arith)
office_closed (handle req garbage r q b front popped served) c idle = absurd (omega arith)
office_closed (finish {req} {r}) c idle = ground arith

main_closed :
    {n : ℕ} {pc : ℕ → OfficePc} {m m' : Shared} {p p' : MainPc}
    → MainMove n pc m p m' p'
    → m.close_thread ≡ true
    → StaysClosed m m'
main_closed (test opened) c = cc
main_closed (end_loop closed) c = (c, refl)
main_closed (read_request req) c = (c, refl)
main_closed read_nothing c = (c, refl)
main_closed (MainMove.lock free) c = (c, refl)
main_closed (push q added) c = (c, refl)
main_closed post c = (c, refl)
main_closed let_exit c = (c, refl)
main_closed all_posted c = (c, refl)
main_closed (join lt over) c = (c, refl)
main_closed (exit past) c = (c, refl)

module _ {host : Host} {n : ℕ} {b : Bank} {s : System} (r : Reach host n b s) where
  -- Two threads never have the mutex: no two offices serve, and none serves while the main thread
  -- is about to push.
  pub mutual_exclusion :
      (i : ℕ)
      → s.office i ≡ serving
      → ((j : ℕ) → s.office j ≡ serving → i ≡ j) × ((req : Request) → s.main ≢ pushing req)
  mutual_exclusion i e =
      let (xs, inv) = Reach-Inv r in
      (
        λ j h. ground (arith, inv.held i e, inv.held j h),
        λ req h. ground (arith, inv.held i e, inv.main_held req h),
      )

  -- An office that is about to read the front of the queue finds a request there, and pops it
  -- without following a bad pointer.
  pub front_finds_request :
      (i : ℕ)
      → i < n
      → s.office i ≡ serving
      → (req : Request) × (q : ListQueue Request) × (list_queue_front s.shared.requests ≡ some req)
        × (list_queue_pop s.shared.requests ≡ some q)
  front_finds_request i lt e = let (xs, inv) = Reach-Inv r in found xs inv
    where
      found :
          (xs : List Request)
          → Inv n s.shared s.main s.office xs
          → (req : Request) × (q : ListQueue Request) × (list_queue_front s.shared.requests
              ≡ some req)
            × (list_queue_pop s.shared.requests ≡ some q)
      found [] inv = absurd (
          ground (
            arith,
            inv.posted,
            inv.idle,
            total-ge ready n s.office i lt,
            total-ge busy n s.office i lt,
          ))
      found (x ∷ xs) inv =
          let (q, popped, rest) = pop-Represents s.shared.requests x xs inv.content in
          (x, q, front-Represents s.shared.requests (x ∷ xs) inv.content, popped)

  -- The offices take the requests in the order in which the main thread pushed them, and what has
  -- been pushed and not taken is in the queue.
  pub first_in_first_out :
      (xs : List Request) × Represents s.shared.requests xs
      × (s.shared.pushed ≡ s.shared.taken ++ xs)
  first_in_first_out = let (xs, inv) = Reach-Inv r in (xs, inv.content, inv.fifo)

  -- Once `close_thread` is set it stays set, and no request is taken any more.
  pub closed_takes_nothing :
      {t : System}
      → s.shared.close_thread ≡ true
      → Step host n s t
      → (t.shared.close_thread ≡ true) × (t.shared.taken ≡ s.shared.taken)
  closed_takes_nothing closed (by_main mv) = main_closed mv closed
  closed_takes_nothing closed (by_office i lt mv) =
      let (xs, inv) = Reach-Inv r in
      office_closed mv closed (omega (arith, inv.idle closed, total-ge busy n s.office i lt))
