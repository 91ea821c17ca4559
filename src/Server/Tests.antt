-- ===== src/Server/Tests.antt =====
-- The theorems about the server at concrete requests and at a schedule of its threads.
use feup_sope.Base.{ℕ, ◌≡◌, refl, true, false, some, List, [], ◌∷◌, ◌++◌, arith, ◌≢◌}
use feup_sope.Base.Text.{codes, tokens, strcmp_eq}
use feup_sope.Bank.Types.{op_transfer, Request, op_shutdown}
use feup_sope.Bank.State.{Host, Ensures}
use feup_sope.Bank.Reply.{build_tlv_reply, dispatch}
use feup_sope.Bank.Tests.{test_host, test_bank, test_bank-IsValid, test_request, test_reply}
use feup_sope.Queue.{ListQueue, list_queue_push, list_queue_pop, list_queue_front, list_queue_init}
use feup_sope.Queue.Refinement.{Represents}
use feup_sope.Queue.Runs.{push, pop, run, run-refines_list}
use feup_sope.Server.Serve.{serve, acquire, release, send_reply, get_user_fifo_path}
use feup_sope.Server.Serve.Semaphores.{IsFree, serve-IsFree}
use feup_sope.Server.Offices.Deadlock.{Steps, stay, step}
use feup_sope.Server.Offices.{
  System, Reach, here, next, by_main, by_office, MainMove, OfficeMove, serving, MainPc,
}
use feup_sope.Server.Offices.Safety.{mutual_exclusion, front_finds_request, first_in_first_out}
use feup_sope.Bank.Accounts.{validate_bank_account, check_password}
use feup_sope.Bank.Password.{generate_sha256_hash, sha256sum_command}

abbrev transfer : ℕ → ℕ → Request
transfer source target = test_request op_transfer source (codes "bbbbbbbb") target 5

test_bank-IsFree : IsFree test_bank
test_bank-IsFree i = ground arith

-- A shell whose `shasum` prints one line for everything.
abbrev constant_host : Host
constant_host = record {
  rand = λ n. n;
  pipe = λ command. some (codes "b  -");
  fifo_is_open = λ n path. false;
}

serve-IsFree_example :
    Ensures (λ _ b'. IsFree b') (serve test_host (transfer 1 2) test_reply 1 test_bank)
serve-IsFree_example =
    serve-IsFree test_host (transfer 1 2) test_reply 1 test_bank test_bank-IsValid test_bank-IsFree

run-refines_list_example :
    (q : ListQueue ℕ) × (run (push 4 ∷ push 5 ∷ pop ∷ []) list_queue_init ≡ some q)
    × Represents q (5 ∷ [])
    × (list_queue_front q ≡ some 5)
run-refines_list_example = run-refines_list (push 4 ∷ push 5 ∷ pop ∷ [])

-- One request, read and posted by the main thread; office 1 is woken for it and takes the mutex.
-- Behind that, the main thread tests its loop and office 2 begins its own.
serving_with :
    (req : Request)
    → (s : System) × Reach test_host 2 test_bank s
      × (s.office 0 ≡ serving)
      × (s.shared.close_thread ≡ false)
      × (list_queue_front s.shared.requests ≡ some req)
      × (s.shared.bank.accounts ≡ test_bank.accounts)
      × ((t : System) × Steps test_host 2 s t)
unfolding list_queue_push list_queue_init list_queue_front
serving_with req = (
  _,
  next
      (next
        (next
          (next
            (next
              (next
                (next
                  (next (next here (by_main (MainMove.test refl)))
                    (by_main (MainMove.read_request req)))
                  (by_main (MainMove.lock refl)))
                (by_main (MainMove.push _ refl)))
              (by_main MainMove.post))
            (by_office 0 (omega arith) (OfficeMove.enter refl)))
          (by_office 0 (omega arith) (OfficeMove.wake (omega arith))))
        (by_office 0 (omega arith) (OfficeMove.go_on refl)))
      (by_office 0 (omega arith) (OfficeMove.lock refl)),
  refl,
  refl,
  refl,
  refl,
  (
    _,
    step (step stay (by_main (MainMove.test refl)))
        (by_office 1 (omega arith) (OfficeMove.enter refl)),
  ),
)

serving_reached :
    (s : System) × Reach test_host 2 test_bank s
    × (s.office 0 ≡ serving)
    × (s.shared.close_thread ≡ false)
serving_reached =
    let (s, r, e, opened, front, accounts, run) = serving_with (transfer 1 2) in (s, r, e, opened)

mutual_exclusion_example :
    ((j : ℕ) → serving_reached.0.office j ≡ serving → 0 ≡ j)
    × ((req : Request) → serving_reached.0.main ≢ MainPc.pushing req)
mutual_exclusion_example = mutual_exclusion serving_reached.1 0 serving_reached.2

front_finds_request_example :
    (req : Request) × (q : ListQueue Request) × (list_queue_front serving_reached.0.shared.requests
      ≡ some req)
    × (list_queue_pop serving_reached.0.shared.requests ≡ some q)
front_finds_request_example =
    front_finds_request serving_reached.1 0 (omega arith) serving_reached.2

first_in_first_out_example :
    (xs : List Request) × Represents serving_reached.0.shared.requests xs
    × (serving_reached.0.shared.pushed ≡ serving_reached.0.shared.taken ++ xs)
first_in_first_out_example = first_in_first_out serving_reached.1

abbrev admin_shutdown : Request
admin_shutdown = test_request op_shutdown 0 (codes "aaaaaaaa") 0 0

-- The administrator has shut the server down, and the main thread has seen it.
closed_reached :
    (s : System) × Reach test_host 2 test_bank s
    × (s.main ≡ MainPc.reading)
    × (s.shared.close_thread ≡ true)
unfolding list_queue_push list_queue_init list_queue_pop list_queue_front serve acquire release
    send_reply get_user_fifo_path build_tlv_reply dispatch validate_bank_account check_password
    generate_sha256_hash sha256sum_command tokens strcmp_eq
closed_reached = (
  _,
  next
      (next
        (next
          (next
            (next
              (next
                (next
                  (next
                    (next
                      (next
                        (next (next here (by_main (MainMove.test refl)))
                          (by_main (MainMove.read_request admin_shutdown)))
                        (by_main (MainMove.lock refl)))
                      (by_main (MainMove.push _ refl)))
                    (by_main MainMove.post))
                  (by_office 0 (omega arith) (OfficeMove.enter refl)))
                (by_office 0 (omega arith) (OfficeMove.wake (omega arith))))
              (by_office 0 (omega arith) (OfficeMove.go_on refl)))
            (by_office 0 (omega arith) (OfficeMove.lock refl)))
          (by_office 0 (omega arith)
            (OfficeMove.handle admin_shutdown test_reply _ _ _ refl refl refl)))
        (by_office 0 (omega arith) OfficeMove.finish))
      (by_main (MainMove.test refl)),
  refl,
  refl,
)
