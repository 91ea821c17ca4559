-- ===== src/Client/Runs.antt =====
-- What a run of the client logs and sends, and the bounds of the request that it sends.
use feup_sope.Base.{
  zero, ℕ, ◌^◌, ◌≤◌, ◌<◌, ◌≡◌, refl, arith, ◌⊎◌, inl, inr, false, Option, none, some, List, [], ◌∷◌,
  length, suc, get_elem?, ap, ◌↔◌, true,
}
use feup_sope.Base.Word.{ℤ, pos, of_int}
use feup_sope.Base.Format.Decimal.{atoi}
use feup_sope.Bank.Types.{
  op_create_account, rc_srv_down, rc_srv_timeout, Request, Reply, request, reply, max_op_delay_ms,
  max_password_len,
}
use feup_sope.Client.{
  Machine, Arguments, World, Run, built, build_tlv_request, get_string_arguments, write_arguments,
  run_request, wait_reply, finish, own_reply, create_fifo, created,
}

of_int-bound : (z : ℤ) → of_int z < 2 ^ 32
of_int-bound z = ground arith

-- The first reply that is read in time; `i` calls of `read` before gave nothing.
abbrev pub IsFirst : Reply → List (Option Reply) → Type 0
IsFirst r reads =
    (i : ℕ) × (get_elem? reads i ≡ some (some r))
    × ((j : ℕ) → j < i → get_elem? reads j ≡ some none)

-- No call of `read` gave a reply in time.
abbrev pub NoneRead : List (Option Reply) → Type 0
NoneRead reads = (i : ℕ) → i < length reads → get_elem? reads i ≡ some none

wait_reply-IsFirst :
    (reads : List (Option Reply)) (r : Reply) → wait_reply reads ≡ some r → IsFirst r reads
unfolding wait_reply
wait_reply-IsFirst [] r h = absurd cc
wait_reply-IsFirst (none ∷ reads) r h =
    let (i, e, before) = wait_reply-IsFirst reads r h in (suc i, e, earlier i before)
  where
    earlier :
        (i : ℕ)
        → ((j : ℕ) → j < i → get_elem? reads j ≡ some none)
        → (j : ℕ) → j < suc i
        → get_elem? (none ∷ reads) j ≡ some none
    earlier i before zero lt = refl
    earlier i before (suc j) lt = before j (omega (arith, lt))
wait_reply-IsFirst (some x ∷ reads) r h = (0, ap some h, λ j lt. absurd (omega (arith, lt)))

wait_reply-NoneRead : (reads : List (Option Reply)) → wait_reply reads ≡ none → NoneRead reads
unfolding wait_reply
wait_reply-NoneRead [] h i lt = absurd (omega (arith, lt))
wait_reply-NoneRead (none ∷ reads) h zero lt = refl
wait_reply-NoneRead (none ∷ reads) h (suc i) lt = wait_reply-NoneRead reads h i (omega (arith, lt))
wait_reply-NoneRead (some x ∷ reads) h i lt = absurd cc

-- The log and the FIFO of the server after a run for a request: its entry, and that of one reply.
abbrev pub LogsReply : Request → Reply → Run → Type 0
LogsReply req r run = run.log ≡ reply req.header.pid r ∷ request req.header.pid req ∷ []

-- The reply that a client with status 0 logs: the first that was read, or, where none was, one that
-- says RC_SRV_TIMEOUT to the account of the request.
abbrev pub IsAnswer : World → Request → Reply → Type 0
IsAnswer w req r =
    IsFirst r w.reads
    ⊎ (NoneRead w.reads × (r.ret_code ≡ rc_srv_timeout) × (r.account_id ≡ req.header.account_id))

finish-logs :
    (w : World) (garbage : Reply) (req : Request) (o : Option Reply)
    → wait_reply w.reads ≡ o
    → (r : Reply) × LogsReply req r (finish w garbage req) × IsAnswer w req r
finish-logs w garbage req none e = (
  own_reply garbage req rc_srv_timeout,
  ground arith,
  inr (wait_reply-NoneRead w.reads e, refl, refl),
)
finish-logs w garbage req (some r) e = (r, ground arith, inl (wait_reply-IsFirst w.reads r e))

-- Status 0 needs both FIFOs.
success-finish :
    (w : World) (garbage : Reply) (req : Request)
    → (run_request w garbage req).status ≡ some (pos 0)
    → (run_request w garbage req ≡ finish w garbage req)
      × (w.server_fifo_is_open ≡ true)
      × (create_fifo w.mkfifo ≡ created)
      × (w.user_fifo_is_open ≡ true)
unfolding run_request
success-finish w garbage req h = ground arith

finish-sent :
    (w : World) (garbage : Reply) (req : Request)
    → ((finish w garbage req).sent ≡ some req) ↔ (w.server_fifo_takes ≡ true)
finish-sent w garbage req = (λ h. ground arith, λ h. ground arith)

-- A run that ends with status 0 has opened both FIFOs, and has logged its request and then one reply:
-- the first that was read, or one with the account of the request that says RC_SRV_TIMEOUT, where no
-- call of `read` gave one. Its request is sent if and only if the server's FIFO takes it: the status
-- does not tell.
pub run_request-success :
    (w : World) (garbage : Reply) (req : Request)
    → (run_request w garbage req).status ≡ some (pos 0)
    → (((run_request w garbage req).sent ≡ some req) ↔ (w.server_fifo_takes ≡ true))
      × (w.server_fifo_is_open ≡ true)
      × (create_fifo w.mkfifo ≡ created)
      × (w.user_fifo_is_open ≡ true)
      × ((r : Reply) × LogsReply req r (run_request w garbage req) × IsAnswer w req r)
run_request-success w garbage req h =
    let (same, server, made, user) = success-finish w garbage req h in
    rw same (
      finish-sent w garbage req,
      server,
      made,
      user,
      finish-logs w garbage req (wait_reply w.reads) refl,
    )

-- If the FIFO of the server does not open, nothing is sent, and the log has the request and a reply
-- RC_SRV_DOWN to its account.
pub run_request-down :
    (w : World) (garbage : Reply) (req : Request)
    → w.server_fifo_is_open ≡ false
    → ((run_request w garbage req).sent ≡ none)
      × (r : Reply) × LogsReply req r (run_request w garbage req)
      × (r.ret_code ≡ rc_srv_down)
      × (r.account_id ≡ req.header.account_id)
unfolding run_request
run_request-down w garbage req h =
    (ground arith, own_reply garbage req rc_srv_down, ground arith, refl, refl)

-- What build_tlv_request makes fits the records.
abbrev pub IsBounded : Request → Type 0
IsBounded req =
    (req.header.op_delay_ms ≤ max_op_delay_ms)
    × (req.header.account_id < 2 ^ 32)
    × (length req.header.password ≤ max_password_len)
    × (req.op ≡ op_create_account → length req.args.password ≤ max_password_len)

pub build_tlv_request-IsBounded :
    (c : Machine) (argv : Arguments) (req : Request)
    → build_tlv_request c argv ≡ built req
    → IsBounded req
unfolding build_tlv_request get_string_arguments write_arguments
build_tlv_request-IsBounded c argv req h = ground (arith, of_int-bound (atoi argv.account_id))
