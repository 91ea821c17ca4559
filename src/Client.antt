-- ===== src/Client.antt =====
-- The client, Project2/source/user.c, with build_tlv_request of banking_aux.c and the functions of
-- general_aux.c that it calls.
pub mod RoundTrip
pub mod Runs
pub mod Cleanup
mod Tests
use feup_sope.Base.{
  ℕ, ◌*◌, ◌≡◌, Bool, true, false, Option, none, some, List, [], ◌∷◌, length, ltb, leb,
  if◌then◌else◌, ◌==◌,
}
use feup_sope.Base.Text.{Bytes, tokens}
use feup_sope.Base.Word.{ℤ, pos, negsuc, of_int}
use feup_sope.Base.Format.Decimal.{atoi}
use feup_sope.Bank.Types.{
  OpType, op_create_account, op_balance, op_transfer, op_shutdown, op_other, RetCode, rc_srv_down,
  rc_srv_timeout, ReqArgs, ReqHeader, Request, Reply, LogCall, request, reply, max_op_delay_ms,
  max_password_len, sizeof_req_value, sizeof_pointer,
}
use feup_sope.Bank.Password.{is_valid_password}

-- argv[1] to argv[5]
pub record Arguments : Type 0 where
  pub account_id : Bytes
  pub password : Bytes
  pub delay_ms : Bytes
  pub operation : Bytes
  pub list : Bytes

-- What the client is given. `malloc_room n` is how many bytes there are where malloc(n) points, and
-- `uninitialized` what the union of a request holds before anything is written to it.
pub record Machine : Type 0 where
  pub pid : ℕ
  pub malloc_room : ℕ → ℕ
  pub uninitialized : ReqArgs

-- An `int` that is converted to `enum op_type`, and a `uint32_t`.
abbrev pub op_of : ℕ → OpType
op_of n =
    if n == 0
    then op_create_account
    else if n == 1
    then op_balance
    else if n == 2
    then op_transfer
    else if n == 3
    then op_shutdown
    else op_other n

-- The request, `return false`, or a write outside of an object.
pub data Built : Type 0 where
  built : Request → Built
  refused : Built
  overflow : Built

-- `args`, after `get_string_arguments` has written a pointer for each word; `none` if they are more
-- than there is room for.
unfoldable pub get_string_arguments : Machine → Bytes → Option (List Bytes)
get_string_arguments c arguments =
    let args = tokens b' ' arguments in
    if leb (sizeof_pointer * length args) (c.malloc_room (length arguments))
    then some args
    else none

-- The switch of `build_tlv_request`: the arguments in the request, `none` for `return false`.
unfoldable pub write_arguments : OpType → List Bytes → ReqArgs → Option ReqArgs
write_arguments op_create_account (a ∷ b ∷ p ∷ rest) old =
    some (record { account_id = of_int (atoi a); amount = of_int (atoi b); password = p })
write_arguments op_create_account _ old = none
write_arguments op_transfer (a ∷ b ∷ rest) old =
    some (record old { account_id = of_int (atoi a); amount = of_int (atoi b) })
write_arguments op_transfer _ old = none
write_arguments _ _ old = some old

-- The password of a new account is copied whole, to a field of MAX_PASSWORD_LEN + 1 bytes.
abbrev pub fits : OpType → ReqArgs → Bool
fits op_create_account a = leb (length a.password) max_password_len
fits _ a = true

abbrev pub header_of : Machine → Arguments → ReqHeader
header_of c argv = record {
  pid = c.pid;
  account_id = of_int (atoi argv.account_id);
  password = argv.password;
  op_delay_ms = of_int (atoi argv.delay_ms);
}

abbrev pub with_arguments : Machine → Arguments → OpType → ReqArgs → Built
with_arguments c argv op a =
    if fits op a
    then built (record { op = op; length = sizeof_req_value; header = header_of c argv; args = a })
    else overflow

unfoldable pub build_tlv_request : Machine → Arguments → Built
unfolding get_string_arguments write_arguments
build_tlv_request c argv =
    let op = op_of (of_int (atoi argv.operation)) in
    if ltb max_password_len (length argv.password)
    then overflow
    else if ltb max_op_delay_ms (of_int (atoi argv.delay_ms))
    then refused
    else elim (get_string_arguments c argv.list) [
      | none ↦ overflow
      | some args ↦ elim (write_arguments op args c.uninitialized) [
        | none ↦ refused
        | some a ↦ with_arguments c argv op a
      ]
    ]

-- What `mkfifo` answers, with what `unlink` answers if that is EEXIST.
pub data Mkfifo : Type 0 where
  made : Mkfifo
  exists : Bool → Mkfifo
  failed : Mkfifo

pub data FifoEnd : Type 0 where
  created : FifoEnd
  fifo_failure : FifoEnd
  retrying : FifoEnd

-- `create_fifo`, for the answers of its calls so far: it calls itself after it has removed the file.
unfoldable pub create_fifo : List Mkfifo → FifoEnd
create_fifo [] = retrying
create_fifo (made ∷ calls) = created
create_fifo (exists true ∷ calls) = create_fifo calls
create_fifo (exists false ∷ calls) = fifo_failure
create_fifo (failed ∷ calls) = fifo_failure

-- What the client meets: whether the FIFO of the server opens, and whether the `write` to it takes the
-- request, which the FIFO refuses while it is full; the calls of mkfifo for its own FIFO, whether that
-- opens, and what each `read` gives until the time is over.
pub record World : Type 0 where
  pub server_fifo_is_open : Bool
  pub server_fifo_takes : Bool
  pub mkfifo : List Mkfifo
  pub user_fifo_is_open : Bool
  pub reads : List (Option Reply)

-- How `main` ended: its exit status, the calls of the log, latest first, what the FIFO of the server
-- has taken from it, and whether `user_fifo_path` has been set. `status` is `none` while it has not
-- ended.
pub record Run : Type 0 where
  pub status : Option ℤ
  pub log : List LogCall
  pub sent : Option Request
  pub path_is_set : Bool

-- The first reply that is read in time.
unfoldable pub wait_reply : List (Option Reply) → Option Reply
wait_reply [] = none
wait_reply (none ∷ reads) = wait_reply reads
wait_reply (some r ∷ reads) = some r

-- `reply`, as `main` has set its fields; the others are not initialized.
abbrev pub own_reply : Reply → Request → RetCode → Reply
own_reply garbage req code = record garbage {
  op = req.op;
  account_id = req.header.account_id;
  ret_code = code;
}

-- The `write` to the server, whose result `main` does not look at.
abbrev pub request_taken : World → Request → Option Request
request_taken w req = if w.server_fifo_takes then some req else none

-- From the wait for the response on.
abbrev pub finish : World → Reply → Request → Run
finish w garbage req = elim (wait_reply w.reads) [
  | some r ↦ record {
    status = some (pos 0);
    log = reply req.header.pid r ∷ request req.header.pid req ∷ [];
    sent = request_taken w req;
    path_is_set = true;
  }
  | none ↦ record {
    status = some (pos 0);
    log =
        reply req.header.pid (own_reply garbage req rc_srv_timeout)
        ∷ request req.header.pid req
        ∷ [];
    sent = request_taken w req;
    path_is_set = true;
  }
]

abbrev pub only_sent : World → Option ℤ → Request → Run
only_sent w status req = record {
  status = status;
  log = request req.header.pid req ∷ [];
  sent = request_taken w req;
  path_is_set = true;
}

-- From the log of the request on.
unfoldable pub run_request : World → Reply → Request → Run
unfolding create_fifo wait_reply
run_request w garbage req = elim w.server_fifo_is_open [
  | false ↦ record {
    status = some (pos 1);
    log =
        reply req.header.pid (own_reply garbage req rc_srv_down) ∷ request req.header.pid req ∷ [];
    sent = none;
    path_is_set = false;
  }
  | true ↦ elim (create_fifo w.mkfifo) [
    | retrying ↦ only_sent w none req
    | fifo_failure ↦ only_sent w (some (pos 1)) req
    | created ↦ if w.user_fifo_is_open then finish w garbage req else only_sent w (some (pos 1)) req
  ]
]

abbrev pub stopped : ℤ → Run
stopped code = record { status = some code; log = []; sent = none; path_is_set = false }

-- `main`; `none` for a write outside of an object. A command with fewer words has no `Arguments`.
unfoldable pub user_main : Machine → World → Reply → Option Arguments → Option Run
unfolding build_tlv_request run_request
user_main c w garbage none = some (stopped (negsuc 0))
user_main c w garbage (some argv) =
    if is_valid_password argv.password
    then elim (build_tlv_request c argv) [
      | built req ↦ some (run_request w garbage req)
      | refused ↦ some (stopped (pos 1))
      | overflow ↦ none
    ]
    else some (stopped (pos 1))
