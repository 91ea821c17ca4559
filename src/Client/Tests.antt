-- ===== src/Client/Tests.antt =====
-- Runs of the client at concrete commands, and the theorems about it there.
use feup_sope.Base.{◌+◌, ◌≡◌, refl, arith, true, false, none, some, [], ◌∷◌, ◌↔◌}
use feup_sope.Base.Text.{codes, tokens}
use feup_sope.Bank.Types.{ReqArgs, Request, Reply, op_create_account, rc_ok}
use feup_sope.Client.{
  Machine, Arguments, World, built, overflow, made, exists, build_tlv_request, run_request,
  create_fifo, created,
}
use feup_sope.Client.RoundTrip.{command, build_tlv_request-command}
use feup_sope.Base.Word.{pos}
use feup_sope.Client.Cleanup.{exit_handler}
use feup_sope.Client.Runs.{LogsReply, IsAnswer, run_request-success, IsAnswer}
use feup_sope.Base.Format.Decimal.{atoi}

abbrev test_machine : Machine
test_machine = record {
  pid = 321;
  malloc_room = λ n. n + 24;
  uninitialized = record { account_id = 7; amount = 7; password = [] };
}

abbrev test_args : ReqArgs
test_args = record { account_id = 2; amount = 300; password = codes "new-password" }

abbrev test_command : Arguments
test_command = command 1 (codes "password1") 20 op_create_account test_args

abbrev test_request : Request
test_request = record {
  op = op_create_account;
  length = 62;
  header = record { pid = 321; account_id = 1; password = codes "password1"; op_delay_ms = 20 };
  args = test_args;
}

abbrev test_reply : Reply
test_reply = record {
  op = op_create_account;
  length = 8;
  account_id = 1;
  ret_code = rc_ok;
  payload = 0;
}

abbrev test_world : World
test_world = record {
  server_fifo_is_open = true;
  server_fifo_takes = false;
  mkfifo = exists true ∷ made ∷ [];
  user_fifo_is_open = true;
  reads = none ∷ some test_reply ∷ [];
}

-- The password of a new account is not tested: one of 21 bytes is written past its field.
long_password :
    build_tlv_request test_machine (record {
      account_id = codes "0";
      password = codes "password1";
      delay_ms = codes "20";
      operation = codes "0";
      list = codes "2 300 abcdefghijklmnopqrstu";
    })
    ≡ overflow
unfolding build_tlv_request atoi tokens
long_password = refl

build_tlv_request-command_example : build_tlv_request test_machine test_command ≡ built test_request
build_tlv_request-command_example =
    build_tlv_request-command test_machine op_create_account 1 20 (codes "password1") test_args
      (omega arith, refl) (omega arith) (omega arith) (omega arith) (omega arith) (omega arith)
      (refl, ground arith) (omega arith) (omega arith)

-- The FIFO of the server was full.
run_request-success_example :
    (((run_request test_world test_reply test_request).sent ≡ some test_request)
      ↔ (test_world.server_fifo_takes ≡ true))
    × (test_world.server_fifo_is_open ≡ true)
    × (create_fifo test_world.mkfifo ≡ created)
    × (test_world.user_fifo_is_open ≡ true)
    × ((r : Reply) × LogsReply test_request r (run_request test_world test_reply test_request)
        × IsAnswer test_world test_request r)
unfolding run_request
run_request-success_example = run_request-success test_world test_reply test_request refl

-- A file that unlink does not remove.
test_stuck :
    exit_handler true false (record { status = some (pos 0); fifo = true })
    ≡ record { status = some (pos 1); fifo = true }
unfolding exit_handler
test_stuck = refl
