-- ===== src/Bank/Tests.antt =====
-- Runs of the bank's functions, and the theorems about them at concrete requests.
mod Accounts
use feup_sope.Base.{
  ℕ, ◌-◌, ◌^◌, ◌≡◌, refl, true, none, some, [], ◌∷◌, arith, get_elem?, replicate, ◌==◌,
  if◌then◌else◌,
}
use feup_sope.Base.Text.{Bytes, codes, strcmp_eq, tokens}
use feup_sope.Bank.Types.{
  OpType, op_balance, op_transfer, op_shutdown, op_other, rc_ok, rc_op_nallow, rc_id_not_found,
  Slot, ReqHeader, Request, Reply, empty_slot, salt_len, sizeof_pointer,
}
use feup_sope.Bank.State.{Host, Bank, ok, Ensures}
use feup_sope.Bank.Password.{generate_sha256_hash, sha256sum_command, salt_from}
use feup_sope.Bank.Accounts.{CreateArgs, check_password, validate_bank_account, create_bank_account}
use feup_sope.Bank.Accounts.Login.{HashesTo, after_create, validate-create, create_bank_account_lem}
use feup_sope.Bank.Invariant.{IsValid, build_tlv_reply-IsValid}
use feup_sope.Bank.Reply.{build_tlv_reply}
use feup_sope.Bank.Reply.Frame.{IsUnchanged, build_tlv_reply-keeps}
use feup_sope.Bank.Reply.Transfer.{set_two, after_move, KeepsTotal}
use feup_sope.Bank.Reply.Conservation.{
  IsWithin, IsSound, build_tlv_reply-KeepsTotal, build_tlv_reply-IsSound,
}
use feup_sope.Bank.Reply.Answers.{
  transfer_answer, negative_transfer_answer, balance_answer, shutdown_answer, unknown_op_answer,
}

-- The "hash" of a password is its first byte, which stands at place 9 of the command.
abbrev pub test_host : Host
test_host = record {
  rand = λ n. n;
  pipe = λ command. elim (get_elem? command 9) [ none ↦ none | some c ↦ some (c ∷ codes "  -") ];
  fifo_is_open = λ n path. true;
}

abbrev zeros : Bytes
zeros = replicate salt_len b'0'

abbrev account_slot : ℕ → ℕ → Bytes → Slot
account_slot i balance hash = record {
  bank_account = record { account_id = i; hash = hash; salt = zeros; balance = balance };
  semaphore = 1;
  active = true;
}

-- The administrator, two clients, and no other account.
abbrev pub test_accounts : ℕ → Slot
test_accounts i =
    if i == 0
    then account_slot 0 0 (codes "a")
    else if i == 1
    then account_slot 1 100 (codes "b")
    else if i == 2
    then account_slot 2 50 (codes "c")
    else empty_slot

abbrev pub test_bank : Bank
test_bank = record {
  accounts = test_accounts;
  active_threads = 1;
  rand_calls = 0;
  opens = 0;
  log = [];
  sent = [];
}

abbrev pub test_request : OpType → ℕ → Bytes → ℕ → ℕ → Request
test_request op account password target amount = record {
  op = op;
  length = 62;
  header = record { pid = 7; account_id = account; password = password; op_delay_ms = 0 };
  args = record { account_id = target; amount = amount; password = codes "dddddddd" };
}

abbrev pub test_reply : Reply
test_reply = record { op = op_balance; length = 0; account_id = 0; ret_code = rc_ok; payload = 99 }

abbrev client_transfer : ℕ → Request
client_transfer amount = test_request op_transfer 1 (codes "bbbbbbbb") 2 amount

pub client_login :
    (op : OpType) (target amount : ℕ)
    → validate_bank_account test_host
        (test_request op 1 (codes "bbbbbbbb") target amount).header
        test_bank
      ≡ ok (rc_ok, test_bank)
unfolding validate_bank_account check_password generate_sha256_hash sha256sum_command tokens
    strcmp_eq
client_login op target amount = refl

pub test_bank-IsValid : IsValid test_bank
test_bank-IsValid i = ground arith

test_bank-IsWithin : IsWithin test_bank
test_bank-IsWithin i = ground arith

transfer_answer_example :
    build_tlv_reply test_host (client_transfer 30) test_reply 1 test_bank
    ≡ ok (
      record test_reply {
        op = op_transfer;
        length = sizeof_pointer;
        account_id = 1;
        ret_code = rc_ok;
        payload = 70;
      },
      after_move test_bank 1 2 30,
    )
transfer_answer_example =
    transfer_answer test_host (client_transfer 30) test_reply 1 test_bank
      (client_login op_transfer 2 30) refl (omega arith) (omega arith) (omega arith) (omega arith)
      (omega arith) refl (omega arith) (omega arith) (omega arith)

-- The client 1 asks for -20, and takes 20 from the client 2.
negative_transfer_answer_example :
    build_tlv_reply test_host (client_transfer (2 ^ 32 - 20)) test_reply 1 test_bank
    ≡ ok (
      record test_reply {
        op = op_transfer;
        length = sizeof_pointer;
        account_id = 1;
        ret_code = rc_ok;
        payload = 120;
      },
      set_two test_bank 2 30 1 120,
    )
negative_transfer_answer_example =
    negative_transfer_answer test_host (client_transfer (2 ^ 32 - 20)) test_reply 1 test_bank
      (client_login op_transfer 2 (2 ^ 32 - 20)) 20 refl (omega arith) (omega arith) (omega arith)
      (omega arith) (omega arith) refl (omega arith) (omega arith) (omega arith) (omega arith) refl

-- The request of client 1 for its balance has 3 where an account number would stand.
build_tlv_reply-keeps_example :
    Ensures
      (IsUnchanged test_bank)
      (build_tlv_reply test_host (client_transfer 200) test_reply 1 test_bank)
build_tlv_reply-keeps_example =
    build_tlv_reply-keeps test_host (client_transfer 200) test_reply 1 test_bank

build_tlv_reply-IsValid_example :
    Ensures
      (λ _ b'. IsValid b')
      (build_tlv_reply test_host (client_transfer 30) test_reply 1 test_bank)
build_tlv_reply-IsValid_example =
    build_tlv_reply-IsValid test_host (client_transfer 30) test_reply 1 test_bank (omega arith)
      test_bank-IsValid

build_tlv_reply-KeepsTotal_example :
    Ensures
      (KeepsTotal test_bank)
      (build_tlv_reply test_host (client_transfer (2 ^ 32 - 20)) test_reply 1 test_bank)
build_tlv_reply-KeepsTotal_example =
    build_tlv_reply-KeepsTotal test_host (client_transfer (2 ^ 32 - 20)) test_reply 1 test_bank
      (λ h. cc) (omega arith)

build_tlv_reply-IsSound_example :
    Ensures
      (IsSound test_bank)
      (build_tlv_reply test_host (client_transfer 30) test_reply 1 test_bank)
build_tlv_reply-IsSound_example =
    build_tlv_reply-IsSound test_host (client_transfer 30) test_reply 1 test_bank (λ h. cc)
      test_bank-IsWithin (omega arith)
