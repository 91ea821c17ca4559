-- ===== src/Bank/Tests/Accounts.antt =====
-- The creation of an account and a login, and the theorems about them at concrete accounts.
use feup_sope.Base.{◌≡◌, refl, true, [], ◌∷◌, arith}
use feup_sope.Base.Text.{codes, strcmp_eq, tokens}
use feup_sope.Bank.Types.{rc_ok, ReqHeader, salt_len}
use feup_sope.Bank.State.{Bank, ok}
use feup_sope.Bank.Password.{sha256sum_command, salt_from}
use feup_sope.Bank.Accounts.{CreateArgs, validate_bank_account, create_bank_account}
use feup_sope.Bank.Accounts.Login.{HashesTo, validate-create}
use feup_sope.Bank.Tests.{test_host, test_bank}

abbrev new_account : CreateArgs
new_account = record { account_id = 3; balance = 10; password = codes "dddddddd" }

created_hash : HashesTo test_host (codes "dddddddd") (salt_from test_host salt_len 0) (codes "d")
unfolding salt_from sha256sum_command tokens
created_hash = record {
  line = codes "d  -";
  rest = codes "-" ∷ [];
  printed = refl;
  first = refl;
  fits = omega arith;
}

abbrev new_header : ReqHeader
new_header = record { pid = 8; account_id = 3; password = codes "dddddddd"; op_delay_ms = 0 }

validate-create_example :
    (b : Bank) × (create_bank_account test_host new_account 1 test_bank ≡ ok (true, b))
    × (validate_bank_account test_host new_header b ≡ ok (rc_ok, b))
unfolding strcmp_eq
validate-create_example =
    validate-create test_host new_account 1 test_bank (codes "d") new_header (codes "d")
      (omega arith) refl created_hash refl created_hash
