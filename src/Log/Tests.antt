-- ===== src/Log/Tests.antt =====
-- Entries of the log for concrete calls, and the theorems about them there.
use feup_sope.Base.{◌+◌, ◌%◌, ◌≡◌, refl, none, some, List, [], ◌∷◌, arith}
use feup_sope.Base.Text.{codes}
use feup_sope.Base.Word.{negsuc, pos}
use feup_sope.Bank.Types.{Request, op_transfer, op_other, Reply, rc_ok, request, delay, LogCall}
use feup_sope.Log.{Process, log_request, base_request_text}
use feup_sope.Log.Calls.{PrintsEntry}
use feup_sope.Log.File.{log_call-PrintsEntry}
use feup_sope.Log.Api.{log_api, call, CountsText, IsError, log_api-keeps}
use feup_sope.Log.Texts.{IsWordRequest}
use feup_sope.Base.Format.{zero_dec, blank_dec}

abbrev test_process : Process
test_process = record {
  pipe_buf = 4096;
  pid = 321;
  tid = λ i. 140000 + i % 1000;
  fd = pos 3;
  takes = λ fd buffer. 5;
}

abbrev test_request : Request
test_request = record {
  op = op_transfer;
  length = 41;
  header = record { pid = 321; account_id = 1; password = codes "password1"; op_delay_ms = 20 };
  args = record { account_id = 2; amount = 300; password = [] };
}

abbrev unknown_request : Request
unknown_request = record test_request { op = op_other 9 }

abbrev unknown_reply : Reply
unknown_reply = record {
  op = op_other 9;
  length = 8;
  account_id = 1;
  ret_code = rc_ok;
  payload = 0;
}

abbrev test_calls : List LogCall
test_calls = delay 100 ∷ request 2 test_request ∷ []

test_words : IsWordRequest test_request
test_words = (omega arith, omega arith, omega arith, omega arith, omega arith, omega arith)

test_text :
    base_request_text test_process 2 test_request (codes "TRANSFER")
    ≡ codes "R - 00002 - [ 41 bytes] 00321 (0001, \"password1\")            [   20 ms] TRANSFER"
unfolding base_request_text zero_dec blank_dec
test_text = refl

null_request : log_request test_process 2 none ≡ some (record { ret = negsuc 0; written = [] })
unfolding log_request
null_request = refl

log_call-PrintsEntry_example : PrintsEntry test_process (request 2 test_request)
log_call-PrintsEntry_example =
    log_call-PrintsEntry test_process (omega arith) (λ i. ground arith) (request 2 test_request)
      (omega arith, test_words, (refl, omega arith), (refl, omega arith), (_, refl))

-- A disk that takes five bytes of each text.
log_api-keeps_example :
    CountsText test_process (call (log_api test_process) test_process (request 2 test_request))
    × IsError ((log_api test_process).log_request (negsuc 0) 2 none)
    × IsError ((log_api test_process).log_reply (negsuc 0) 2 none)
    × IsError ((log_api test_process).log_account_creation (negsuc 0) 2 none)
    × IsError ((log_api test_process).log_request (negsuc 0) 2 (some unknown_request))
    × IsError ((log_api test_process).log_reply (negsuc 0) 2 (some unknown_reply))
log_api-keeps_example =
    log_api-keeps test_process (request 2 test_request) unknown_request unknown_reply (negsuc 0) 2 9
      (omega arith) (λ i. ground arith)
      (omega arith, test_words, (refl, omega arith), (refl, omega arith), (_, refl)) refl refl
