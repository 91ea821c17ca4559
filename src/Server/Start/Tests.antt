-- ===== src/Server/Start/Tests.antt =====
-- A start of the server with two offices.
use feup_sope.Base.{ℕ, List, ◌≡◌, refl, arith, true, none, some, [], ◌∷◌, get_elem?, ◌*◌}
use feup_sope.Base.Text.{codes, tokens}
use feup_sope.Base.Format.Decimal.{atoi}
use feup_sope.Bank.Types.{salt_len}
use feup_sope.Bank.State.{Host, Bank, ok}
use feup_sope.Bank.Password.{sha256sum_command, salt_from, is_valid_password}
use feup_sope.Bank.Accounts.Login.{HashesTo}
use feup_sope.Client.{made, exists, create_fifo}
use feup_sope.Server.Start.{Arguments, Answers, boot, server_start}
use feup_sope.Server.Start.Login.{AdminOnly, OpensOffices, server_start-AdminOnly}

-- The "hash" of a password is its first byte, which stands at place 9 of the command.
abbrev start_host : Host
start_host = record {
  rand = λ n. 7 * n;
  pipe = λ command. elim (get_elem? command 9) [ none ↦ none | some c ↦ some (c ∷ codes "  -") ];
  fifo_is_open = λ n path. true;
}

abbrev start_answers : Answers
start_answers = record { creates = λ i. true; mkfifo = exists true ∷ made ∷ []; is_open = true }

abbrev start_arguments : Arguments
start_arguments = record { offices = codes "2"; password = codes "administrator" }

admin_hash :
    HashesTo start_host (codes "administrator") (salt_from start_host salt_len 0) (codes "a")
unfolding salt_from sha256sum_command tokens
admin_hash = record {
  line = codes "a  -";
  rest = codes "-" ∷ [];
  printed = refl;
  first = refl;
  fits = omega arith;
}

server_start-AdminOnly_example :
    (running : List ℕ) × (b : Bank) × (server_start start_host start_answers
        (some start_arguments)
        boot
      ≡ ok (running, b))
    × OpensOffices 2 running b
    × AdminOnly start_host (codes "administrator") b
unfolding is_valid_password create_fifo atoi
server_start-AdminOnly_example =
    server_start-AdminOnly start_host start_answers start_arguments 2 (codes "a") refl (omega arith)
      (λ i lt. refl) refl admin_hash refl refl
