-- ===== src/Client/RoundTrip.antt =====
-- What build_tlv_request of banking_aux.c makes of a command that spells out a request.
use feup_sope.Base.{
  ℕ, ◌^◌, ◌≤◌, ◌<◌, ◌≡◌, refl, ap, ◌∙◌, arith, true, some, List, [], ◌∷◌, length, All,
}
use feup_sope.Base.Text.{Bytes, IsWord, delimited, tokens-delimited}
use feup_sope.Base.Word.{of_int}
use feup_sope.Base.Format.{print_dec}
use feup_sope.Base.Format.Decimal.{atoi, atoi-print_dec, print_dec-IsWord}
use feup_sope.Bank.Types.{
  OpType, op_create_account, op_balance, op_transfer, op_shutdown, op_other, ReqArgs,
  max_op_delay_ms, max_password_len, sizeof_req_value,
}
use feup_sope.Client.{
  Machine, Arguments, op_of, build_tlv_request, get_string_arguments, write_arguments, built, fits,
  header_of,
}

-- The four operations have a number.
abbrev pub number_of : OpType → ℕ
number_of op_create_account = 0
number_of op_balance = 1
number_of op_transfer = 2
number_of op_shutdown = 3
number_of (op_other n) = n

-- The words of the last argument.
abbrev pub words_of : OpType → ReqArgs → List Bytes
words_of op_create_account a = print_dec a.account_id ∷ print_dec a.amount ∷ a.password ∷ []
words_of op_transfer a = print_dec a.account_id ∷ print_dec a.amount ∷ []
words_of _ a = []

abbrev pub command : ℕ → Bytes → ℕ → OpType → ReqArgs → Arguments
command account password delay op a = record {
  account_id = print_dec account;
  password = password;
  delay_ms = print_dec delay;
  operation = print_dec (number_of op);
  list = delimited b' ' (words_of op a);
}

-- The union of the request: what the operation does not write is as it was.
abbrev pub written : Machine → OpType → ReqArgs → ReqArgs
written c op_create_account a = a
written c op_transfer a = record a { password = c.uninitialized.password }
written c _ a = c.uninitialized

of_int-atoi : (n : ℕ) → n < 2 ^ 31 → of_int (atoi (print_dec n)) ≡ n
of_int-atoi n h = rw (atoi-print_dec n) (omega arith)

words_of-IsWord :
    (op : OpType) (a : ReqArgs) → IsWord b' ' a.password → All (IsWord b' ') (words_of op a)
words_of-IsWord op_create_account a h =
    (print_dec-IsWord a.account_id, (print_dec-IsWord a.amount, (h, tt)))
words_of-IsWord op_balance a h = tt
words_of-IsWord op_transfer a h = (print_dec-IsWord a.account_id, (print_dec-IsWord a.amount, tt))
words_of-IsWord op_shutdown a h = tt
words_of-IsWord (op_other n) a h = tt

length-words_of : (op : OpType) (a : ReqArgs) → length (words_of op a) ≤ 3
length-words_of op a = ground arith

get_string_arguments-delimited :
    (c : Machine) (op : OpType) (a : ReqArgs)
    → IsWord b' ' a.password
    → 24 ≤ c.malloc_room (length (delimited b' ' (words_of op a)))
    → get_string_arguments c (delimited b' ' (words_of op a)) ≡ some (words_of op a)
unfolding get_string_arguments
get_string_arguments-delimited c op a h room =
    rw (tokens-delimited b' ' (words_of op a) (words_of-IsWord op a h))
      (ground (arith, length-words_of op a))

-- An operation that is an enumerator.
abbrev pub IsNamed : OpType → Type 0
IsNamed op = number_of op < 4 × (op_of (number_of op) ≡ op)

write_arguments-words_of :
    (c : Machine) (op : OpType) (a : ReqArgs)
    → a.account_id < 2 ^ 31
    → a.amount < 2 ^ 31
    → write_arguments op (words_of op a) c.uninitialized ≡ some (written c op a)
unfolding write_arguments
write_arguments-words_of c op_create_account a ha hm =
    rw (of_int-atoi a.account_id ha, of_int-atoi a.amount hm) refl
write_arguments-words_of c op_balance a ha hm = refl
write_arguments-words_of c op_transfer a ha hm =
    rw (of_int-atoi a.account_id ha, of_int-atoi a.amount hm) refl
write_arguments-words_of c op_shutdown a ha hm = refl
write_arguments-words_of c (op_other n) a ha hm = refl

build_tlv_request-eq :
    (c : Machine) (argv : Arguments) (op : OpType) (args : List Bytes) (a : ReqArgs)
    → op_of (of_int (atoi argv.operation)) ≡ op
    → length argv.password ≤ max_password_len
    → of_int (atoi argv.delay_ms) ≤ max_op_delay_ms
    → get_string_arguments c argv.list ≡ some args
    → write_arguments op args c.uninitialized ≡ some a
    → fits op a ≡ true
    → build_tlv_request c argv
      ≡ built (record { op = op; length = sizeof_req_value; header = header_of c argv; args = a })
unfolding build_tlv_request
build_tlv_request-eq c argv op args a eo hp hd eg ew hf = ground arith

written-fits :
    (c : Machine) (op : OpType) (a : ReqArgs)
    → length a.password ≤ max_password_len
    → fits op (written c op a) ≡ true
written-fits c op a h = ground arith

-- build_tlv_request gives back the request that a command spells out: with an operation that has a
-- number, numbers below 2 ^ 31, a delay up to MAX_OP_DELAY_MS, passwords that fit their fields, the
-- one of a new account a word, and room for three pointers where malloc points.
pub build_tlv_request-command :
    (c : Machine) (op : OpType) (account delay : ℕ) (password : Bytes) (a : ReqArgs)
    → IsNamed op
    → account < 2 ^ 31
    → delay ≤ max_op_delay_ms
    → length password ≤ max_password_len
    → a.account_id < 2 ^ 31
    → a.amount < 2 ^ 31
    → IsWord b' ' a.password
    → length a.password ≤ max_password_len
    → 24 ≤ c.malloc_room (length (delimited b' ' (words_of op a)))
    → build_tlv_request c (command account password delay op a)
      ≡ built (record {
        op = op;
        length = sizeof_req_value;
        header = record {
          pid = c.pid;
          account_id = account;
          password = password;
          op_delay_ms = delay;
        };
        args = written c op a;
      })
build_tlv_request-command c op account delay password a named ha hd hp hx hm word hw room =
    let delayed : of_int (atoi (print_dec delay)) ≡ delay = of_int-atoi delay (omega arith) in
    let by_number : op_of (of_int (atoi (print_dec (number_of op)))) ≡ op =
      ap op_of (of_int-atoi (number_of op) (omega (arith, named.0))) ∙ named.1 in
    build_tlv_request-eq c (command account password delay op a) op (words_of op a) (written c op a)
      by_number hp (omega (arith, delayed)) (get_string_arguments-delimited c op a word room)
      (write_arguments-words_of c op a hx hm) (written-fits c op a hw)
    ∙ ap
        (λ h.
          built (record { op = op; length = sizeof_req_value; header = h; args = written c op a }))
        (ap
            (λ n. record {
              pid = c.pid;
              account_id = n;
              password = password;
              op_delay_ms = of_int (atoi (print_dec delay));
            })
            (of_int-atoi account ha)
          ∙ ap
              (λ n. record {
                pid = c.pid;
                account_id = account;
                password = password;
                op_delay_ms = n;
              })
              delayed)
