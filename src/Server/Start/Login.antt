-- ===== src/Server/Start/Login.antt =====
-- The bank that the start of server.c leaves: the administrator's account, and no other.
use feup_sope.Base.{
  ◌++◌, get_elem?, length, length-append, inl, inr, Bool, Bool-cases, ap, ℕ, zero, suc, ◌+◌, ◌≤◌,
  ◌<◌, ◌≡◌, refl, arith, ◌∙◌, true, false, some, List, [], ◌∷◌, if◌then◌else◌, ltb, Bool, ap,
  length, get_elem?, Bool-cases, length-append, inl,
}
use feup_sope.Base.Text.{Bytes, is_empty, strcmp_eq_self}
use feup_sope.Base.Word.{pos}
use feup_sope.Base.Format.Decimal.{atoi}
use feup_sope.Bank.Types.{
  LogCall, ReqHeader, office_open, sync_mech_sem, sem_init, role_producer, admin_account_id,
  main_thread_id, salt_len, max_bank_offices, rc_ok, max_bank_accounts, empty_slot,
}
use feup_sope.Bank.State.{Host, Bank, ok}
use feup_sope.Bank.Password.{is_valid_password, salt_from}
use feup_sope.Bank.Accounts.{CreateArgs, validate_bank_account}
use feup_sope.Bank.Accounts.Login.{
  HashesTo, after_create, create_bank_account_lem, validate-after_create,
}
use feup_sope.Client.{created, create_fifo}
use feup_sope.Server.Start.{Arguments, Answers, boot, open_offices, initiate, server_start}

-- The log after the offices are open.
abbrev opened : ℕ → List LogCall → List LogCall
opened zero log = log
opened (suc n) log = office_open (n + 1) ∷ opened n log

-- 1 to n
abbrev pub first_offices : ℕ → List ℕ
first_offices zero = []
first_offices (suc n) = first_offices n ++ ((n + 1) ∷ [])

open_offices_lem :
    (creates : ℕ → Bool) (n : ℕ) (b : Bank)
    → ((i : ℕ) → i < n → creates i ≡ true)
    → open_offices creates n b ≡ ok (first_offices n, record b { log = opened n b.log })
unfolding open_offices
open_offices_lem creates zero b all = refl
open_offices_lem creates (suc n) b all =
    ground (arith, all n, open_offices_lem creates n b (λ i lt. all i (omega (arith, lt))))

-- The bank before the account of the administrator.
abbrev ready_bank : ℕ → Bank
ready_bank n = record boot {
  accounts =
      λ i. if ltb i max_bank_accounts then record empty_slot { active = false } else empty_slot;
  log = opened n (sync_mech_sem main_thread_id sem_init role_producer admin_account_id 0 ∷ []);
}

abbrev admin_account : Bytes → CreateArgs
admin_account password = record { account_id = admin_account_id; balance = 0; password = password }

abbrev started : Host → Bytes → ℕ → Bytes → Bank
started host password n word =
    after_create host (ready_bank n) (admin_account password) word main_thread_id

module _ (host : Host) (password word : Bytes)
    (hashes : HashesTo host password (salt_from host salt_len 0) word) where
  initiate_lem :
      (creates : ℕ → Bool) (n : ℕ)
      → ((i : ℕ) → i < n → creates i ≡ true)
      → initiate host creates password (pos n) boot
        ≡ ok (first_offices n, started host password n word)
  unfolding initiate
  initiate_lem creates n all =
      let made =
        create_bank_account_lem host (admin_account password) main_thread_id (ready_bank n) word
          (omega arith) refl hashes in
      ground (
        arith,
        made,
        open_offices_lem creates n
            (record (ready_bank n) {
              log = sync_mech_sem main_thread_id sem_init role_producer admin_account_id 0 ∷ [];
            })
            all,
      )

-- The accounts after the start: the administrator is let in with the password of the command, and
-- every other entry is free.
abbrev pub AdminOnly : Host → Bytes → Bank → Type 0
AdminOnly host password b =
    ((header : ReqHeader)
      → header.account_id ≡ admin_account_id
      → header.password ≡ password
      → validate_bank_account host header b ≡ ok (rc_ok, b))
    × ((i : ℕ)
        → 0 < i
        → ((b.accounts i).active ≡ false) × (is_empty (b.accounts i).bank_account.hash ≡ true))

started-AdminOnly :
    (host : Host) (password word : Bytes) (n : ℕ)
    → HashesTo host password (salt_from host salt_len 0) word
    → AdminOnly host password (started host password n word)
started-AdminOnly host password word n hashes = (
  λ header at same.
      validate-after_create host (admin_account password) main_thread_id (ready_bank n) word header
        word (omega arith) hashes at (rw same hashes)
      ∙ rw (strcmp_eq_self word) refl,
  λ i lt. ground arith,
)

-- The identifiers of the offices that the log says have been opened, the earliest first.
abbrev opened_offices : List LogCall → List ℕ
opened_offices [] = []
opened_offices (office_open id ∷ log) = opened_offices log ++ (id ∷ [])
opened_offices (_ ∷ log) = opened_offices log

-- `n` offices run, the one with index `i` with the identifier `i + 1`, and the log has an entry for
-- each of them, in order, and for no other.
abbrev pub OpensOffices : ℕ → List ℕ → Bank → Type 0
OpensOffices n running b =
    (length running ≡ n)
    × ((i : ℕ) → i < n → get_elem? running i ≡ some (i + 1))
    × (opened_offices b.log ≡ running)

length-first_offices : (n : ℕ) → length (first_offices n) ≡ n
length-first_offices zero = refl
length-first_offices (suc n) =
    omega (arith, length-append (first_offices n) ((n + 1) ∷ []), length-first_offices n)

get_elem?-append :
    (xs ys : List ℕ) (i : ℕ) → i < length xs → get_elem? (xs ++ ys) i ≡ get_elem? xs i
get_elem?-append [] ys i lt = absurd (omega (arith, lt))
get_elem?-append (x ∷ xs) ys zero lt = refl
get_elem?-append (x ∷ xs) ys (suc i) lt = get_elem?-append xs ys i (omega (arith, lt))

get_elem?-last : (xs : List ℕ) (x i : ℕ) → i ≡ length xs → get_elem? (xs ++ (x ∷ [])) i ≡ some x
get_elem?-last [] x i e = rw e refl
get_elem?-last (y ∷ xs) x zero e = absurd (omega (arith, e))
get_elem?-last (y ∷ xs) x (suc i) e = get_elem?-last xs x i (omega (arith, e))

get_elem?-first_offices : (n i : ℕ) → i < n → get_elem? (first_offices n) i ≡ some (i + 1)
get_elem?-first_offices zero i lt = absurd (omega (arith, lt))
get_elem?-first_offices (suc n) i lt = elim (Bool-cases (ltb i n)) [
  | inl e ↦
      let inside : i < n = ground arith in
      get_elem?-append (first_offices n) ((n + 1) ∷ []) i
        (omega (arith, length-first_offices n, inside))
      ∙ get_elem?-first_offices n i inside
  | inr e ↦
      let at_end : i ≡ n = ground arith in
      get_elem?-last (first_offices n) (n + 1) i (omega (arith, at_end, length-first_offices n))
      ∙ rw at_end refl
]

opened_offices-opened :
    (n : ℕ) (log : List LogCall)
    → opened_offices log ≡ []
    → opened_offices (opened n log) ≡ first_offices n
opened_offices-opened zero log h = h
opened_offices-opened (suc n) log h =
    ap (λ ids. ids ++ ((n + 1) ∷ [])) (opened_offices-opened n log h)

started-OpensOffices :
    (host : Host) (password word : Bytes) (n : ℕ)
    → OpensOffices n (first_offices n) (started host password n word)
started-OpensOffices host password word n =
    (length-first_offices n, get_elem?-first_offices n, opened_offices-opened n _ refl)

-- With up to MAX_BANK_OFFICES offices whose threads are all created, a password of the right length
-- that the shell hashes, and a FIFO that can be made and opened, the server starts with that number of
-- offices running, which have the identifiers from 1 on and an entry in the log each, and with the
-- account of the administrator alone, which lets in the password of the command.
pub server_start-AdminOnly :
    (host : Host) (answers : Answers) (argv : Arguments) (n : ℕ) (word : Bytes)
    → atoi argv.offices ≡ pos n
    → n ≤ max_bank_offices
    → ((i : ℕ) → i < n → answers.creates i ≡ true)
    → is_valid_password argv.password ≡ true
    → HashesTo host argv.password (salt_from host salt_len 0) word
    → create_fifo answers.mkfifo ≡ created
    → answers.is_open ≡ true
    → (running : List ℕ) × (b : Bank) × (server_start host answers (some argv) boot
        ≡ ok (running, b))
      × OpensOffices n running b
      × AdminOnly host argv.password b
unfolding server_start
server_start-AdminOnly host answers argv n word en hn all valid hashes made is_open = (
  first_offices n,
  started host argv.password n word,
  ground (arith, initiate_lem host argv.password word hashes answers.creates n all),
  started-OpensOffices host argv.password word n,
  started-AdminOnly host argv.password word n hashes,
)
