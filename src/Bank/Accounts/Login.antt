-- ===== src/Bank/Accounts/Login.antt =====
-- `create_bank_account` and `validate_bank_account`: an account that has been created is open to
-- its own password, and to no password with another hash.
use feup_sope.Base.{
  ℕ, ◌+◌, ◌≤◌, ◌<◌, ◌≡◌, fun_ext, true, false, List, ◌∷◌, some, arith, update, length, All,
  if◌then◌else◌, ==_self,
}
use feup_sope.Base.Text.{Bytes, is_empty, strcmp_eq, tokens, IsWord, tokens-IsWord}
use feup_sope.Bank.Types.{
  max_bank_accounts, hash_len, salt_len, admin_account_id, Slot, ReqHeader, rc_ok, rc_login_fail,
  sem_init, role_account, account_creation, sync_mech_sem,
}
use feup_sope.Bank.State.{Host, Bank, ok}
use feup_sope.Bank.Password.{
  sha256sum_command, salt_from, generate_password_salt, generate_sha256_hash,
}
use feup_sope.Bank.Accounts.{
  CreateArgs, open_account, create_bank_account, check_password, validate_bank_account,
}

-- The pipe prints a line for the password and the salt, and `word` is its first word.
pub record HashesTo (host : Host) (password salt word : Bytes) : Type 0 where
  pub line : Bytes
  pub rest : List Bytes
  pub printed : host.pipe (sha256sum_command password salt) ≡ some line
  pub first : tokens b' ' line ≡ word ∷ rest
  pub fits : length word ≤ hash_len

pub HashesTo-nonempty : {host : Host} {p s w : Bytes} → HashesTo host p s w → is_empty w ≡ false
HashesTo-nonempty {w} h =
    let words : All (IsWord b' ') (w ∷ h.rest) = rw h.first at (tokens-IsWord b' ' h.line) in
    words.0.0

pub generate_sha256_hash_lem :
    {host : Host} {p s w : Bytes} (b : Bank)
    → HashesTo host p s w
    → generate_sha256_hash host p s b ≡ ok (w, b)
unfolding generate_sha256_hash
generate_sha256_hash_lem {w} b h = ground (arith, h.printed, h.first, h.fits)

-- Checking a password against the entry `s`.
pub check_password_lem :
    {host : Host} (header : ReqHeader) (b : Bank) {s : Slot} {attempt : Bytes}
    → header.account_id < max_bank_accounts
    → b.accounts header.account_id ≡ s
    → HashesTo host header.password s.bank_account.salt attempt
    → check_password host header b
      ≡ ok (if strcmp_eq attempt s.bank_account.hash then rc_ok else rc_login_fail, b)
unfolding check_password
check_password_lem header b lt e h = ground (arith, generate_sha256_hash_lem b h)

pub validate_bank_account_lem :
    {host : Host} (header : ReqHeader) (b : Bank) {s : Slot} {attempt : Bytes}
    → header.account_id < max_bank_accounts
    → b.accounts header.account_id ≡ s
    → is_empty s.bank_account.hash ≡ false
    → HashesTo host header.password s.bank_account.salt attempt
    → validate_bank_account host header b
      ≡ ok (if strcmp_eq attempt s.bank_account.hash then rc_ok else rc_login_fail, b)
unfolding validate_bank_account
validate_bank_account_lem {host} header b lt e used h =
    ground (arith, check_password_lem header b lt e h)

-- The entry of a new account.
abbrev pub new_slot : Host → Bank → CreateArgs → Bytes → Slot
new_slot host b acc_data word = record {
  bank_account = record {
    account_id = acc_data.account_id;
    hash = word;
    salt = salt_from host salt_len b.rand_calls;
    balance = acc_data.balance;
  };
  semaphore = 1;
  active = true;
}

-- The bank after the creation of an account. What is logged is the administrator's account.
abbrev pub after_create : Host → Bank → CreateArgs → Bytes → ℕ → Bank
after_create host b acc_data word id =
    let accounts = update b.accounts acc_data.account_id (new_slot host b acc_data word) in
    record b {
      accounts = accounts;
      rand_calls = b.rand_calls + salt_len;
      log =
          sync_mech_sem id sem_init role_account acc_data.account_id 1
          ∷ account_creation id (accounts admin_account_id).bank_account
          ∷ b.log;
    }

-- Two writes to one entry, as against the second alone.
update-update : (a : ℕ → Slot) (i : ℕ) (s t : Slot) → update (update a i s) i t ≡ update a i t
update-update a i s t = fun_ext λ j. ground arith

module _ (host : Host) (acc_data : CreateArgs) (id : ℕ) (b : Bank) where
  abbrev new_salt : Bytes
  new_salt = salt_from host salt_len b.rand_calls

  pub open_account_lem :
      (word : Bytes)
      → acc_data.account_id < max_bank_accounts
      → HashesTo host acc_data.password new_salt word
      → open_account host acc_data id b ≡ ok (true, after_create host b acc_data word id)
  unfolding open_account generate_password_salt
  open_account_lem word lt h = ground (
    arith,
    generate_sha256_hash_lem (record b { rand_calls = b.rand_calls + salt_len }) h,
    update-update b.accounts acc_data.account_id
        (record (new_slot host b acc_data word) {
          semaphore = (b.accounts acc_data.account_id).semaphore;
        })
        (new_slot host b acc_data word),
  )

  pub create_bank_account_lem :
      (word : Bytes)
      → acc_data.account_id < max_bank_accounts
      → is_empty (b.accounts acc_data.account_id).bank_account.hash ≡ true
      → HashesTo host acc_data.password new_salt word
      → create_bank_account host acc_data id b ≡ ok (true, after_create host b acc_data word id)
  unfolding create_bank_account generate_password_salt
  create_bank_account_lem word lt free h = ground (arith, open_account_lem word lt h)

  pub validate-after_create :
      (word : Bytes) (header : ReqHeader) (attempt : Bytes)
      → acc_data.account_id < max_bank_accounts
      → HashesTo host acc_data.password new_salt word
      → header.account_id ≡ acc_data.account_id
      → HashesTo host header.password new_salt attempt
      → let b' = after_create host b acc_data word id in
        validate_bank_account host header b'
        ≡ ok (if strcmp_eq attempt word then rc_ok else rc_login_fail, b')
  unfolding validate_bank_account
  validate-after_create word header attempt lt h e k =
      validate_bank_account_lem header (after_create host b acc_data word id)
        {s = new_slot host b acc_data word} (rw e lt) (rw (e, ==_self acc_data.account_id))
        (HashesTo-nonempty h) k

  -- For a free entry, `create_bank_account` makes an account that lets in the passwords with the
  -- same hash under its salt as the password that it was made with, and refuses the others.
  pub validate-create :
      (word : Bytes) (header : ReqHeader) (attempt : Bytes)
      → acc_data.account_id < max_bank_accounts
      → is_empty (b.accounts acc_data.account_id).bank_account.hash ≡ true
      → HashesTo host acc_data.password new_salt word
      → header.account_id ≡ acc_data.account_id
      → HashesTo host header.password new_salt attempt
      → (b' : Bank) × (create_bank_account host acc_data id b ≡ ok (true, b'))
        × (validate_bank_account host header b'
            ≡ ok (if strcmp_eq attempt word then rc_ok else rc_login_fail, b'))
  validate-create word header attempt lt free h e k = (
    after_create host b acc_data word id,
    create_bank_account_lem word lt free h,
    validate-after_create word header attempt lt h e k,
  )
