-- ===== src/Server/Serve/Totality.antt =====
-- A request is answered: within the bounds of the array, and for passwords that the shell takes as they
-- stand, `build_tlv_reply` and `serve` return.
use feup_sope.Base.{
  All, Bool, true, not, ◌||◌, ◌==◌, ◌≤◌, ◌%◌, zero, suc, length, ℕ, ◌+◌, ◌<◌, ◌≡◌, refl, arith,
}
use feup_sope.Base.Text.{Bytes}
use feup_sope.Bank.Types.{
  Request, Reply, ReqHeader, OpType, RetCode, rc_ok, op_create_account, op_balance, op_transfer,
  op_shutdown, op_other, max_bank_accounts, salt_len,
}
use feup_sope.Bank.State.{Host, Bank, Result, M, ok, stop}
use feup_sope.Bank.Password.{
  hex_digit, length-salt_from, salt_from, generate_password_salt, generate_sha256_hash,
}
use feup_sope.Bank.Accounts.{
  CreateArgs, open_account, create_bank_account, check_password, validate_bank_account,
}
use feup_sope.Bank.Accounts.Login.{HashesTo, generate_sha256_hash_lem}
use feup_sope.Bank.Reply.{
  move_amount, check_transfer, reply_create, dispatch, dispatch_if_ok, build_tlv_reply,
}

-- The action returns.
abbrev pub Returns : {A : Type 0} → Result (A × Bank) → Type 0
Returns (ok p) = Unit
Returns (stop e) = ⊥

Returns-bind :
    {A C : Type 0} (x : Result (A × Bank)) (f : A → M C)
    → Returns x
    → ((a : A) (b : Bank) → Returns (f a b))
    → Returns (elim x [ ok p ↦ f p.0 p.1 | stop e ↦ stop e ])
Returns-bind (ok p) f h k = k p.0 p.1
Returns-bind (stop e) f h k = h

-- A byte that stands for itself between the double quotes of a shell command: not the terminator, '"',
-- '$', the backslash or the backquote.
abbrev pub is_literal : ℕ → Bool
is_literal c = not (c == 0 || (c == 34 || (c == 36 || (c == 92 || c == 96))))

-- Such a text, of no more bytes than a salt has.
abbrev pub IsQuotable : Bytes → Type 0
IsQuotable s = (length s ≤ salt_len) × All (λ c. is_literal c ≡ true) s

-- The documented behaviour of the shell and of `shasum`: for texts that the quotes of the command keep
-- as they are, a hash is printed, of at most 64 bytes.
abbrev pub HasShasum : Host → Type 0
HasShasum host =
    (password salt : Bytes)
    → IsQuotable password
    → IsQuotable salt
    → (word : Bytes) × HashesTo host password salt word

hex_digit-literal : (v : ℕ) → v < 16 → is_literal (hex_digit v) ≡ true
hex_digit-literal v lt = ground arith

salt_from-literal : (host : Host) (n k : ℕ) → All (λ c. is_literal c ≡ true) (salt_from host n k)
unfolding salt_from
salt_from-literal host zero k = tt
salt_from-literal host (suc n) k =
    (hex_digit-literal (host.rand k % 15) (omega arith), salt_from-literal host n (k + 1))

-- A salt that the program makes is taken as it stands.
salt_from-IsQuotable : (host : Host) (k : ℕ) → IsQuotable (salt_from host salt_len k)
salt_from-IsQuotable host k =
    (omega (arith, length-salt_from host salt_len k), salt_from-literal host salt_len k)

abbrev salt_of : Bank → ℕ → Bytes
salt_of b i = (b.accounts i).bank_account.salt

module _ (host : Host) (shasum : HasShasum host) where
  generate_sha256_hash-Returns :
      (p s : Bytes) (b : Bank)
      → IsQuotable p
      → IsQuotable s
      → Returns (generate_sha256_hash host p s b)
  generate_sha256_hash-Returns p s b hp hs =
      let (w, h) = shasum p s hp hs in ground (arith, generate_sha256_hash_lem b h)

  check_password-Returns :
      (h : ReqHeader) (b : Bank)
      → h.account_id < max_bank_accounts
      → IsQuotable h.password
      → IsQuotable (salt_of b h.account_id)
      → Returns (check_password host h b)
  unfolding check_password
  check_password-Returns h b lt hp hs = ground (
    arith,
    generate_sha256_hash-Returns h.password (b.accounts h.account_id).bank_account.salt b hp hs,
  )

  validate_bank_account-Returns :
      (h : ReqHeader) (b : Bank)
      → h.account_id < max_bank_accounts
      → IsQuotable h.password
      → IsQuotable (salt_of b h.account_id)
      → Returns (validate_bank_account host h b)
  unfolding validate_bank_account
  validate_bank_account-Returns h b lt hp hs = ground (arith, check_password-Returns h b lt hp hs)

  open_account-Returns :
      (a : CreateArgs) (id : ℕ) (b : Bank)
      → a.account_id < max_bank_accounts
      → IsQuotable a.password
      → Returns (open_account host a id b)
  unfolding open_account generate_password_salt
  open_account-Returns a id b lt hp =
      let (w, h) =
        shasum a.password (salt_from host salt_len b.rand_calls) hp
          (salt_from-IsQuotable host b.rand_calls) in
      ground (arith, generate_sha256_hash_lem (record b { rand_calls = b.rand_calls + salt_len }) h)

  create_bank_account-Returns :
      (a : CreateArgs) (id : ℕ) (b : Bank)
      → a.account_id < max_bank_accounts
      → IsQuotable a.password
      → Returns (create_bank_account host a id b)
  unfolding create_bank_account
  create_bank_account-Returns a id b lt hp = ground (arith, open_account-Returns a id b lt hp)

  module _ (req : Request) (inside : req.header.account_id < max_bank_accounts)
      (inside_args : req.args.account_id < max_bank_accounts)
      (quotable : IsQuotable req.header.password)
      (new_quotable : req.op ≡ op_create_account → IsQuotable req.args.password) where
    reply_create-Returns :
        (r : Reply) (id : ℕ) (b : Bank)
        → IsQuotable req.args.password
        → Returns (reply_create host req r id b)
    unfolding reply_create
    reply_create-Returns r id b hp = ground (
      arith,
      create_bank_account-Returns
          (record {
            account_id = req.args.account_id;
            balance = req.args.amount;
            password = req.args.password;
          })
          id b inside_args hp,
    )

    check_transfer-Returns : (r : Reply) (b : Bank) → Returns (check_transfer req r b)
    unfolding check_transfer move_amount
    check_transfer-Returns r b = ground arith

    dispatch-Returns :
        (op : OpType) (r : Reply) (id : ℕ) (b : Bank)
        → r.account_id ≡ req.header.account_id
        → (op ≡ op_create_account → IsQuotable req.args.password)
        → Returns (dispatch host op req r id b)
    unfolding dispatch
    dispatch-Returns op_create_account r id b e hp = reply_create-Returns r id b (hp refl)
    dispatch-Returns op_balance r id b e hp = ground arith
    dispatch-Returns op_transfer r id b e hp =
        check_transfer-Returns (record r { payload = req.args.amount }) b
    dispatch-Returns op_shutdown r id b e hp = ground arith
    dispatch-Returns (op_other n) r id b e hp = tt

    dispatch_if_ok-Returns :
        (rc : RetCode) (r : Reply) (id : ℕ) (b : Bank)
        → r.account_id ≡ req.header.account_id
        → Returns (dispatch_if_ok host rc req r id b)
    dispatch_if_ok-Returns rc_ok r id b e = dispatch-Returns req.op r id b e new_quotable
    dispatch_if_ok-Returns _ r id b e = tt

    -- Whatever a request asks for, `build_tlv_reply` returns, if the accounts that it names are
    -- within the array, and the passwords and the salt of the account are taken as they stand.
    pub build_tlv_reply-Returns :
        (r : Reply) (id : ℕ) (b : Bank)
        → IsQuotable (salt_of b req.header.account_id)
        → Returns (build_tlv_reply host req r id b)
    unfolding build_tlv_reply
    build_tlv_reply-Returns r id b salted =
        Returns-bind (validate_bank_account host req.header b) _
          (validate_bank_account-Returns req.header b inside quotable salted)
          λ rc b'.
            Returns-bind (dispatch_if_ok host rc req _ id b') _
              (dispatch_if_ok-Returns rc _ id b' refl) λ answer b''. tt
