-- ===== src/Bank/Password.antt =====
-- The passwords, salts and hashes of Project2/source/general_aux.c.
use feup_sope.Base.{
  ℕ, zero, suc, ◌+◌, ◌-◌, ◌%◌, Bool, true, false, ◌||◌, List, [], ◌∷◌, ◌++◌, none, some, ltb, leb,
  length, if◌then◌else◌, ◌≡◌, ap, refl,
}
use feup_sope.Base.Text.{Bytes, codes, tokens}
use feup_sope.Bank.Types.{min_password_len, max_password_len, hash_len, salt_len}
use feup_sope.Bank.State.{
  Host, out_of_bounds, null_pointer, exit_failure, M, pure, halt, branch, ◌>>=◌,
}

unfoldable pub is_valid_password : Bytes → Bool
is_valid_password password =
    if ltb (length password) min_password_len || ltb max_password_len (length password)
    then false
    else true

-- sprintf("%x") of a number below 16.
abbrev pub hex_digit : ℕ → ℕ
hex_digit v = if ltb v 10 then b'0' + v else b'a' + v - 10

-- The shell command of `generate_sha256_hash`.
unfoldable pub sha256sum_command : Bytes → Bytes → Bytes
sha256sum_command password salt =
    codes "echo -n \"" ++ (password ++ (salt ++ codes "\" | shasum -a 256"))

-- `strcpy(hash, temp_ptr)` of the first word, into an array of `hash_len + 1`.
abbrev pub first_word : List Bytes → M Bytes
first_word [] = halt null_pointer
first_word (w ∷ ws) = branch (leb (length w) hash_len) (pure w) (halt out_of_bounds)

module _ (host : Host) where
  -- The rest of the loop, of `n` rounds; `k` calls of `rand` have been made.
  unfoldable pub salt_from : ℕ → ℕ → Bytes
  salt_from zero k = []
  salt_from (suc n) k = hex_digit (host.rand k % 15) ∷ salt_from n (k + 1)

  unfoldable pub generate_password_salt : M Bytes
  generate_password_salt b =
      pure (salt_from salt_len b.rand_calls) (record b { rand_calls = b.rand_calls + salt_len })

  unfoldable pub run_pipe_command : Bytes → M Bytes
  run_pipe_command command = elim (host.pipe command) [
    | none ↦ halt exit_failure
    | some line ↦ pure line
  ]

  unfoldable pub generate_sha256_hash : Bytes → Bytes → M Bytes
  unfolding run_pipe_command
  generate_sha256_hash password salt = do
    pipe_result ← run_pipe_command (sha256sum_command password salt)
    first_word (tokens b' ' pipe_result)

  pub length-salt_from : (n k : ℕ) → length (salt_from n k) ≡ n
  unfolding salt_from
  length-salt_from zero k = refl
  length-salt_from (suc n) k = ap suc (length-salt_from n (k + 1))
