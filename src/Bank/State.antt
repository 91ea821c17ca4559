-- ===== src/Bank/State.antt =====
-- The global state of Project2/source/server.c and banking_aux.c that the handling of a request
-- reads and writes, and the actions over it.
use feup_sope.Base.{ℕ, ◌≡◌, Bool, true, false, List, ◌∷◌, Option, ltb, update}
use feup_sope.Base.Text.{Bytes, is_empty}
use feup_sope.Bank.Types.{Slot, Reply, LogCall, max_bank_accounts}
pub use feup_sope.Base.Result.{
  Stop, out_of_bounds, null_pointer, exit_failure, blocked, Result, ok, stop,
}

-- What the programs call and do not implement.
pub record Host : Type 0 where
  pub rand : ℕ → ℕ  -- the n-th result of `rand()`
  pub pipe : Bytes → Option Bytes  -- `fgets` from `popen(command, "r")`; `none` if that fails
  pub fifo_is_open : ℕ → Bytes → Bool  -- the n-th `open` of a user's FIFO succeeds

-- `log` has the latest call first, and `sent` the latest reply, with the path of its FIFO.
pub record Bank : Type 0 where
  pub accounts : ℕ → Slot
  pub active_threads : ℕ
  pub rand_calls : ℕ
  pub opens : ℕ
  pub log : List LogCall
  pub sent : List (Bytes × Reply)

abbrev pub M : Type 0 → Type 0
M A = Bank → Result (A × Bank)

abbrev pub pure : {A : Type 0} → A → M A
pure a b = ok (a, b)

abbrev pub halt : {A : Type 0} → Stop → M A
halt e b = stop e

infixl 5 ◌>>=◌ ◌>>◌
abbrev pub ◌>>=◌ : {A B : Type 0} → M A → (A → M B) → M B
◌>>=◌ m f b = elim (m b) [ ok p ↦ f p.0 p.1 | stop e ↦ stop e ]

abbrev pub ◌>>◌ : {A B : Type 0} → M A → M B → M B
m >> k = m >>= λ _. k

-- An `if` between actions.
abbrev pub branch : {A : Type 0} → Bool → M A → M A → M A
branch true x y b = x b
branch false x y b = y b

-- What an expression over `accounts[i]` gives, where the index is in the bounds of the array.
abbrev pub with_slot : {A : Type 0} → ℕ → (Slot → A) → M A
with_slot i f b = elim (ltb i max_bank_accounts) [
  | true ↦ ok (f (b.accounts i), b)
  | false ↦ stop out_of_bounds
]

-- `accounts[i]`, read and written.
abbrev pub slot : ℕ → M Slot
slot i = with_slot i (λ s. s)

abbrev pub set_slot : ℕ → Slot → M (Unit {0})
set_slot i s b = elim (ltb i max_bank_accounts) [
  | true ↦ ok (tt, record b { accounts = update b.accounts i s })
  | false ↦ stop out_of_bounds
]

abbrev pub add_log : LogCall → M (Unit {0})
add_log l b = ok (tt, record b { log = l ∷ b.log })

-- What holds of the result and of the bank after it, if the action returns.
abbrev pub Ensures : {A : Type 0} → (A → Bank → Type 0) → Result (A × Bank) → Type 0
Ensures Q (ok p) = Q p.0 p.1
Ensures Q (stop e) = Unit

-- The hash of the entry is not empty: an account has been created there.
abbrev pub IsUsed : Bank → ℕ → Type 0
IsUsed b i = is_empty (b.accounts i).bank_account.hash ≡ false

pub Ensures-forall :
    {A : Type 0} (Q : ℕ → A → Bank → Type 0) (x : Result (A × Bank))
    → ((j : ℕ) → Ensures (Q j) x)
    → Ensures (λ a b'. (j : ℕ) → Q j a b') x
Ensures-forall Q (ok p) h = λ j. h j
Ensures-forall Q (stop e) h = tt

pub Ensures-and :
    {A : Type 0} (P Q : A → Bank → Type 0) (x : Result (A × Bank))
    → Ensures P x
    → Ensures Q x
    → Ensures (λ a b. P a b × Q a b) x
Ensures-and P Q (ok p) h k = (h, k)
Ensures-and P Q (stop e) h k = tt

pub Ensures-bind :
    {A C : Type 0} (P : A → Bank → Type 0) (Q : C → Bank → Type 0) (x : Result (A × Bank))
    (f : A → M C)
    → Ensures P x
    → ((a : A) (b : Bank) → P a b → Ensures Q (f a b))
    → Ensures Q (elim x [ ok p ↦ f p.0 p.1 | stop e ↦ stop e ])
Ensures-bind P Q (ok p) f h k = k p.0 p.1 h
Ensures-bind P Q (stop e) f h k = tt

pub Ensures-map :
    {A : Type 0} (P Q : A → Bank → Type 0) (x : Result (A × Bank))
    → Ensures P x
    → ((a : A) (b : Bank) → P a b → Q a b)
    → Ensures Q x
Ensures-map P Q (ok p) h k = k p.0 p.1 h
Ensures-map P Q (stop e) h k = tt
