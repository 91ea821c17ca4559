-- ===== src/Exercises/Limit.antt =====
-- Exercises/prob07/p2.c: two threads that write characters up to a limit that they share under a mutex.
pub mod Race
pub mod Invariant
pub mod Outcome
mod Tests
use feup_sope.Base.{
  ℕ, zero, suc, ◌+◌, ◌<◌, ◌≡◌, Option, none, some, Bool, true, false, update, if◌then◌else◌,
}
use feup_sope.Base.Word.{ℤ, pos, negsuc}

-- `limit > 0`
abbrev pub is_positive : ℤ → Bool
is_positive (pos zero) = false
is_positive (pos (suc n)) = true
is_positive (negsuc n) = false

-- `limit--`
abbrev pub less_one : ℤ → ℤ
less_one (pos zero) = negsuc 0
less_one (pos (suc n)) = pos n
less_one (negsuc n) = negsuc (suc n)

-- The global variables, and how many characters have been written.
pub record Shared : Type 0 where
  pub limit : ℤ
  pub mutex : Option ℕ  -- the thread that holds it
  pub screen : ℕ

-- Where a thread stands in `thrfunc`.
pub data Pc : Type 0 where
  locking : Pc  -- before the lock
  testing : Pc  -- before `if(limit <= 0)`
  leaving : Pc  -- before the unlock of that branch
  taking : Pc  -- before `limit--`
  unlocking : Pc  -- before the unlock behind that
  writing : Pc  -- before `write`
  counting : Pc  -- before `written++`
  finished : Pc  -- behind the loop

-- A step of thread `i`, with its `written`.
pub data Move (i : ℕ) (m : Shared) (w : ℕ) : Pc → Shared → ℕ → Pc → Type 0 where
  lock : m.mutex ≡ none → Move i m w locking (record m { mutex = some i }) w testing
  empty : is_positive m.limit ≡ false → Move i m w testing m w leaving
  more : is_positive m.limit ≡ true → Move i m w testing m w taking
  leave : Move i m w leaving (record m { mutex = none }) w finished
  take : Move i m w taking (record m { limit = less_one m.limit }) w unlocking
  unlock : Move i m w unlocking (record m { mutex = none }) w writing
  write : Move i m w writing (record m { screen = m.screen + 1 }) w counting
  count : Move i m w counting m (w + 1) locking

-- Where the main thread stands behind the creation of the threads.
pub data MainPc : Type 0 where
  joining_a joining_b done : MainPc

-- `total` is the sum that is printed.
pub record System : Type 0 where
  pub shared : Shared
  pub at : ℕ → Pc
  pub written : ℕ → ℕ
  pub main : MainPc
  pub total : ℕ

-- A step of a program whose threads make these moves. Thread `a` is 0, and `b` is 1.
pub data Step (Moves : ℕ → Shared → ℕ → Pc → Shared → ℕ → Pc → Type 0) (s : System)
    : System → Type 0 where
  by_thread :
      (i : ℕ) {m : Shared} {w : ℕ} {p : Pc}
      → i < 2
      → Moves i s.shared (s.written i) (s.at i) m w p
      → Step Moves s (record s { shared = m; at = update s.at i p; written = update s.written i w })
  join_a : s.main ≡ joining_a → s.at 0 ≡ finished → Step Moves s (record s { main = joining_b })
  join_b :
      s.main ≡ joining_b
      → s.at 1 ≡ finished
      → Step Moves s (record s { main = done; total = s.written 0 + s.written 1 })

-- The start of a program with this limit.
abbrev pub start_with : ℕ → System
start_with limit = record {
  shared = record { limit = pos limit; mutex = none; screen = 0 };
  at = λ i. locking;
  written = λ i. 0;
  main = joining_a;
  total = 0;
}

-- The states of a run.
pub data Reach (Moves : ℕ → Shared → ℕ → Pc → Shared → ℕ → Pc → Type 0) (limit : ℕ)
    : System → Type 0 where
  here : Reach Moves limit (start_with limit)
  next : {s t : System} → Reach Moves limit s → Step Moves s t → Reach Moves limit t

abbrev pub limit_of_p2 : ℕ
limit_of_p2 = 500000
