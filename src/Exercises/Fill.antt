-- ===== src/Exercises/Fill.antt =====
-- Exercises/prob07/p1a.c: threads that fill a buffer under a mutex, and a thread that verifies it.
pub mod Locked
pub mod Joined
pub mod Steps
mod Tests
pub mod Ends
pub mod Outcome
pub mod Race
pub mod Invariant
use feup_sope.Base.{
  ℕ, suc, ◌+◌, ◌≤◌, ◌<◌, ◌≡◌, ◌≢◌, Option, none, some, List, [], ◌∷◌, ltb, update, if◌then◌else◌,
}
use feup_sope.Base.Text.{Bytes}
use feup_sope.Base.Word.{ℤ, pos, negsuc}
use feup_sope.Base.Format.Decimal.{atoi}

abbrev pub max_elems : ℕ
max_elems = 10000000

abbrev pub max_threads : ℕ
max_threads = 100

-- `min(number, limit)`. The loops run for a negative number as for 0.
abbrev pub limit_to : ℕ → ℤ → ℕ
limit_to limit (pos n) = if ltb n limit then n else limit
limit_to limit (negsuc n) = 0

-- The global variables but `npos`.
pub record Shared : Type 0 where
  pub buf : ℕ → ℕ
  pub pos : ℕ
  pub val : ℕ
  pub mutex : Option ℕ  -- the thread that holds it

-- Where a thread stands in `fill`.
pub data FillPc : Type 0 where
  locking : FillPc  -- before `pthread_mutex_lock`
  testing : FillPc  -- before `if (pos >= npos)`
  leaving : FillPc  -- before the unlock of that branch
  storing : FillPc  -- before `buf[pos] = val`
  raising_pos : FillPc  -- before `pos++`
  raising_val : FillPc  -- before `val++`
  unlocking : FillPc  -- before the unlock behind that
  counting : FillPc  -- before `*(int *)nr += 1`
  returned : FillPc

-- A step of thread `i`, with its `count[i]`.
pub data FillMove (npos i : ℕ) (m : Shared) (c : ℕ) : FillPc → Shared → ℕ → FillPc → Type 0 where
  lock : m.mutex ≡ none → FillMove npos i m c locking (record m { mutex = some i }) c testing
  full : npos ≤ m.pos → FillMove npos i m c testing m c leaving
  room : m.pos < npos → FillMove npos i m c testing m c storing
  leave : FillMove npos i m c leaving (record m { mutex = none }) c returned
  store : FillMove npos i m c storing (record m { buf = update m.buf m.pos m.val }) c raising_pos
  raise_pos : FillMove npos i m c raising_pos (record m { pos = m.pos + 1 }) c raising_val
  raise_val : FillMove npos i m c raising_val (record m { val = m.val + 1 }) c unlocking
  unlock : FillMove npos i m c unlocking (record m { mutex = none }) c counting
  count : FillMove npos i m c counting m (c + 1) locking

-- What `verify` does to the shared variables around its loop, as thread `n`.
abbrev pub Keep : ℕ → Shared → Shared → Type 0
Keep n m m' = m' ≡ m

-- A program: the moves of a thread in `fill` and how `verify` begins and ends.
pub record Program : Type 1 where
  pub FillMoves : ℕ → ℕ → Shared → ℕ → FillPc → Shared → ℕ → FillPc → Type 0
  pub verify_begin : ℕ → Shared → Shared → Type 0
  pub verify_end : ℕ → Shared → Shared → Type 0

abbrev pub p1a : Program
p1a = record { FillMoves = FillMove; verify_begin = Keep; verify_end = Keep }

-- Where the main thread stands, with the index of its loop. The loop of `verify` runs while the main
-- thread waits for it.
pub data MainPc : Type 0 where
  creating joining verifying : ℕ → MainPc
  done : MainPc

-- `errors` are the messages of `verify`: a position and what is there.
pub record System : Type 0 where
  pub shared : Shared
  pub fill : ℕ → FillPc
  pub counts : ℕ → ℕ
  pub main : MainPc
  pub total : ℕ
  pub errors : List (ℕ × ℕ)

-- How many threads there are.
abbrev pub created_threads : ℕ → MainPc → ℕ
created_threads nthr (creating k) = k
created_threads nthr _ = nthr

pub data Step (program : Program) (npos nthr : ℕ) (s : System) : System → Type 0 where
  by_fill :
      (i : ℕ) {m : Shared} {c : ℕ} {p : FillPc}
      → i < created_threads nthr s.main
      → program.FillMoves npos i s.shared (s.counts i) (s.fill i) m c p
      → Step program npos nthr s
          (record s { shared = m; fill = update s.fill i p; counts = update s.counts i c })
  create :
      (k : ℕ)
      → s.main ≡ creating k
      → k < nthr
      → Step program npos nthr s (record s { main = creating (k + 1) })
  all_created :
      (k : ℕ)
      → s.main ≡ creating k
      → nthr ≤ k
      → Step program npos nthr s (record s { main = joining 0; total = 0 })
  join :
      (k : ℕ)
      → s.main ≡ joining k
      → k < nthr
      → s.fill k ≡ returned
      → Step program npos nthr s (record s { main = joining (k + 1); total = s.total + s.counts k })
  all_joined :
      (k : ℕ) {m : Shared}
      → s.main ≡ joining k
      → nthr ≤ k
      → program.verify_begin nthr s.shared m
      → Step program npos nthr s (record s { shared = m; main = verifying 0 })
  right :
      (k : ℕ)
      → s.main ≡ verifying k
      → k < npos
      → s.shared.buf k ≡ k
      → Step program npos nthr s (record s { main = verifying (k + 1) })
  wrong :
      (k : ℕ)
      → s.main ≡ verifying k
      → k < npos
      → s.shared.buf k ≢ k
      → Step program npos nthr s
          (record s { main = verifying (k + 1); errors = (k, s.shared.buf k) ∷ s.errors })
  verified :
      (k : ℕ) {m : Shared}
      → s.main ≡ verifying k
      → npos ≤ k
      → program.verify_end nthr s.shared m
      → Step program npos nthr s (record s { shared = m; main = done })

abbrev pub start : System
start = record {
  shared = record { buf = λ k. 0; pos = 0; val = 0; mutex = none };
  fill = λ i. locking;
  counts = λ i. 0;
  main = creating 0;
  total = 0;
  errors = [];
}

-- A run of `steps` steps of the program, and the state behind it.
pub data Run (program : Program) (npos nthr : ℕ) : ℕ → System → Type 0 where
  here : Run program npos nthr 0 start
  next :
      {steps : ℕ} {s t : System}
      → Run program npos nthr steps s
      → Step program npos nthr s t
      → Run program npos nthr (suc steps) t

-- `npos` and `nthr` of the command.
abbrev pub npos_of : Bytes → ℕ
npos_of a = limit_to max_elems (atoi a)

abbrev pub nthr_of : Bytes → ℕ
nthr_of a = limit_to max_threads (atoi a)
