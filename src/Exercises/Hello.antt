-- ===== src/Exercises/Hello.antt =====
-- Exercises/prob06: p03.c, p03b.c, p03c.c, p04a.c, p04b.c and p04c.c, in which threads print their
-- numbers.
pub mod Numbers
mod Tests
use feup_sope.Base.{
  ℕ, ◌+◌, ◌≤◌, ◌<◌, ◌≡◌, ◌≢◌, if◌then◌else◌, Bool, true, false, Option, none, some, List, [], ◌∷◌,
  update,
}

-- A thread in `PrintHello`.
pub data Thread : Type 0 where
  not_created : Thread
  started : Thread  -- before `*(int *)threadnum`
  saying : ℕ → Thread  -- before the line with what this was
  said : Thread  -- before the line with its identifier
  returned : Thread

pub data Line : Type 0 where
  creating : ℕ → Line
  hello : ℕ → Line
  thread_id : ℕ → Line

-- How `main` ends.
pub data MainEnd : Type 0 where
  pthread_exit exit : MainEnd

-- What the programs differ in: NUM_THREADS; whether a thread is given the address of `t`, or of a
-- number of its own; what "Creating thread %d" adds to `t`, where it is printed; whether a thread prints
-- its identifier; and whether the loop joins it and prints what it returns.
pub record Program : Type 0 where
  pub num_threads : ℕ
  pub shares_t : Bool
  pub announces : Option ℕ
  pub prints_id : Bool
  pub joins : Bool
  pub ends : MainEnd

abbrev pub p03 : Program
p03 = record {
  num_threads = 10;
  shares_t = true;
  announces = some 0;
  prints_id = false;
  joins = false;
  ends = pthread_exit;
}

abbrev pub p03b : Program
p03b = record {
  num_threads = 10;
  shares_t = true;
  announces = some 1;
  prints_id = false;
  joins = false;
  ends = pthread_exit;
}

abbrev pub p03c : Program
p03c = record {
  num_threads = 10;
  shares_t = true;
  announces = some 1;
  prints_id = false;
  joins = false;
  ends = exit;
}

abbrev pub p04a : Program
p04a = record {
  num_threads = 20;
  shares_t = false;
  announces = none;
  prints_id = true;
  joins = false;
  ends = pthread_exit;
}

abbrev pub p04b : Program
p04b = record {
  num_threads = 20;
  shares_t = false;
  announces = none;
  prints_id = true;
  joins = false;
  ends = pthread_exit;
}

abbrev pub p04c : Program
p04c = record {
  num_threads = 20;
  shares_t = false;
  announces = none;
  prints_id = false;
  joins = true;
  ends = pthread_exit;
}

-- Where `main` stands: before the test of the loop, before pthread_create, before pthread_join,
-- before `t++`, or behind its end.
pub data MainPc : Type 0 where
  testing announced joining counting left : MainPc

-- `t`, which is what the threads see of the stack of `main`, behind its end too.
pub record World : Type 0 where
  pub t : ℕ
  pub main : MainPc
  pub thread : ℕ → Thread
  pub screen : List Line  -- the last line first

-- The number that thread `i` reads.
abbrev pub number : Program → ℕ → ℕ → ℕ
number p t i = if p.shares_t then t else i

abbrev pub announced_line : Option ℕ → ℕ → List Line → List Line
announced_line none t lines = lines
announced_line (some more) t lines = creating (t + more) ∷ lines

-- Where a thread stands behind its first line.
abbrev pub behind_hello : Bool → Thread
behind_hello true = said
behind_hello false = returned

-- A process has ended when `main` has called exit.
pub data IsUp (p : Program) (s : World) : Type 0 where
  in_main : s.main ≢ left → IsUp p s
  in_threads : p.ends ≡ pthread_exit → IsUp p s

pub data Step (p : Program) (s : World) : World → Type 0 where
  announces :
      s.main ≡ testing
      → s.t < p.num_threads
      → Step p s (record s { main = announced; screen = announced_line p.announces s.t s.screen })
  creates :
      s.main ≡ announced
      → Step p s (record s {
        main = if p.joins then joining else counting;
        thread = update s.thread s.t started;
      })
  joins :
      s.main ≡ joining
      → s.thread s.t ≡ returned
      → Step p s (record s { main = counting; screen = thread_id s.t ∷ s.screen })
  counts : s.main ≡ counting → Step p s (record s { main = testing; t = s.t + 1 })
  leaves : s.main ≡ testing → p.num_threads ≤ s.t → Step p s (record s { main = left })
  reads :
      (i : ℕ)
      → i < p.num_threads
      → IsUp p s
      → s.thread i ≡ started
      → Step p s (record s { thread = update s.thread i (saying (number p s.t i)) })
  says :
      (i n : ℕ)
      → i < p.num_threads
      → IsUp p s
      → s.thread i ≡ saying n
      → Step p s (record s {
        thread = update s.thread i (behind_hello p.prints_id);
        screen = hello n ∷ s.screen;
      })
  identifies :
      (i : ℕ)
      → i < p.num_threads
      → IsUp p s
      → s.thread i ≡ said
      → Step p s (record s { thread = update s.thread i returned; screen = thread_id i ∷ s.screen })

abbrev pub start : World
start = record { t = 0; main = testing; thread = λ i. not_created; screen = [] }

pub data Reach (p : Program) : World → Type 0 where
  here : Reach p start
  next : {s t : World} → Reach p s → Step p s t → Reach p t
