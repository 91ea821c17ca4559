-- ===== src/Exercises/Signals.antt =====
-- Exercises/prob04/p3b.c, behind a fork that succeeds: a father that sends a child signals, whose
-- handler counts them up and down.
pub mod Covered
pub mod Bounds
mod Tests
use feup_sope.Base.{
  ℕ, zero, suc, ◌+◌, ◌≤◌, ◌<◌, ◌≡◌, Bool, true, false, List, [], ◌∷◌, if◌then◌else◌, ◌||◌,
}
use feup_sope.Base.Word.{ℤ, pos, negsuc}

pub data Signal : Type 0 where
  sigusr1 sigusr2 : Signal

-- `v++` and `v--`
abbrev pub one_more : ℤ → ℤ
one_more (pos n) = pos (n + 1)
one_more (negsuc zero) = pos 0
one_more (negsuc (suc n)) = negsuc n

abbrev pub one_less : ℤ → ℤ
one_less (pos zero) = negsuc 0
one_less (pos (suc n)) = pos n
one_less (negsuc n) = negsuc (n + 1)

-- Where a call of `sigint_handler` stands. `v++` reads `v` and then writes it.
pub data Stage : Type 0 where
  entered : Stage
  read_v : ℤ → Stage
  printing : ℤ → Stage  -- the value before

pub record Call : Type 0 where
  pub signo : Signal
  pub stage : Stage

-- Which signals of a kind are pending: those that are sent in between are one.
pub record Pending : Type 0 where
  pub usr1 : Bool
  pub usr2 : Bool
  pub term : Bool

abbrev pub is_pending : Signal → Pending → Bool
is_pending sigusr1 p = p.usr1
is_pending sigusr2 p = p.usr2

abbrev pub set_pending : Signal → Bool → Pending → Pending
set_pending sigusr1 b p = record p { usr1 = b }
set_pending sigusr2 b p = record p { usr2 = b }

abbrev pub stored : Signal → ℤ → ℤ
stored sigusr1 v = one_more v
stored sigusr2 v = one_less v

abbrev is_signal : Signal → Signal → Bool
is_signal sigusr1 sigusr1 = true
is_signal sigusr2 sigusr2 = true
is_signal a b = false

-- A signal is blocked while its handler runs; the other one is not.
abbrev pub is_blocked : Signal → List Call → Bool
is_blocked s [] = false
is_blocked s (c ∷ calls) = is_signal s c.signo || is_blocked s calls

pub data Life : Type 0 where
  starting ready dead : Life  -- before the handlers are installed, behind, and behind the end

pub data FatherPc : Type 0 where
  sending : ℕ → FatherPc  -- before the test of the loop
  exited : FatherPc

-- `calls` are the calls of the handler, the last one first, which others have been interrupted for.
pub record World : Type 0 where
  pub father : FatherPc
  pub sent : ℕ
  pub life : Life
  pub pending : Pending
  pub calls : List Call
  pub v : ℤ
  pub screen : List ℤ  -- the last line first

pub data Step (s : World) : World → Type 0 where
  -- `kill(pid, SIGUSR2)` or `kill(pid, SIGUSR1)`, by chance.
  sends :
      (i : ℕ) (sig : Signal)
      → s.father ≡ sending i
      → i < 50
      → Step s (record s {
        father = sending (i + 1);
        sent = s.sent + 1;
        pending = set_pending sig true s.pending;
      })
  terminates :
      (i : ℕ)
      → s.father ≡ sending i
      → 50 ≤ i
      → Step s (record s { father = exited; pending = record s.pending { term = true } })
  installs : s.life ≡ starting → Step s (record s { life = ready })
  -- A signal ends a child that has no handler for it.
  killed :
      (sig : Signal)
      → s.life ≡ starting
      → is_pending sig s.pending ≡ true
      → Step s (record s { life = dead })
  terminated : s.pending.term ≡ true → Step s (record s { life = dead })
  delivers :
      (sig : Signal)
      → s.life ≡ ready
      → is_pending sig s.pending ≡ true
      → is_blocked sig s.calls ≡ false
      → Step s (record s {
        pending = set_pending sig false s.pending;
        calls = record { signo = sig; stage = entered } ∷ s.calls;
      })
  reads :
      (sig : Signal) (calls : List Call)
      → s.life ≡ ready
      → s.calls ≡ record { signo = sig; stage = entered } ∷ calls
      → Step s (record s { calls = record { signo = sig; stage = read_v s.v } ∷ calls })
  writes :
      (sig : Signal) (v : ℤ) (calls : List Call)
      → s.life ≡ ready
      → s.calls ≡ record { signo = sig; stage = read_v v } ∷ calls
      → Step s (record s {
        v = stored sig v;
        calls = record { signo = sig; stage = printing v } ∷ calls;
      })
  prints :
      (sig : Signal) (v : ℤ) (calls : List Call)
      → s.life ≡ ready
      → s.calls ≡ record { signo = sig; stage = printing v } ∷ calls
      → Step s (record s { calls = calls; screen = v ∷ s.screen })

abbrev pub start : World
start = record {
  father = sending 0;
  sent = 0;
  life = starting;
  pending = record { usr1 = false; usr2 = false; term = false };
  calls = [];
  v = pos 0;
  screen = [];
}

pub data Reach : World → Type 0 where
  here : Reach start
  next : {s t : World} → Reach s → Step s t → Reach t
