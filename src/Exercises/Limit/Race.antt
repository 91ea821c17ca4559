-- ===== src/Exercises/Limit/Race.antt =====
-- Exercises/prob06/p02.c: as p2.c of prob07, without the mutex and with another limit.
pub mod Excess
use feup_sope.Base.{ℕ, ◌+◌, ◌≡◌, true, false}
use feup_sope.Exercises.Limit.{
  Shared, Pc, is_positive, less_one, locking, taking, writing, counting, finished,
}

-- A step of thread `i`; `locking` is the test of the loop.
pub data RaceMove (i : ℕ) (m : Shared) (w : ℕ) : Pc → Shared → ℕ → Pc → Type 0 where
  empty : is_positive m.limit ≡ false → RaceMove i m w locking m w finished
  more : is_positive m.limit ≡ true → RaceMove i m w locking m w taking
  take : RaceMove i m w taking (record m { limit = less_one m.limit }) w writing
  write : RaceMove i m w writing (record m { screen = m.screen + 1 }) w counting
  count : RaceMove i m w counting m (w + 1) locking

abbrev pub limit_of_p02 : ℕ
limit_of_p02 = 50000
