-- ===== src/Exercises/Fill/Locked.antt =====
-- Exercises/prob07/p3.c: as p1a.c, with a mutex around the loop of `verify`.
use feup_sope.Base.{ℕ, ◌≡◌, none, some}
use feup_sope.Exercises.Fill.{Shared, FillMove, Program}

abbrev pub VerifyLock : ℕ → Shared → Shared → Type 0
VerifyLock n m m' = (m.mutex ≡ none) × (m' ≡ record m { mutex = some n })

abbrev pub VerifyUnlock : ℕ → Shared → Shared → Type 0
VerifyUnlock n m m' = m' ≡ record m { mutex = none }

abbrev pub p3 : Program
p3 = record { FillMoves = FillMove; verify_begin = VerifyLock; verify_end = VerifyUnlock }
