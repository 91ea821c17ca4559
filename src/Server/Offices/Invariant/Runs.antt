-- ===== src/Server/Offices/Invariant/Runs.antt =====
-- The invariant of the threads of server.c in every reachable state.
use feup_sope.Base.{ℕ, refl, List, [], arith, total-eq_zero}
use feup_sope.Bank.Types.{Request}
use feup_sope.Bank.State.{Host, Bank}
use feup_sope.Queue.Refinement.{init-Represents}
use feup_sope.Server.Offices.{at_loop, System, Step, by_main, by_office, start, Reach, here, next}
use feup_sope.Server.Offices.Invariant.{ready, Inv}
use feup_sope.Server.Offices.Invariant.OfficeMoves.{OfficeMove-Inv}
use feup_sope.Server.Offices.Invariant.MainMoves.{MainMove-Inv}

Step-Inv :
    {host : Host} {n : ℕ} {s t : System} {xs : List Request}
    → Inv n s.shared s.main s.office xs
    → Step host n s t
    → (ys : List Request) × Inv n t.shared t.main t.office ys
Step-Inv inv (by_main mv) = MainMove-Inv inv mv
Step-Inv inv (by_office i lt mv) = OfficeMove-Inv i inv lt refl mv

start-Inv : (n : ℕ) (b : Bank) → Inv n (start b).shared (start b).main (start b).office []
start-Inv n b = record {
  content = init-Represents Request;
  fifo = refl;
  posted = λ h. omega (arith, total-eq_zero ready n (λ _. at_loop) (λ i. refl));
  idle = λ h. cc;
  held = λ i h. cc;
  main_held = λ req h. cc;
  ending = λ k h. cc;
}

pub Reach-Inv :
    {host : Host} {n : ℕ} {b : Bank} {s : System}
    → Reach host n b s
    → (xs : List Request) × Inv n s.shared s.main s.office xs
Reach-Inv {n} {b} here = ([], start-Inv n b)
Reach-Inv (next r st) = let (xs, inv) = Reach-Inv r in Step-Inv inv st
