-- ===== src/Exercises/Limit/Race/Excess.antt =====
-- A run of p02.c of Exercises/prob06, and its total.
use feup_sope.Base.{ℕ, zero, suc, ◌+◌, ◌<◌, ◌≡◌, refl, sym, ap, arith, update, ◌-◌}
use mathlib.Core.Path.{subst}
use feup_sope.Base.Word.{ℤ, pos, negsuc}
use feup_sope.Exercises.Limit.{
  Shared, Pc, less_one, locking, taking, writing, counting, finished, System, joining_a, done,
  by_thread, join_a, join_b, start_with, Reach, here, next,
}
use feup_sope.Exercises.Limit.Race.{RaceMove, empty, more, take, write, count}

-- A run behind which the threads are where they are, have counted so much, and the limit is this.
record At (limit : ℕ) (z : ℤ) (p q : Pc) (v w : ℕ) : Type 0 where
  state : System
  reach : Reach RaceMove limit state
  main : state.main ≡ joining_a
  rest : state.shared.limit ≡ z
  first : state.at 0 ≡ p
  second : state.at 1 ≡ q
  wrote : state.written 0 ≡ v
  wrote' : state.written 1 ≡ w

by_first :
    {limit : ℕ} {z : ℤ} {p q : Pc} {v w : ℕ} (a : At limit z p q v w) {m : Shared} {v' : ℕ}
    (p' : Pc) (z' : ℤ) (v'' : ℕ)
    → RaceMove 0 a.state.shared (a.state.written 0) p m v' p'
    → m.limit ≡ z'
    → v' ≡ v''
    → At limit z' p' q v'' w
by_first a {m = m} {v' = v'} p' z' v'' move ez ev = record {
  state = record a.state {
    shared = m;
    at = update a.state.at 0 p';
    written = update a.state.written 0 v';
  };
  reach = next a.reach (
      by_thread 0 (omega arith)
        (subst (λ x. RaceMove 0 a.state.shared (a.state.written 0) x m v' p') (sym a.first) move));
  main = a.main;
  rest = ez;
  first = refl;
  second = a.second;
  wrote = ev;
  wrote' = a.wrote';
}

by_second :
    {limit : ℕ} {z : ℤ} {p q : Pc} {v w : ℕ} (a : At limit z p q v w) {m : Shared} {w' : ℕ}
    (q' : Pc) (z' : ℤ) (w'' : ℕ)
    → RaceMove 1 a.state.shared (a.state.written 1) q m w' q'
    → m.limit ≡ z'
    → w' ≡ w''
    → At limit z' p q' v w''
by_second a {m = m} {w' = w'} q' z' w'' move ez ew = record {
  state = record a.state {
    shared = m;
    at = update a.state.at 1 q';
    written = update a.state.written 1 w';
  };
  reach = next a.reach (
      by_thread 1 (omega arith)
        (subst (λ x. RaceMove 1 a.state.shared (a.state.written 1) x m w' q') (sym a.second) move));
  main = a.main;
  rest = ez;
  first = a.first;
  second = refl;
  wrote = a.wrote;
  wrote' = ew;
}

-- The first thread writes a character while the second stands.
round :
    {limit : ℕ} (n : ℕ) {q : Pc} {v w : ℕ}
    → At limit (pos (suc n)) locking q v w
    → At limit (pos n) locking q (v + 1) w
round n {v = v} a =
    let b = by_first a taking (pos (suc n)) v (more (rw a.rest refl)) a.rest a.wrote in
    let c = by_first b writing (pos n) v take (ap less_one b.rest) b.wrote in
    let d = by_first c counting (pos n) v write c.rest c.wrote in
    by_first d locking (pos n) (v + 1) count d.rest (ap (λ k. k + 1) d.wrote)

-- It goes on until one is left.
rounds :
    {limit : ℕ} (n v : ℕ)
    → At limit (pos (suc n)) locking locking v 0
    → At limit (pos 1) locking locking (n + v) 0
rounds {limit} zero v a =
    let e : v ≡ zero + v = omega arith in subst (λ k. At limit (pos 1) locking locking k 0) e a
rounds {limit} (suc n) v a =
    let e : n + (v + 1) ≡ suc n + v = omega arith in
    subst (λ k. At limit (pos 1) locking locking k 0) e (rounds n (v + 1) (round (suc n) a))

-- Both threads have found that one is left, and have taken it.
both :
    {limit v : ℕ}
    → At limit (pos 1) locking locking v 0
    → At limit (negsuc 0) finished finished (v + 1) 1
both {limit} {v} a =
    let b = by_second a taking (pos 1) 0 (more (rw a.rest refl)) a.rest a.wrote' in
    let c = round 0 b in
    let d = by_second c writing (negsuc 0) 0 take (ap less_one c.rest) c.wrote' in
    let e = by_second d counting (negsuc 0) 0 write d.rest d.wrote' in
    let f = by_second e locking (negsuc 0) 1 count e.rest (ap (λ k. k + 1) e.wrote') in
    let g = by_second f finished (negsuc 0) 1 (empty (rw f.rest refl)) f.rest f.wrote' in
    by_first g finished (negsuc 0) (v + 1) (empty (rw g.rest refl)) g.rest g.wrote

-- Without the mutex, and with any limit above 0, there is a run of p02.c that ends with a total of one
-- more than the limit.
pub p02-excess :
    (limit : ℕ)
    → 0 < limit
    → (s : System) × Reach RaceMove limit s
      × (s.main ≡ done)
      × (s.total ≡ limit + 1)
      × (s.shared.limit ≡ negsuc 0)
p02-excess limit some =
    let full : suc (limit - 1) ≡ limit = omega (arith, some) in
    let a : At limit (pos limit) locking locking 0 0 = record {
      state = start_with limit;
      reach = here;
      main = refl;
      rest = refl;
      first = refl;
      second = refl;
      wrote = refl;
      wrote' = refl;
    } in
    let b =
      both
        (rounds (limit - 1) 0 (subst (λ k. At limit (pos k) locking locking 0 0) (sym full) a)) in
    let c = next b.reach (join_a b.main b.first) in
    (_, next c (join_b refl b.second), refl, omega (arith, b.wrote, b.wrote', some), b.rest)
