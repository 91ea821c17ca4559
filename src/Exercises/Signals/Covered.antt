-- ===== src/Exercises/Signals/Covered.antt =====
-- What holds of the counter of Exercises/prob04/p3b.c, the calls of its handler and its lines in every
-- reachable state.
use feup_sope.Base.{
  ℕ, zero, suc, ◌+◌, ◌≤◌, ◌≡◌, ap, arith, Bool, true, false, List, [], ◌∷◌, length, All,
}
use mathlib.Core.Path.{subst}
use feup_sope.Base.Word.{ℤ, pos, negsuc}
use feup_sope.Exercises.Signals.{
  Signal, sigusr1, sigusr2, Stage, entered, read_v, printing, Call, Pending, is_pending,
  set_pending, stored, World, Step, sends, terminates, installs, killed, terminated, delivers,
  reads, writes, prints,
}

-- The absolute value.
abbrev pub size : ℤ → ℕ
size (pos n) = n
size (negsuc n) = n + 1

size-stored : (sig : Signal) (v : ℤ) → size (stored sig v) ≤ size v + 1
size-stored sigusr1 (pos n) = omega arith
size-stored sigusr1 (negsuc zero) = omega arith
size-stored sigusr1 (negsuc (suc n)) = omega arith
size-stored sigusr2 (pos zero) = omega arith
size-stored sigusr2 (pos (suc n)) = omega arith
size-stored sigusr2 (negsuc n) = omega arith

abbrev pub as_one : Bool → ℕ
as_one true = 1
as_one false = 0

-- The signals that have not changed `v` yet: pending, or in a call that has not written it.
abbrev pub waiting : Pending → ℕ
waiting p = as_one p.usr1 + as_one p.usr2

abbrev pub unwritten : Stage → ℕ
unwritten entered = 1
unwritten (read_v v) = 1
unwritten (printing v) = 0

abbrev pub unwritten_all : List Call → ℕ
unwritten_all [] = 0
unwritten_all (c ∷ calls) = unwritten c.stage + unwritten_all calls

abbrev pub busy : World → ℕ
busy s = waiting s.pending + unwritten_all s.calls

-- What a call has read of `v`, with the signals sent and those that have not changed `v` yet.
abbrev pub Fits : ℕ → ℕ → Stage → Type 0
Fits sent waits entered = Unit
Fits sent waits (read_v v) = size v + waits ≤ sent
Fits sent waits (printing v) = size v ≤ sent

Fits-more :
    (sent waits sent' waits' : ℕ) (c : Stage)
    → sent ≤ sent'
    → waits' + sent ≤ waits + sent'
    → Fits sent waits c
    → Fits sent' waits' c
Fits-more sent waits sent' waits' entered le le' h = tt
Fits-more sent waits sent' waits' (read_v v) le le' h = omega (arith, le', h)
Fits-more sent waits sent' waits' (printing v) le le' h = omega (arith, le, h)

abbrev pub AllFit : ℕ → ℕ → List Call → Type 0
AllFit sent waits calls = All (λ c. Fits sent waits c.stage) calls

AllFit-more :
    (sent waits sent' waits' : ℕ) (calls : List Call)
    → sent ≤ sent'
    → waits' + sent ≤ waits + sent'
    → AllFit sent waits calls
    → AllFit sent' waits' calls
AllFit-more sent waits sent' waits' [] le le' h = tt
AllFit-more sent waits sent' waits' (c ∷ calls) le le' h = (
  Fits-more sent waits sent' waits' c.stage le le' h.0,
  AllFit-more sent waits sent' waits' calls le le' h.1,
)

Shown-more :
    (sent sent' : ℕ) (screen : List ℤ)
    → sent ≤ sent'
    → All (λ v. size v ≤ sent) screen
    → All (λ v. size v ≤ sent') screen
Shown-more sent sent' [] le h = tt
Shown-more sent sent' (v ∷ screen) le h =
    (omega (arith, le, h.0), Shown-more sent sent' screen le h.1)

-- What has been sent covers the value of `v`, what the calls have read of it, and what is printed.
pub record Covered (s : World) : Type 0 where
  pub v_fits : size s.v + busy s ≤ s.sent
  pub calls_fit : AllFit s.sent (busy s) s.calls
  pub shown : All (λ v. size v ≤ s.sent) s.screen
  pub lines : length s.screen + waiting s.pending + length s.calls ≤ s.sent

waiting-true : (sig : Signal) (p : Pending) → waiting (set_pending sig true p) ≤ waiting p + 1
waiting-true sigusr1 p = omega arith
waiting-true sigusr2 p = omega arith

waiting-false :
    (sig : Signal) (p : Pending)
    → is_pending sig p ≡ true
    → waiting (set_pending sig false p) + 1 ≡ waiting p
waiting-false sigusr1 p h = rw h (omega arith)
waiting-false sigusr2 p h = rw h (omega arith)

pub step-Covered : {s t : World} → Step s t → Covered s → Covered t
step-Covered {s} (sends i sig e lt) v =
    let w : waiting (set_pending sig true s.pending) ≤ waiting s.pending + 1 =
      waiting-true sig s.pending in
    record {
      v_fits = omega (arith, v.v_fits, w);
      calls_fit =
          AllFit-more s.sent (busy s) (s.sent + 1)
            (waiting (set_pending sig true s.pending) + unwritten_all s.calls) s.calls (omega arith)
            (omega (arith, w)) v.calls_fit;
      shown = Shown-more s.sent (s.sent + 1) s.screen (omega arith) v.shown;
      lines = omega (arith, v.lines, w);
    }
step-Covered (terminates i e le) v = record {
  v_fits = v.v_fits;
  calls_fit = v.calls_fit;
  shown = v.shown;
  lines = v.lines;
}
step-Covered (installs e) v = record {
  v_fits = v.v_fits;
  calls_fit = v.calls_fit;
  shown = v.shown;
  lines = v.lines;
}
step-Covered (killed sig e h) v = record {
  v_fits = v.v_fits;
  calls_fit = v.calls_fit;
  shown = v.shown;
  lines = v.lines;
}
step-Covered (terminated h) v = record {
  v_fits = v.v_fits;
  calls_fit = v.calls_fit;
  shown = v.shown;
  lines = v.lines;
}
step-Covered {s} (delivers sig e h b) v =
    let w : waiting (set_pending sig false s.pending) + 1 ≡ waiting s.pending =
      waiting-false sig s.pending h in
    record {
      v_fits = omega (arith, v.v_fits, w);
      calls_fit = (
        tt,
        AllFit-more s.sent (busy s) s.sent
            (waiting (set_pending sig false s.pending) + (1 + unwritten_all s.calls)) s.calls
            (omega arith) (omega (arith, w)) v.calls_fit,
      );
      shown = v.shown;
      lines = omega (arith, v.lines, w);
    }
step-Covered {s} (reads sig calls e h) v =
    let old : AllFit s.sent (busy s) (record { signo = sig; stage = entered } ∷ calls) =
      subst (λ c. AllFit s.sent (busy s) c) h v.calls_fit in
    let same : unwritten_all s.calls ≡ 1 + unwritten_all calls = ap unwritten_all h in
    record {
      v_fits = omega (arith, v.v_fits, same);
      calls_fit = (
        omega (arith, v.v_fits, same),
        AllFit-more s.sent (busy s) s.sent (waiting s.pending + (1 + unwritten_all calls)) calls
            (omega arith) (omega (arith, same)) old.1,
      );
      shown = v.shown;
      lines = omega (arith, v.lines, ap length h);
    }
step-Covered {s} (writes sig x calls e h) v =
    let old : AllFit s.sent (busy s) (record { signo = sig; stage = read_v x } ∷ calls) =
      subst (λ c. AllFit s.sent (busy s) c) h v.calls_fit in
    let same : unwritten_all s.calls ≡ 1 + unwritten_all calls = ap unwritten_all h in
    record {
      v_fits = omega (arith, old.0, same, size-stored sig x);
      calls_fit = (
        omega (arith, old.0),
        AllFit-more s.sent (busy s) s.sent (waiting s.pending + (0 + unwritten_all calls)) calls
            (omega arith) (omega (arith, same)) old.1,
      );
      shown = v.shown;
      lines = omega (arith, v.lines, ap length h);
    }
step-Covered {s} (prints sig x calls e h) v =
    let old : AllFit s.sent (busy s) (record { signo = sig; stage = printing x } ∷ calls) =
      subst (λ c. AllFit s.sent (busy s) c) h v.calls_fit in
    let same : unwritten_all s.calls ≡ 0 + unwritten_all calls = ap unwritten_all h in
    record {
      v_fits = omega (arith, v.v_fits, same);
      calls_fit =
          AllFit-more s.sent (busy s) s.sent (waiting s.pending + unwritten_all calls) calls
            (omega arith) (omega (arith, same)) old.1;
      shown = (old.0, v.shown);
      lines = omega (arith, v.lines, ap length h);
    }
