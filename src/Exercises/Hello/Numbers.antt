-- ===== src/Exercises/Hello/Numbers.antt =====
-- Which numbers the threads of Exercises/prob06 print.
use feup_sope.Base.{ℕ, ◌+◌, ◌≤◌, ◌≡◌, List, [], ◌∷◌, if◌then◌else◌, ◌==◌}
use feup_sope.Exercises.Hello.{
  Thread, not_created, saying, said, returned, Line, hello, MainPc, joining, counting, World,
}

-- How many lines greet with this number.
abbrev pub greetings : ℕ → List Line → ℕ
greetings n [] = 0
greetings n (hello m ∷ lines) = (if n == m then 1 else 0) + greetings n lines
greetings n (line ∷ lines) = greetings n lines

abbrev pub has_said : Thread → ℕ
has_said said = 1
has_said returned = 1
has_said t = 0

-- The threads from here on have not been created.
abbrev created_to : MainPc → ℕ → ℕ
created_to joining t = t + 1
created_to counting t = t + 1
created_to at t = t

-- What holds of each thread that has a number of its own.
abbrev Holds : ℕ → Thread → Type 0
Holds i (saying n) = n ≡ i
Holds i t = Unit

record Inv (s : World) : Type 0 where
  own : (i : ℕ) → greetings i s.screen ≡ has_said (s.thread i)
  holds : (i : ℕ) → Holds i (s.thread i)
  fresh : (i : ℕ) → created_to s.main s.t ≤ i → s.thread i ≡ not_created
