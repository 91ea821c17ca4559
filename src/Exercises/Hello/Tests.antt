-- ===== src/Exercises/Hello/Tests.antt =====
-- Runs of the programs of Exercises/prob06 whose threads print their numbers.
use feup_sope.Base.{◌≡◌, refl, arith, [], ◌∷◌}
use feup_sope.Exercises.Hello.{
  Program, World, hello, thread_id, creating, in_threads, announces, creates, counts, leaves, reads,
  says, identifies, Reach, here, next, p03, p04a,
}

-- The first thread has returned before the second is created.
abbrev first_returned : (s : World) × Reach p04a s
first_returned = (
  _,
  next
      (next
        (next (next (next (next here (announces refl (omega arith))) (creates refl)) (counts refl))
          (reads 0 (omega arith) (in_threads refl) refl))
        (says 0 0 (omega arith) (in_threads refl) refl))
      (identifies 0 (omega arith) (in_threads refl) refl),
)

first_line : first_returned.0.screen ≡ thread_id 0 ∷ hello 0 ∷ []
first_line = refl

-- p03.c with two threads: both read `t` when main has left its loop.
abbrev two : Program
two = record p03 { num_threads = 2 }

abbrev both_late : (s : World) × Reach two s
both_late = (
  _,
  next
      (next
        (next
          (next
            (next
              (next
                (next
                  (next
                    (next (next (next here (announces refl (omega arith))) (creates refl))
                      (counts refl))
                    (announces refl (omega arith)))
                  (creates refl))
                (counts refl))
              (leaves refl (omega arith)))
            (reads 0 (omega arith) (in_threads refl) refl))
          (reads 1 (omega arith) (in_threads refl) refl))
        (says 0 2 (omega arith) (in_threads refl) refl))
      (says 1 2 (omega arith) (in_threads refl) refl),
)

same_number : both_late.0.screen ≡ hello 2 ∷ hello 2 ∷ creating 1 ∷ creating 0 ∷ []
same_number = refl
