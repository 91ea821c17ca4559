-- ===== src/Exercises/Signals/Tests.antt =====
-- A run of Exercises/prob04/p3b.c in which one call of the handler interrupts another.
use feup_sope.Base.{◌≤◌, ◌≡◌, refl, arith, [], ◌∷◌, All}
use feup_sope.Base.Word.{pos}
use feup_sope.Exercises.Signals.{
  World, sigusr1, sigusr2, sends, installs, delivers, reads, writes, prints, Reach, here, next,
}
use feup_sope.Exercises.Signals.Bounds.{p3b-IsBounded}
use feup_sope.Exercises.Signals.Covered.{size}

-- SIGUSR2 comes between the reading and the writing of `v` for SIGUSR1.
abbrev interrupted : (s : World) × Reach s
interrupted = (
  _,
  next
      (next
        (next
          (next
            (next
              (next
                (next
                  (next
                    (next
                      (next (next here (sends 0 sigusr1 refl (omega arith)))
                        (sends 1 sigusr2 refl (omega arith)))
                      (installs refl))
                    (delivers sigusr1 refl refl refl))
                  (reads sigusr1 [] refl refl))
                (delivers sigusr2 refl refl refl))
              (reads sigusr2 _ refl refl))
            (writes sigusr2 (pos 0) _ refl refl))
          (prints sigusr2 (pos 0) _ refl refl))
        (writes sigusr1 (pos 0) [] refl refl))
      (prints sigusr1 (pos 0) [] refl refl),
)

-- Both have been counted, and `v` is 1.
one_lost : interrupted.0.v ≡ pos 1
one_lost = refl

p3b-IsBounded_example : (2 ≤ 50) × (1 ≤ 2) × (2 ≤ 2) × All (λ v. size v ≤ 2) (pos 0 ∷ pos 0 ∷ [])
p3b-IsBounded_example = p3b-IsBounded interrupted.1
