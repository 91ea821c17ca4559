-- ===== src/Queue/Runs.antt =====
-- Whole runs of pushes and pops on a new queue of list_queue.h, against the same run on a list.
use mathlib.Core.List.{head?}
use feup_sope.Base.{◌≡◌, refl, Option, none, some, List, [], ◌∷◌, ◌++◌}
use feup_sope.Queue.{ListQueue, list_queue_push, list_queue_pop, list_queue_front, list_queue_init}
use feup_sope.Queue.Refinement.{
  Represents, init-Represents, push-Represents, pop-Represents, pop-Represents_empty,
  front-Represents,
}

pub data QueueOp (A : Type 0) : Type 0 where
  push : A → QueueOp A
  pop : QueueOp A

module _ {A : Type 0} where
  unfoldable pub apply : QueueOp A → ListQueue A → Option (ListQueue A)
  unfolding list_queue_push list_queue_pop
  apply (push x) q = list_queue_push q x
  apply pop q = list_queue_pop q

  unfoldable pub run : List (QueueOp A) → ListQueue A → Option (ListQueue A)
  run [] q = some q
  run (op ∷ ops) q = elim (apply op q) [ none ↦ none | some q' ↦ run ops q' ]

  -- The same on a list.
  abbrev pub drop_first : List A → List A
  drop_first [] = []
  drop_first (x ∷ xs) = xs

  abbrev pub apply_list : QueueOp A → List A → List A
  apply_list (push x) xs = xs ++ (x ∷ [])
  apply_list pop xs = drop_first xs

  abbrev pub run_list : List (QueueOp A) → List A → List A
  run_list [] xs = xs
  run_list (op ∷ ops) xs = run_list ops (apply_list op xs)

  apply-Represents :
      (op : QueueOp A) (q : ListQueue A) (xs : List A)
      → Represents q xs
      → (q' : ListQueue A) × (apply op q ≡ some q') × Represents q' (apply_list op xs)
  unfolding apply
  apply-Represents (push x) q xs r = push-Represents q xs x r
  apply-Represents pop q [] r = (q, pop-Represents_empty q r, r)
  apply-Represents pop q (x ∷ xs) r = pop-Represents q x xs r

  run-Represents :
      (ops : List (QueueOp A)) (q : ListQueue A) (xs : List A)
      → Represents q xs
      → (q' : ListQueue A) × (run ops q ≡ some q') × Represents q' (run_list ops xs)
  unfolding run
  run-Represents [] q xs r = (q, refl, r)
  run-Represents (op ∷ ops) q xs r =
      let (q', e, r') = apply-Represents op q xs r in
      let (q'', e', r'') = run-Represents ops q' (apply_list op xs) r' in (q'', rw (e, run) e', r'')

  -- Any run of pushes and pops on a new queue follows no bad pointer, and at its end `front` reads
  -- the first request of the list that the same run makes (or a NULL pointer, if that is empty).
  pub run-refines_list :
      (ops : List (QueueOp A))
      → (q : ListQueue A) × (run ops list_queue_init ≡ some q)
        × Represents q (run_list ops [])
        × (list_queue_front q ≡ head? (run_list ops []))
  run-refines_list ops =
      let (q, e, r) = run-Represents ops list_queue_init [] (init-Represents A) in
      (q, e, r, front-Represents q (run_list ops []) r)
