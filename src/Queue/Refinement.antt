-- ===== src/Queue/Refinement.antt =====
-- The linked list of list_queue.h implements a list of requests: push adds at the end, pop and
-- front take from the start.
use feup_sope.Base.{
  ℕ, suc, ◌+◌, ◌-◌, ◌≤◌, ◌<◌, ◌≡◌, refl, Option, none, some, List, [], ◌∷◌, ◌++◌, arith, length,
  length-append, update,
}
use mathlib.Core.List.{head?}
use mathlib.Core.Path.{subst}
use feup_sope.Queue.{
  allocate, link, Node, ListQueue, list_queue_push, list_queue_pop, list_queue_front,
  list_queue_init,
}

module _ {A : Type 0} where
  abbrev node : A → Option ℕ → Option (Node A)
  node x n = some (record { request = x; next = n })

  -- From `p` on the nodes hold the list, at rising addresses from `lo` to below `fresh`, and
  -- `back` points to the last.
  abbrev Chain : (ℕ → Option (Node A)) → ℕ → Option ℕ → ℕ → Option ℕ → List A → Type 0
  Chain cells fresh back lo p [] = p ≡ none
  Chain cells fresh back lo p (x ∷ xs) =
      (a : ℕ) × (n : Option ℕ) × (p ≡ some a)
      × (lo ≤ a)
      × (a < fresh)
      × (cells a ≡ node x n)
      × (xs ≡ [] → back ≡ some a)
      × Chain cells fresh back (suc a) n xs

  pub Represents : ListQueue A → List A → Type 0
  Represents q xs = Chain q.cells q.fresh q.back 0 q.head xs × (q.size ≡ length xs)

  -- A chain does not see a write below its addresses or at `fresh`.
  Chain-write :
      (cells : ℕ → Option (Node A)) (fresh : ℕ) (back : Option ℕ) (i : ℕ) (v : Option (Node A))
      (lo : ℕ) (p : Option ℕ) (xs : List A)
      → i < lo
      → Chain cells fresh back lo p xs
      → Chain (update cells i v) fresh back lo p xs
  Chain-write cells fresh back i v lo p [] below c = c
  Chain-write cells fresh back i v lo p (x ∷ xs) below (a, n, e, le, lt, cell, last, rest) = (
    a,
    n,
    e,
    le,
    lt,
    ground arith,
    last,
    Chain-write cells fresh back i v (suc a) n xs (omega arith) rest,
  )

  -- The lower bound of the addresses can be given up.
  Chain-from_zero :
      (cells : ℕ → Option (Node A)) (fresh : ℕ) (back : Option ℕ) (lo : ℕ) (p : Option ℕ)
      (xs : List A)
      → Chain cells fresh back lo p xs
      → Chain cells fresh back 0 p xs
  Chain-from_zero cells fresh back lo p [] c = c
  Chain-from_zero cells fresh back lo p (x ∷ xs) (a, n, e, le, lt, cell, last, rest) =
      (a, n, e, omega arith, lt, cell, last, rest)

  -- The last node of a chain.
  Chain-back :
      (cells : ℕ → Option (Node A)) (fresh : ℕ) (back : Option ℕ) (lo : ℕ) (p : Option ℕ) (x : A)
      (xs : List A)
      → Chain cells fresh back lo p (x ∷ xs)
      → (k : ℕ) × (z : A) × (back ≡ some k) × (lo ≤ k) × (k < fresh) × (cells k ≡ node z none)
  Chain-back cells fresh back lo p x [] (a, n, e, le, lt, cell, last, rest) =
      (a, x, last refl, le, lt, rw rest at cell)
  Chain-back cells fresh back lo p x (y ∷ ys) (a, n, e, le, lt, cell, last, rest) =
      let (k, z, b, lo', lt', c) = Chain-back cells fresh back (suc a) n y ys rest in
      (k, z, b, omega arith, lt', c)

  -- A new node at `fresh` behind the last one, at `k`.
  Chain-push :
      (cells : ℕ → Option (Node A)) (fresh k : ℕ) (z y : A) (lo : ℕ) (p : Option ℕ) (x : A)
      (xs : List A)
      → k < fresh
      → cells k ≡ node z none
      → Chain cells fresh (some k) lo p (x ∷ xs)
      → Chain
          (update (update cells fresh (node y none)) k (node z (some fresh)))
          (suc fresh)
          (some fresh)
          lo
          p
          (x ∷ (xs ++ (y ∷ [])))
  Chain-push cells fresh k z y lo p x [] kf ck (a, n, e, le, lt, cell, last, rest) = (
    a,
    some fresh,
    e,
    le,
    omega arith,
    ground (arith, last refl),
    λ h. cc,
    (fresh, none, refl, omega arith, omega arith, ground arith, λ _. refl, refl),
  )
  Chain-push cells fresh k z y lo p x (x' ∷ xs) kf ck (a, n, e, le, lt, cell, last, rest) =
      let (k', z', b, lo', lt', c) = Chain-back cells fresh (some k) (suc a) n x' xs rest in
      (
        a,
        n,
        e,
        le,
        omega arith,
        ground arith,
        λ h. cc,
        Chain-push cells fresh k z y (suc a) n x' xs kf ck rest,
      )

  -- A push behind a last node at `k`.
  push_linked :
      (q : ListQueue A) (y : A) (a k : ℕ) (z : A)
      → q.head ≡ some a
      → q.back ≡ some k
      → k < q.fresh
      → q.cells k ≡ node z none
      → list_queue_push q y
        ≡ some (record q {
          back = some q.fresh;
          size = q.size + 1;
          cells = update (update q.cells q.fresh (node y none)) k (node z (some q.fresh));
          fresh = suc q.fresh;
        })
  unfolding list_queue_push
  push_linked q y a k z h b kf ck = ground arith

  -- `list_queue_push` adds a request at the end.
  pub push-Represents :
      (q : ListQueue A) (xs : List A) (y : A)
      → Represents q xs
      → (q' : ListQueue A) × (list_queue_push q y ≡ some q') × Represents q' (xs ++ (y ∷ []))
  unfolding Represents list_queue_push
  push-Represents q [] y (chain, size) = (
    record (allocate q y) { head = some q.fresh; back = some q.fresh; size = q.size + 1 },
    rw (chain, link),
    ((q.fresh, none, refl, omega arith, omega arith, ground arith, λ _. refl, refl), omega arith),
  )
  push-Represents q (x ∷ xs) y (chain, size) =
      let (k, z, b, lo, kf, ck) = Chain-back q.cells q.fresh q.back 0 q.head x xs chain in
      let c : Chain q.cells q.fresh (some k) 0 q.head (x ∷ xs) =
        subst (λ v. Chain q.cells q.fresh v 0 q.head (x ∷ xs)) b chain in
      (
        record q {
          back = some q.fresh;
          size = q.size + 1;
          cells = update (update q.cells q.fresh (node y none)) k (node z (some q.fresh));
          fresh = suc q.fresh;
        },
        push_linked q y chain.0 k z chain.2 b kf ck,
        (
          Chain-push q.cells q.fresh k z y 0 q.head x xs kf ck c,
          omega (arith, length-append xs (y ∷ [])),
        ),
      )

  -- `list_queue_pop` takes the first request away, and leaves an empty queue as it is.
  pub pop-Represents :
      (q : ListQueue A) (x : A) (xs : List A)
      → Represents q (x ∷ xs)
      → (q' : ListQueue A) × (list_queue_pop q ≡ some q') × Represents q' xs
  unfolding Represents list_queue_pop
  pop-Represents q x xs ((a, n, e, le, lt, cell, last, rest), size) = (
    record q { head = n; size = q.size - 1; cells = update q.cells a none },
    ground arith,
    (
      Chain-from_zero (update q.cells a none) q.fresh q.back (suc a) n xs
          (Chain-write q.cells q.fresh q.back a none (suc a) n xs (omega arith) rest),
      omega arith,
    ),
  )

  pub pop-Represents_empty : (q : ListQueue A) → Represents q [] → list_queue_pop q ≡ some q
  unfolding Represents list_queue_pop
  pop-Represents_empty q (chain, size) = rw chain

  -- `list_queue_front` reads the first request; on an empty queue it follows a NULL pointer.
  pub front-Represents :
      (q : ListQueue A) (xs : List A) → Represents q xs → list_queue_front q ≡ head? xs
  unfolding Represents list_queue_front
  front-Represents q [] (chain, size) = ground arith
  front-Represents q (x ∷ xs) ((a, n, e, le, lt, cell, last, rest), size) = ground arith

-- A new queue is empty.
pub init-Represents : (A : Type 0) → Represents (list_queue_init {A = A}) []
unfolding Represents list_queue_init
init-Represents A = (refl, refl)

pub size-Represents :
    {A : Type 0} (q : ListQueue A) (xs : List A) → Represents q xs → q.size ≡ length xs
unfolding Represents
size-Represents q xs r = r.1
