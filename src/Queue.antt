-- ===== src/Queue.antt =====
-- Project2/source/list_queue.h: the queue of requests, a linked list on the heap.
pub mod Refinement
pub mod Runs
use feup_sope.Base.{ℕ, suc, ◌+◌, ◌-◌, Option, none, some, update}

-- `node_t`. A pointer is an address, and `none` is NULL.
pub record Node (A : Type 0) : Type 0 where
  pub request : A
  pub next : Option ℕ

-- `list_queue_t` with the heap that its nodes lie on: `cells a` is `none` where no node is
-- allocated at `a`, and `fresh` is the address that `malloc` hands out next.
pub record ListQueue (A : Type 0) : Type 0 where
  pub head : Option ℕ
  pub back : Option ℕ
  pub size : ℕ
  pub cells : ℕ → Option (Node A)
  pub fresh : ℕ

module _ {A : Type 0} where
  -- `new_data`: a node of its own, whose `next` is NULL.
  abbrev pub allocate : ListQueue A → A → ListQueue A
  allocate q request = record q {
    cells = update q.cells q.fresh (some (record { request = request; next = none }));
    fresh = suc q.fresh;
  }

  -- `p->next = a`: the whole run is `none` where `p` points to no node.
  abbrev pub set_next : ListQueue A → Option ℕ → ℕ → Option (ListQueue A)
  set_next q none a = none
  set_next q (some p) a = elim (q.cells p) [
    | none ↦ none
    | some n ↦ some (record q { cells = update q.cells p (some (record n { next = some a })) })
  ]

  -- `list_queue_push`, by the test on `head`.
  abbrev pub link : Option ℕ → ListQueue A → ℕ → Option (ListQueue A)
  link none q a = some (record q { head = some a; back = some a; size = q.size + 1 })
  link (some h) q a = elim (set_next q q.back a) [
    | none ↦ none
    | some q' ↦ some (record q' { back = some a; size = q'.size + 1 })
  ]

  unfoldable pub list_queue_push : ListQueue A → A → Option (ListQueue A)
  list_queue_push q request = link q.head (allocate q request) q.fresh

  -- `list_queue_pop`, by the test on `head`. The node is freed.
  abbrev pub unlink : Option ℕ → ListQueue A → Option (ListQueue A)
  unlink none q = some q
  unlink (some a) q = elim (q.cells a) [
    | none ↦ none
    | some n ↦ some (record q { head = n.next; size = q.size - 1; cells = update q.cells a none })
  ]

  unfoldable pub list_queue_pop : ListQueue A → Option (ListQueue A)
  list_queue_pop q = unlink q.head q

  -- `req_queue->head->request`
  abbrev pub request_at : Option ℕ → ListQueue A → Option A
  request_at none q = none
  request_at (some a) q = elim (q.cells a) [ none ↦ none | some n ↦ some n.request ]

  unfoldable pub list_queue_front : ListQueue A → Option A
  list_queue_front q = request_at q.head q

  -- `list_queue_init`, over a heap that holds no node. The function pointers are the four above.
  unfoldable pub list_queue_init : ListQueue A
  list_queue_init = record { head = none; back = none; size = 0; cells = λ _. none; fresh = 0 }
