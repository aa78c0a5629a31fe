-- ===== src/Schedular/Queue/Links.antt =====
-- The queue with its nodes. A node is a number, and the node of the queue itself is 0; `push` and
-- `pop` are cut where another thread can come in between.
use reblessive.Base.{ℕ, Option, none, some, ◌==◌, if◌then◌else◌}

abbrev pub stub : ℕ
stub = 0

-- `Queue`, and the field `next` of every node
pub record Queue : Type 0 where
  pub head : ℕ
  pub tail : ℕ
  pub next : ℕ → Option ℕ

pub data Pop : Type 0 where
  empty : Pop
  value : ℕ → Pop
  inconsistant : Pop

-- `Queue::new` and `Queue::init`
abbrev pub new : Queue
new = record { head = stub; tail = stub; next = λ _. none }

-- A store to the field `next` of a node
unfoldable pub set_next : ℕ → Option ℕ → (ℕ → Option ℕ) → ℕ → Option ℕ
set_next a n next x = if x == a then n else next x

-- `push` up to the `swap` of the head
unfoldable pub swap_head : ℕ → Queue → Queue
swap_head node q = record q { head = node; next = set_next node none q.next }

-- The end of `push`, from the head that the `swap` returned
unfoldable pub link : ℕ → ℕ → Queue → Queue
link prev node q = record q { next = set_next prev (some node) q.next }

-- `Queue::push`
unfoldable pub push : ℕ → Queue → Queue
push node q = link q.head node (swap_head node q)

-- The end of `Queue::pop`, behind the push of the stub
unfoldable pub pop_linked : ℕ → Queue → Pop × Queue
pop_linked tail q = elim (q.next tail) [
  | none ↦ (empty, q)
  | some n ↦ (value tail, record q { tail = n })
]

-- Here `next` of the last node was null.
unfoldable pub pop_last : ℕ → Queue → Pop × Queue
pop_last tail q = if q.head == tail then pop_linked tail (push stub q) else (inconsistant, q)

-- Here the last node is not the stub.
unfoldable pub pop_node : ℕ → Queue → Pop × Queue
pop_node tail q = elim (q.next tail) [
  | none ↦ pop_last tail q
  | some n ↦ (value tail, record q { tail = n })
]

-- The part of `Queue::pop` that skips the stub
unfoldable pub pop_stub : Queue → Pop × Queue
pop_stub q = elim (q.next stub) [ none ↦ (empty, q) | some n ↦ pop_node n (record q { tail = n }) ]

-- `Queue::pop`
unfoldable pub pop : Queue → Pop × Queue
pop q = if q.tail == stub then pop_stub q else pop_node q.tail q
