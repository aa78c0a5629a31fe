-- ===== src/Schedular/Threads.antt =====
-- src/tree/schedular/queue.rs: `Queue::push` by any number of threads and `Queue::pop` by one, cut
-- into their accesses to memory that the threads share. The memory order of the accesses is that
-- of the interleaving.
pub mod Chain
pub mod Invariant
pub mod Steps
pub mod Takes
pub mod Fifo
pub mod Alone
use reblessive.Base.{
  ℕ, ◌≡◌, ◌≢◌, Bool, true, false, Option, none, some, List, [], ◌∷◌, ◌++◌, ◌==◌, if◌then◌else◌,
}
use reblessive.Schedular.Queue.{
  Queue, Pop, empty, value, inconsistant, stub, new, set_next, link, Missing,
}

-- Where a thread stands in `Queue::push`
pub data Push : Type 0 where
  idle : Push
  clear : ℕ → Push  -- before the store to `next` of the node
  swap : ℕ → Push  -- before the `swap` of the head
  attach : ℕ → ℕ → Push  -- before the store to `next` of the old head

-- The next access of a push
unfoldable pub push_step : Push → Queue → Push × Queue
unfolding set_next link
push_step idle q = (idle, q)
push_step (clear n) q = (swap n, record q { next = set_next n none q.next })
push_step (swap n) q = (attach q.head n, record q { head = n })
push_step (attach prev n) q = (idle, link prev n q)

-- Where the thread stands that pops
pub data Take : Type 0 where
  idle : Take
  read_next : ℕ → Take  -- behind the stub, before the load of `next` of the new tail
  read_head : ℕ → Take  -- before the load of the head
  read_last : ℕ → Take  -- behind the push of the stub, before the last load of `next`

-- What the step of a pop comes to: another step, or the end
pub record Taken : Type 0 where
  pub at : Take
  pub result : Option Pop
  pub queue : Queue
  pub starts : Bool  -- whether it calls `push` with the stub

abbrev going : Take → Queue → Taken
going t q = record { at = t; result = none; queue = q; starts = false }

abbrev returned : Pop → Queue → Taken
returned r q = record { at = idle; result = some r; queue = q; starts = false }

-- From the load of `next` of the last node, which is not the stub
unfoldable pub take_node : ℕ → Queue → Taken
take_node t q = elim (q.next t) [
  | none ↦ going (read_head t) q
  | some n ↦ returned (value t) (record q { tail = n })
]

-- From the load of `next` of the stub
unfoldable pub take_stub : Queue → Taken
take_stub q = elim (q.next stub) [
  | none ↦ returned empty q
  | some n ↦ going (read_next n) (record q { tail = n })
]

-- The next access of a pop. The last one waits for the push of the stub.
unfoldable pub take_step : Take → Queue → Taken
unfolding take_node take_stub
take_step idle q = if q.tail == stub then take_stub q else take_node q.tail q
take_step (read_next t) q = take_node t q
take_step (read_head t) q =
    if q.head == t
    then record { at = read_last t; result = none; queue = q; starts = true }
    else returned inconsistant q
take_step (read_last t) q = elim (q.next t) [
  | none ↦ returned empty q
  | some n ↦ returned (value t) (record q { tail = n })
]

-- The queue with its threads: the thread 0 is the one that pops, and pushes the stub. The nodes that
-- were swapped in, and those that were popped, are noted in their order.
pub record System : Type 0 where
  pub queue : Queue
  pub push : ℕ → Push
  pub take : Take
  pub pushed : List ℕ
  pub popped : List ℕ

abbrev pub init : System
init = record { queue = new; push = λ _. idle; take = idle; pushed = []; popped = [] }

unfoldable pub set_push : ℕ → Push → (ℕ → Push) → ℕ → Push
set_push i p push j = if j == i then p else push j

-- The node that a push puts in, unless it is the stub
abbrev pub swapped : Push → List ℕ
swapped (swap n) = if n == stub then [] else n ∷ []
swapped idle = []
swapped (clear n) = []
swapped (attach prev n) = []

abbrev pub popped_by : Option Pop → List ℕ
popped_by (some (value n)) = n ∷ []
popped_by (some empty) = []
popped_by (some inconsistant) = []
popped_by none = []

-- The node of a push that is not finished
abbrev pub IsOf : Push → ℕ → Type 0
IsOf idle n = ⊥
IsOf (clear m) n = m ≡ n
IsOf (swap m) n = m ≡ n
IsOf (attach prev m) n = m ≡ n

-- The node is neither in the queue nor in a push.
pub record IsOutside (s : System) (n : ℕ) : Type 0 where
  pub real : n ≢ stub
  pub unpushed : (i : ℕ) → IsOf (s.push i) n → ⊥
  pub rest : List ℕ
  pub order : s.popped ++ rest ≡ s.pushed
  pub unqueued : Missing n rest

-- The next access of the push `p` of a thread
abbrev pub after_push : ℕ → Push → System → System
after_push i p s =
    let (p', q) = push_step p s.queue in
    record s { queue = q; push = set_push i p' s.push; pushed = s.pushed ++ swapped p }

abbrev pub after_taken : Taken → System → System
after_taken r s = record s {
  queue = r.queue;
  push = if r.starts then set_push 0 (clear stub) s.push else s.push;
  take = r.at;
  popped = s.popped ++ popped_by r.result;
}

-- The next access of the pop, which is at `t`
abbrev pub after_take : Take → System → System
after_take t s = after_taken (take_step t s.queue) s

-- Whether the push has only the store to `next` of the old head left
abbrev pub IsAttach : Push → ℕ → ℕ → Type 0
IsAttach (attach prev m) p n = (prev ≡ p) × (m ≡ n)
IsAttach idle p n = ⊥
IsAttach (clear m) p n = ⊥
IsAttach (swap m) p n = ⊥

-- One access of one thread, or the call of a push. A node is pushed while it is outside of the queue.
pub data Step (s : System) : System → Type 0 where
  call :
      (i n : ℕ)
      → i ≢ 0
      → s.push i ≡ idle
      → IsOutside s n
      → Step s (record s { push = set_push i (clear n) s.push })
  push_on : (i : ℕ) → s.push i ≢ idle → Step s (after_push i (s.push i) s)
  take_on : s.push 0 ≡ idle → Step s (after_take s.take s)

pub data Reach : System → Type 0 where
  start : Reach init
  later : (s t : System) → Reach s → Step s t → Reach t
