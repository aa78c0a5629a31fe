-- ===== src/Schedular/Threads/Alone.antt =====
-- src/tree/schedular/queue.rs: the accesses with no other thread in between.
use native.Mathlib.Decide.{ℕ_discrete}
use reblessive.Base.{
  refl, ap, ◌∙◌, ℕ, zero, suc, ◌≡◌, inl, inr, true, false, Option, none, some, Option-cases, arith,
  List, [], ◌∷◌, if◌then◌else◌,
}
use reblessive.Schedular.Queue.{
  Queue, Pop, empty, value, inconsistant, stub, swap_head, push, pop, pop_stub, pop_node, pop_last,
  pop_linked, Holds, pop-Holds,
}
use reblessive.Schedular.Threads.{
  idle, clear, push_step, Take, read_next, read_head, read_last, Taken, take_node, take_stub,
  take_step,
}

-- A push, access by access
unfoldable pub push_all : ℕ → Queue → Queue
unfolding push_step
push_all n q =
    let (p₁, q₁) = push_step (clear n) q in
    let (p₂, q₂) = push_step p₁ q₁ in let (p₃, q₃) = push_step p₂ q₂ in q₃

pub push_all-push : (n : ℕ) (q : Queue) → push_all n q ≡ push n q
unfolding push_all push swap_head push_step
push_all-push n q = refl

-- What follows an access of a pop, with the push of the stub where it calls for one
unfoldable pub proceed : (Take → Queue → Option (Pop × Queue)) → Taken → Option (Pop × Queue)
unfolding push_all
proceed go r =
    let q = if r.starts then push_all stub r.queue else r.queue in
    elim r.result [ some p ↦ some (p, q) | none ↦ go r.at q ]

-- A pop, access by access
unfoldable pub take_all : ℕ → Take → Queue → Option (Pop × Queue)
unfolding take_step proceed
take_all zero t q = none
take_all (suc n) t q = proceed (take_all n) (take_step t q)

last-all : (n t : ℕ) (q : Queue) → take_all (suc n) (read_last t) q ≡ some (pop_linked t q)
unfolding take_all take_step pop_linked
last-all n t q = elim (Option-cases (q.next t)) [
  | inl shut ↦ ground (arith, shut)
  | inr (m, leads) ↦ ground (arith, leads)
]

-- The access `t` comes to the step `r`.
step-all :
    (n : ℕ) (t : Take) (q : Queue) (r : Taken)
    → take_step t q ≡ r
    → take_all (suc n) t q ≡ proceed (take_all n) r
unfolding take_all
step-all n t q r e = ap (proceed (take_all n)) e

head-all : (n t : ℕ) (q : Queue) → take_all (suc (suc n)) (read_head t) q ≡ some (pop_last t q)
unfolding take_step pop_last proceed
head-all n t q = elim (ℕ_discrete q.head t) [
  | yes e ↦
      step-all (suc n) (read_head t) q
        (record { at = read_last t; result = none; queue = q; starts = true }) (ground (arith, e))
      ∙ ap (take_all (suc n) (read_last t)) (push_all-push stub q)
      ∙ last-all n t (push stub q)
      ∙ ground (arith, e)
  | no ne ↦
      step-all (suc n) (read_head t) q
        (record { at = idle; result = some inconsistant; queue = q; starts = false })
        (ground (arith, ne))
      ∙ ground (arith, ne)
]

-- The accesses from the one on that reads the field of a node
from-node :
    (n t : ℕ) (at : Take) (q : Queue)
    → take_step at q ≡ take_node t q
    → take_all (suc (suc (suc n))) at q ≡ some (pop_node t q)
unfolding take_node pop_node proceed
from-node n t at q same = elim (Option-cases (q.next t)) [
  | inl shut ↦
      step-all (suc (suc n)) at q
        (record { at = read_head t; result = none; queue = q; starts = false })
        (same ∙ ground (arith, shut))
      ∙ head-all n t q
      ∙ ground (arith, shut)
  | inr (m, leads) ↦
      step-all (suc (suc n)) at q
        (record {
          at = idle;
          result = some (value t);
          queue = record q { tail = m };
          starts = false;
        })
        (same ∙ ground (arith, leads))
      ∙ ground (arith, leads)
]

from-stub : (q : Queue) → take_step idle q ≡ take_stub q → take_all 4 idle q ≡ some (pop_stub q)
unfolding take_step take_stub pop_stub proceed
from-stub q same = elim (Option-cases (q.next stub)) [
  | inl shut ↦
      step-all 3 idle q (record { at = idle; result = some empty; queue = q; starts = false })
        (same ∙ ground (arith, shut))
      ∙ ground (arith, shut)
  | inr (m, leads) ↦
      step-all 3 idle q
        (record { at = read_next m; result = none; queue = record q { tail = m }; starts = false })
        (same ∙ ground (arith, leads))
      ∙ from-node 0 m (read_next m) (record q { tail = m }) refl
      ∙ ground (arith, leads)
]

take_all-pop : (q : Queue) → take_all 4 idle q ≡ some (pop q)
unfolding take_step pop
take_all-pop q = elim (ℕ_discrete q.tail stub) [
  | yes e ↦ from-stub q (ground (arith, e)) ∙ ground (arith, e)
  | no ne ↦ from-node 1 q.tail idle q (ground (arith, ne)) ∙ ground (arith, ne)
]

-- The accesses of a pop of a queue with these nodes
abbrev pub IsTaken : Queue → List ℕ → Type 0
IsTaken q [] = take_all 4 idle q ≡ some (empty, q)
IsTaken q (x ∷ xs) = (after : Queue) × (take_all 4 idle q ≡ some (value x, after)) × Holds after xs

-- With no other thread in between and no push in flight, a pop takes at most four accesses, and the
-- push of the stub. If the fields of the queue lead through some nodes, it takes the first one of
-- these off and leaves a queue of the others in order; if there is none, it reports an empty queue
-- and changes nothing.
pub take_all-Holds : (q : Queue) (xs : List ℕ) → Holds q xs → IsTaken q xs
take_all-Holds q [] h = take_all-pop q ∙ ap some (pop-Holds q [] h)
take_all-Holds q (x ∷ xs) h =
    let (after, runs, holds) = pop-Holds q (x ∷ xs) h in
    (after, take_all-pop q ∙ ap some runs, holds)
