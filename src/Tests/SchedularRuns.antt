-- ===== src/Tests/SchedularRuns.antt =====
-- The scheduler's waker and queue at concrete inputs.
use reblessive.Base.{refl, ℕ, ◌≡◌, none, some, [], ◌∷◌, ◌++◌, ◌==◌, ok, inl, arith, if◌then◌else◌}
use reblessive.Schedular.Notify.{
  AtomicWaker, Thread, register, store_waker, wake, finished, new, waiting, registering, both,
  begin_register, begin_wake, step, Reach, start, call, move,
}
use reblessive.Schedular.Exclusion.{IsExclusive, Reach-IsExclusive, Reach-step}
use reblessive.Schedular.Delivery.{alone, Reach-Delivers}
use reblessive.Schedular.Queue.{
  Queue, stub, empty, push, pop, swap_head, link, pop_linked, Holds, IsFirst, IsFrom,
}
use reblessive.Schedular.Queue.Race.{pop_linked-race}

abbrev locked : AtomicWaker ℕ
locked = record { state = registering; waker = none; woken = [] }

abbrev flagged : AtomicWaker ℕ
flagged = record { state = both; waker = none; woken = [] }

-- A thread registers the waker 7, and another one wakes before it is stored.
locked_reached : Reach ◌==◌ locked ([] ++ store_waker 7 ∷ [])
unfolding step begin_register
locked_reached =
    move new locked [] [] (register 7) (store_waker 7) (call new [] (register 7) start tt) refl

flagged_reached : Reach ◌==◌ flagged (finished ∷ store_waker 7 ∷ [])
unfolding step begin_wake
flagged_reached =
    move locked flagged [] (store_waker 7 ∷ []) wake finished
      (call locked (store_waker 7 ∷ []) wake locked_reached tt) refl

Reach-IsExclusive_example : IsExclusive flagged (finished ∷ store_waker 7 ∷ [])
Reach-IsExclusive_example =
    Reach-IsExclusive ◌==◌ flagged (finished ∷ store_waker 7 ∷ []) flagged_reached

Reach-step_example :
    (u : Thread ℕ) × (d : AtomicWaker ℕ) × (step ◌==◌ (store_waker 7) flagged ≡ ok u d)
Reach-step_example = Reach-step ◌==◌ flagged (finished ∷ []) [] (store_waker 7) flagged_reached

Reach-Delivers_example :
    (w : ℕ) × (alone ◌==◌ 5 (store_waker 7) flagged
      ≡ ok finished (record { state = waiting; waker = none; woken = w ∷ [] }))
Reach-Delivers_example =
    Reach-Delivers ◌==◌ flagged (finished ∷ []) [] (store_waker 7) flagged_reached refl refl

-- A queue with the nodes 5 and 7, behind the stub
abbrev pair : Queue
pair = record {
  head = 7;
  tail = 0;
  next = λ a. if a == 0 then some 5 else if a == 5 then some 7 else none;
}

pair-Holds : Holds pair (5 ∷ 7 ∷ [])
pair-Holds = inl (
  refl,
  ((refl, (refl, (refl, refl))), ((omega arith, (omega arith, tt)), ((omega arith, tt), (tt, tt)))),
)

-- A queue with the node 5, and without the stub
abbrev single : Queue
single = record { head = 5; tail = 5; next = λ _. none }

single-IsFirst : IsFirst single (5 ∷ [])
single-IsFirst = (refl, (omega arith, tt), ((refl, refl), (tt, tt)))

pop_linked-race_example :
    (pop single ≡ pop_linked 5 (push stub single))
    × (pop_linked 5 (push stub (swap_head 7 single)) ≡ (empty, push stub (swap_head 7 single)))
    × ((push stub (swap_head 7 single)).tail ≡ 5)
    × IsFrom (link 5 7 (push stub (swap_head 7 single))) 5 (7 ∷ stub ∷ [])
pop_linked-race_example = pop_linked-race single 5 7 single-IsFirst (omega arith, (omega arith, tt))
