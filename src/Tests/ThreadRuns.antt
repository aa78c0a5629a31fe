-- ===== src/Tests/ThreadRuns.antt =====
-- The queue of the tasks with its threads, along a run of one push and one pop.
use mathlib.Core.Path.{subst}
use reblessive.Base.{sym, ◌∙◌, ◌≢◌, refl, ℕ, ◌≡◌, inl, List, [], ◌∷◌, ◌++◌, arith}
use reblessive.Schedular.Queue.{
  value, set_next, link, push, IsFrom, Holds, pop, pop_stub, pop_node, pop_last, pop_linked,
}
use reblessive.Schedular.Threads.{
  Push, idle, clear, swap, attach, Take, System, init, set_push, push_step, after_push, after_take,
  call, push_on, take_on, Reach, start, later, IsOutside,
}
use reblessive.Schedular.Threads.Chain.{real}
use reblessive.Schedular.Threads.Fifo.{Reach-order, Reach-IsFrom}
use reblessive.Schedular.Threads.Alone.{IsTaken, take_all-Holds}

-- The thread 1 pushes the node 5.
abbrev called : System
called = record init { push = set_push 1 (clear 5) init.push }

outside : IsOutside init 5
outside = record {
  real = λ e. ground (arith, e);
  unpushed = λ i h. h;
  rest = [];
  order = refl;
  unqueued = tt;
}

called-Reach : Reach called
called-Reach = later init called start (call 1 5 (λ e. ground (arith, e)) refl outside)

pushing :
    (s : System) (i : ℕ) (p : Push) → s.push i ≡ p → p ≢ idle → Reach s → Reach (after_push i p s)
pushing s i p at ne r =
    subst (λ q. Reach (after_push i q s)) at (later s _ r (push_on i (λ e. ne (sym at ∙ e))))

taking : (s : System) (t : Take) → s.take ≡ t → s.push 0 ≡ idle → Reach s → Reach (after_take t s)
taking s t at rest r = subst (λ q. Reach (after_take q s)) at (later s _ r (take_on rest))

abbrev pushed : System
pushed = after_push 1 (attach 0 5) (after_push 1 (swap 5) (after_push 1 (clear 5) called))

pushed-Reach : Reach pushed
unfolding push_step set_push set_next link
pushed-Reach =
    pushing _ 1 (attach 0 5) refl (λ e. cc)
      (pushing _ 1 (swap 5) refl (λ e. cc) (pushing called 1 (clear 5) refl (λ e. cc) called-Reach))

Reach-order_example : (rest : List ℕ) × (pushed.popped ++ rest ≡ pushed.pushed)
Reach-order_example = Reach-order pushed pushed-Reach

-- No thread is in its push.
quiet : (i : ℕ) → pushed.push i ≡ idle
unfolding push_step set_push
quiet i = ground arith

Reach-IsFrom_example :
    (xs : List ℕ) × IsFrom pushed.queue pushed.queue.tail xs
    × (pushed.popped ++ real (pushed.queue.tail ∷ xs) ≡ pushed.pushed)
Reach-IsFrom_example = Reach-IsFrom pushed pushed-Reach quiet

pushed-Holds : Holds pushed.queue (5 ∷ [])
unfolding push_step set_push set_next link
pushed-Holds = inl (refl, ((refl, (refl, refl)), (((λ e. ground (arith, e)), tt), (tt, tt))))

take_all-Holds_example : IsTaken pushed.queue (5 ∷ [])
take_all-Holds_example = take_all-Holds pushed.queue (5 ∷ []) pushed-Holds

popped_runs : (pop pushed.queue).0 ≡ value 5
unfolding push_step set_push set_next link pop pop_stub pop_node pop_last pop_linked push
popped_runs = refl
