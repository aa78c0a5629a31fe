-- ===== src/Schedular/Threads/Fifo.antt =====
-- src/tree/schedular/queue.rs: what the accesses of all threads come to, in any interleaving.
use mathlib.Core.Path.{subst}
use reblessive.Base.{refl, sym, ℕ, ◌≡◌, inl, inr, Option, List, [], ◌∷◌, ◌++◌}
use reblessive.Schedular.Queue.{stub, Leads, IsFrom}
use reblessive.Schedular.Threads.{
  idle, System, IsAttach, Step, call, push_on, take_on, Reach, start, later,
}
use reblessive.Schedular.Threads.Chain.{Chain, real}
use reblessive.Schedular.Threads.Invariant.{Waits, IsInv, init-IsInv}
use reblessive.Schedular.Threads.Takes.{take-Inv}
use reblessive.Schedular.Threads.Steps.{after_push-IsInv, call-IsInv}

Step-IsInv :
    (s t : System) (a : ℕ) (xs : List ℕ)
    → IsInv s a xs
    → Step s t
    → (b : ℕ) × (ys : List ℕ) × IsInv t b ys
Step-IsInv s t a xs v (call i n ne at out) = (a, xs, call-IsInv s a xs v i n ne at out)
Step-IsInv s t a xs v (push_on i ne) =
    let (ys, w) = after_push-IsInv s a xs v i (s.push i) refl ne in (a, ys, w)
Step-IsInv s t a xs v (take_on rest) = take-Inv s s.take a xs v v.stands rest

Reach-IsInv : (s : System) → Reach s → (a : ℕ) × (xs : List ℕ) × IsInv s a xs
Reach-IsInv s start = (stub, [], init-IsInv)
Reach-IsInv _ (later s t r st) = let (a, xs, v) = Reach-IsInv s r in Step-IsInv s t a xs v st

-- However the accesses interleave, the nodes come out of the queue in the order in which they were
-- swapped in, each at most once.
pub Reach-order : (s : System) → Reach s → (rest : List ℕ) × (s.popped ++ rest ≡ s.pushed)
Reach-order s r = let (a, xs, v) = Reach-IsInv s r in (real (a ∷ xs), v.order)

-- A chain with no link missing
Chain-Leads :
    (next : ℕ → Option ℕ) (W : ℕ → ℕ → Type 0) (a last : ℕ) (xs : List ℕ)
    → ((x y : ℕ) → W x y → ⊥)
    → Chain next W a xs last
    → Leads next a xs last
Chain-Leads next W a last [] none_waits c = c
Chain-Leads next W a last (b ∷ bs) none_waits (inl l, c) =
    (l, Chain-Leads next W b last bs none_waits c)
Chain-Leads next W a last (b ∷ bs) none_waits (inr l, c) = absurd (none_waits a b l.1)

-- When no thread is in a push, the fields of the nodes lead from the last one through all others,
-- and these are, but for the stub, exactly the nodes that were swapped in and not popped, in their
-- order: none is lost.
pub Reach-IsFrom :
    (s : System)
    → Reach s
    → ((i : ℕ) → s.push i ≡ idle)
    → (xs : List ℕ) × IsFrom s.queue s.queue.tail xs
      × (s.popped ++ real (s.queue.tail ∷ xs) ≡ s.pushed)
Reach-IsFrom s r quiet =
    let (a, xs, v) = Reach-IsInv s r in
    let linked =
      Chain-Leads s.queue.next (Waits s.push) a s.queue.head xs
        (λ x y w. subst (λ p. IsAttach p x y) (quiet w.0) w.1) v.chain in
    let from : IsFrom s.queue a xs = (linked, v.distinct) in
    (
      xs,
      subst (λ b. IsFrom s.queue b xs) (sym v.tail) from,
      subst (λ b. s.popped ++ real (b ∷ xs) ≡ s.pushed) (sym v.tail) v.order,
    )
