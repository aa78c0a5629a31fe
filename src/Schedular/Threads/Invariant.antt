-- ===== src/Schedular/Threads/Invariant.antt =====
-- src/tree/schedular/queue.rs: what holds between two accesses to the queue, whichever thread made
-- the last one.
use mathlib.Core.Path.{subst}
use native.Mathlib.Decide.{ℕ_discrete}
use reblessive.Base.{refl, sym, ◌∙◌, ℕ, ◌≡◌, ◌≢◌, Option, none, List, [], ◌∷◌, ◌++◌, arith}
use reblessive.Schedular.Queue.{Queue, stub, Missing, IsDistinct}
use reblessive.Schedular.Threads.{
  Push, idle, clear, swap, attach, Take, read_next, read_head, read_last, System, init, set_push,
  IsOf, IsAttach,
}
use reblessive.Schedular.Threads.Chain.{Chain, Adjacent, real}

-- Some thread is going to link the two nodes.
abbrev pub Waits : (ℕ → Push) → ℕ → ℕ → Type 0
Waits push a b = (i : ℕ) × IsAttach (push i) a b

-- The thread 0 pushes the stub, and the others push other nodes.
abbrev pub IsOwn : ℕ → ℕ → Type 0
IsOwn i n = ((i ≡ 0) → n ≡ stub) × ((i ≢ 0) → n ≢ stub)

-- What a thread knows that is in a push
abbrev pub Knows : (ℕ → Option ℕ) → ℕ → List ℕ → ℕ → Push → Type 0
Knows next a xs i idle = Unit
Knows next a xs i (clear n) = IsOwn i n × Missing n (a ∷ xs)
Knows next a xs i (swap n) = IsOwn i n × Missing n (a ∷ xs) × (next n ≡ none)
Knows next a xs i (attach p n) = IsOwn i n × Adjacent p n a xs × (next p ≡ none)

-- What the thread knows that pops
abbrev pub Stands : ℕ → Push → Take → Type 0
Stands a p idle = p ≡ idle
Stands a p (read_next t) = (t ≡ a) × (t ≢ stub) × (p ≡ idle)
Stands a p (read_head t) = (t ≡ a) × (t ≢ stub) × (p ≡ idle)
Stands a p (read_last t) = (t ≡ a) × (t ≢ stub)

-- The nodes in the queue are `a` and those of `xs`, in this order.
pub record IsInv (s : System) (a : ℕ) (xs : List ℕ) : Type 0 where
  pub tail : s.queue.tail ≡ a
  pub chain : Chain s.queue.next (Waits s.push) a xs s.queue.head
  pub distinct : IsDistinct (a ∷ xs)
  pub knows : (i : ℕ) → Knows s.queue.next a xs i (s.push i)
  pub apart : (i j n : ℕ) → IsOf (s.push i) n → IsOf (s.push j) n → i ≡ j
  pub stands : Stands a (s.push 0) s.take
  pub order : s.popped ++ real (a ∷ xs) ≡ s.pushed

pub init-IsInv : IsInv init stub []
init-IsInv = record {
  tail = refl;
  chain = (refl, refl);
  distinct = (tt, tt);
  knows = λ i. tt;
  apart = λ i j n h. absurd h;
  stands = refl;
  order = refl;
}

pub set_push_self : (i : ℕ) (p : Push) (push : ℕ → Push) → set_push i p push i ≡ p
unfolding set_push
set_push_self i p push = ground arith

pub set_push_other : (i j : ℕ) (p : Push) (push : ℕ → Push) → j ≢ i → set_push i p push j ≡ push j
unfolding set_push
set_push_other i j p push e = ground (arith, e)

-- What holds of the thread that moved and of all others
pub set_push-all :
    (P : ℕ → Push → Type 0) (i : ℕ) (p : Push) (push : ℕ → Push)
    → P i p
    → ((j : ℕ) → j ≢ i → P j (push j))
    → (j : ℕ) → P j (set_push i p push j)
set_push-all P i p push h others j = elim (ℕ_discrete j i) [
  | yes e ↦
      subst (λ k. P k (set_push i p push k)) (sym e) (subst (P i) (sym (set_push_self i p push)) h)
  | no e ↦ subst (P j) (sym (set_push_other i j p push e)) (others j e)
]

pub Waits-other :
    (i a b : ℕ) (p : Push) (push : ℕ → Push)
    → (IsAttach (push i) a b → ⊥)
    → Waits push a b
    → Waits (set_push i p push) a b
Waits-other i a b p push away (j, at) = (
  j,
  subst (λ q. IsAttach q a b)
      (sym (set_push_other i j p push (λ e. away (subst (λ k. IsAttach (push k) a b) e at)))) at,
)

-- The push of the thread 0 does not matter to the one that pops, unless it is to be finished.
pub Stands-push :
    (i a : ℕ) (p : Push) (push : ℕ → Push) (t : Take)
    → ((i ≡ 0) → push 0 ≢ idle)
    → Stands a (push 0) t
    → Stands a (set_push i p push 0) t
Stands-push i a p push t busy h = elim (ℕ_discrete 0 i) [
  | yes e ↦ waits t (busy (sym e)) h
  | no e ↦ subst (λ q. Stands a q t) (sym (set_push_other i 0 p push e)) h
]
  where
    waits : (t : Take) → push 0 ≢ idle → Stands a (push 0) t → Stands a (set_push i p push 0) t
    waits idle busy h = absurd (busy h)
    waits (read_next m) busy h = absurd (busy h.2)
    waits (read_head m) busy h = absurd (busy h.2)
    waits (read_last m) busy h = h

-- A thread moved in its push, and the other threads know what they knew.
pub push-IsInv :
    (s : System) (a : ℕ) (xs ys : List ℕ) (i : ℕ) (p : Push) (q : Queue) (pushed : List ℕ)
    → IsInv s a xs
    → q.tail ≡ s.queue.tail
    → Chain q.next (Waits (set_push i p s.push)) a ys q.head
    → IsDistinct (a ∷ ys)
    → Knows q.next a ys i p
    → ((j : ℕ) → j ≢ i → Knows s.queue.next a xs j (s.push j) → Knows q.next a ys j (s.push j))
    → ((j n : ℕ) → j ≢ i → IsOf p n → IsOf (s.push j) n → ⊥)
    → Stands a (set_push i p s.push 0) s.take
    → s.popped ++ real (a ∷ ys) ≡ pushed
    → IsInv (record s { queue = q; push = set_push i p s.push; pushed = pushed }) a ys
push-IsInv s a xs ys i p q pushed v tail chain distinct own others fresh stands order = record {
  tail = tail ∙ v.tail;
  chain = chain;
  distinct = distinct;
  knows = set_push-all (Knows q.next a ys) i p s.push own (λ j e. others j e (v.knows j));
  apart =
      set_push-all (λ j r. (k n : ℕ) → IsOf r n → IsOf (set_push i p s.push k) n → j ≡ k) i p s.push
        (λ k n h.
          set_push-all (λ k r. IsOf r n → i ≡ k) i p s.push (λ _. refl)
            (λ k e g. absurd (fresh k n e h g)) k)
        (λ j e k n h.
          set_push-all (λ k r. IsOf r n → j ≡ k) i p s.push (λ g. absurd (fresh j n e g h))
            (λ k _ g. v.apart j k n h g) k);
  stands = stands;
  order = order;
}
