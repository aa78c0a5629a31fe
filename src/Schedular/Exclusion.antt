-- ===== src/Schedular/Exclusion.antt =====
-- src/tree/schedular/atomic_waker.rs: who has the cell, in every interleaving.
pub mod Views
mod Begin
mod Steps
use mathlib.Core.Path.{subst}
use reblessive.Base.{
  refl, sym, ◌∙◌, ap, ℕ, zero, suc, ◌+◌, ◌≤◌, ◌≡◌, ◌≢◌, Bool, Option, none, some, List, [], ◌∷◌,
  ◌++◌, arith, Outcome, ok, panicked, and_then,
}
use reblessive.Schedular.Notify.{
  State, waiting, registering, waking, both, with_waking, AtomicWaker, Thread, register,
  store_waker, release, recover, reset, notify, wake, take_waker, unlock, finished, IsCall, new,
  stored, wake_taken, begin_register, try_release, begin_wake, recover_waker, step, Reach, start,
  call, move,
}
use reblessive.Schedular.Exclusion.Views.{
  hold, holders, busy, IsRegistering, HasWaker, IsBoth, IsWaking, Knows, AllKnow, Knows-free,
  Knows-both,
}
use Begin.{Stepped}
use Steps.{Knows-step}

holders-append :
    {W : Type 0}
    → (xs : List (Thread W)) (t : Thread W) (ys : List (Thread W))
    → holders (xs ++ t ∷ ys) ≡ holders xs + hold t + holders ys
holders-append [] t ys = omega arith
holders-append (x ∷ xs) t ys = omega (arith, holders-append xs t ys)

pub AllKnow-split :
    {W : Type 0}
    → (c : AtomicWaker W) (xs : List (Thread W)) (t : Thread W) (ys : List (Thread W))
    → AllKnow c (xs ++ t ∷ ys)
    → AllKnow c xs × Knows t c × AllKnow c ys
AllKnow-split c [] t ys k = (tt, k.0, k.1)
AllKnow-split c (x ∷ xs) t ys k = let (p, q, r) = AllKnow-split c xs t ys k.1 in ((k.0, p), q, r)

AllKnow-join :
    {W : Type 0}
    → (c : AtomicWaker W) (xs : List (Thread W)) (t : Thread W) (ys : List (Thread W))
    → AllKnow c xs
    → Knows t c
    → AllKnow c ys
    → AllKnow c (xs ++ t ∷ ys)
AllKnow-join c [] t ys p q r = (q, r)
AllKnow-join c (x ∷ xs) t ys p q r = (p.0, AllKnow-join c xs t ys p.1 q r)

-- What every state that threads can come to satisfies
abbrev pub IsExclusive : {W : Type 0} → AtomicWaker W → List (Thread W) → Type 0
IsExclusive c ts = (holders ts ≡ busy c.state) × AllKnow c ts

module _ {W : Type 0} (will_wake : W → W → Bool) where
  AllKnow-step :
      (t : Thread W) (c : AtomicWaker W) (r : Stepped will_wake t c) (us : List (Thread W))
      → holders us + hold t ≤ busy c.state
      → AllKnow c us
      → AllKnow r.after us
  AllKnow-step t c r [] h k = tt
  AllKnow-step t c r (u ∷ us) h k =
      (r.others u (omega arith) k.0, AllKnow-step t c r us (omega arith) k.1)

  IsExclusive-step :
      (c : AtomicWaker W) (xs ys : List (Thread W)) (t : Thread W)
      → IsExclusive c (xs ++ t ∷ ys)
      → (r : Stepped will_wake t c) × IsExclusive r.after (xs ++ r.next ∷ ys)
  IsExclusive-step c xs ys t (sum, k) =
      let (p, q, z) = AllKnow-split c xs t ys k in
      let r = Knows-step will_wake t c q in
      let total = holders-append xs t ys in
      (
        r,
        (
          omega (arith, r.count, total, sum, holders-append xs r.next ys),
          AllKnow-join r.after xs r.next ys (AllKnow-step t c r xs (omega (arith, total, sum)) p)
              r.knows (AllKnow-step t c r ys (omega (arith, total, sum)) z),
        ),
      )

  call-IsExclusive :
      (c : AtomicWaker W) (ts : List (Thread W)) (t : Thread W)
      → IsCall t
      → IsExclusive c ts
      → IsExclusive c (t ∷ ts)
  call-IsExclusive c ts (register w) is h = (omega (arith, h.0), (tt, h.1))
  call-IsExclusive c ts wake is h = (omega (arith, h.0), (tt, h.1))
  call-IsExclusive c ts _ is h = absurd is

  same-next :
      (r : Outcome (AtomicWaker W) (Thread W)) (t u : Thread W) (c d : AtomicWaker W)
      → r ≡ ok t c
      → r ≡ ok u d
      → (t ≡ u) × (c ≡ d)
  same-next r t u c d e f = (cc, cc)

  -- In every state that threads in `register` and `wake` can come to, the cell has at most one
  -- owner, and it has one exactly if the state is not WAITING.
  pub Reach-IsExclusive :
      (c : AtomicWaker W) (ts : List (Thread W)) → Reach will_wake c ts → IsExclusive c ts
  Reach-IsExclusive c ts start = (refl, tt)
  Reach-IsExclusive c ts (call b us t h is) = call-IsExclusive b us t is (Reach-IsExclusive b us h)
  Reach-IsExclusive a ts (move c d xs ys t u h e) =
      let (r, is) = IsExclusive-step c xs ys t (Reach-IsExclusive c (xs ++ t ∷ ys) h) in
      let (p, q) = same-next (step will_wake t c) r.next u r.after d r.runs e in
      subst (λ v. IsExclusive d (xs ++ v ∷ ys)) p
        (subst (λ v. IsExclusive v (xs ++ r.next ∷ ys)) q is)

  -- No thread can fail: its next step violates no assertion and unwraps no missing waker, whatever
  -- the other threads did.
  pub Reach-step :
      (c : AtomicWaker W) (xs ys : List (Thread W)) (t : Thread W)
      → Reach will_wake c (xs ++ t ∷ ys)
      → (u : Thread W) × (d : AtomicWaker W) × (step will_wake t c ≡ ok u d)
  Reach-step c xs ys t h =
      let (r, is) = IsExclusive-step c xs ys t (Reach-IsExclusive c (xs ++ t ∷ ys) h) in
      (r.next, r.after, r.runs)
