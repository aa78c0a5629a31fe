-- ===== src/Schedular/Exclusion/Views.antt =====
-- What a thread knows of the cell while it has it.
use mathlib.Core.Path.{subst}
use reblessive.Base.{ℕ, ◌+◌, ◌≡◌, Option, none, some, List, [], ◌∷◌, arith}
use reblessive.Schedular.Notify.{
  State, waiting, registering, waking, both, AtomicWaker, Thread, register, store_waker, release,
  recover, reset, notify, wake, take_waker, unlock, finished,
}

-- 1 for a thread that has the cell: between its first access to the state and the one that gives
-- the state back
abbrev pub hold : {W : Type 0} → Thread W → ℕ
hold (register w) = 0
hold (store_waker w) = 1
hold release = 1
hold recover = 1
hold (reset w) = 1
hold (notify w) = 0
hold wake = 0
hold take_waker = 1
hold (unlock w) = 1
hold finished = 0

abbrev pub holders : {W : Type 0} → List (Thread W) → ℕ
holders [] = 0
holders (t ∷ ts) = hold t + holders ts

abbrev pub busy : State → ℕ
busy waiting = 0
busy registering = 1
busy waking = 1
busy both = 1

abbrev pub IsRegistering : State → Type 0
IsRegistering registering = Unit
IsRegistering both = Unit
IsRegistering waiting = ⊥
IsRegistering waking = ⊥

abbrev pub HasWaker : {W : Type 0} → Option W → Type 0
HasWaker none = ⊥
HasWaker (some w) = Unit

abbrev pub IsEmpty : {W : Type 0} → Option W → Type 0
IsEmpty none = Unit
IsEmpty (some w) = ⊥

abbrev pub IsBoth : State → Type 0
IsBoth both = Unit
IsBoth registering = ⊥
IsBoth waiting = ⊥
IsBoth waking = ⊥

abbrev pub IsWaking : State → Type 0
IsWaking waking = Unit
IsWaking registering = ⊥
IsWaking waiting = ⊥
IsWaking both = ⊥

-- What a thread that has the cell knows of it
abbrev pub Knows : {W : Type 0} → Thread W → AtomicWaker W → Type 0
Knows (register w) c = Unit
Knows (store_waker w) c = IsRegistering c.state
Knows release c = IsRegistering c.state × HasWaker c.waker
Knows recover c = IsBoth c.state × HasWaker c.waker
Knows (reset w) c = IsBoth c.state × IsEmpty c.waker
Knows (notify w) c = Unit
Knows wake c = Unit
Knows take_waker c = IsWaking c.state
Knows (unlock w) c = IsWaking c.state
Knows finished c = Unit

abbrev pub AllKnow : {W : Type 0} → AtomicWaker W → List (Thread W) → Type 0
AllKnow c [] = Unit
AllKnow c (t ∷ ts) = Knows t c × AllKnow c ts

-- A thread without the cell knows nothing of it.
pub Knows-free : {W : Type 0} → (t : Thread W) (c : AtomicWaker W) → hold t ≡ 0 → Knows t c
Knows-free (register w) c h = tt
Knows-free (store_waker w) c h = absurd (omega arith)
Knows-free release c h = absurd (omega arith)
Knows-free recover c h = absurd (omega arith)
Knows-free (reset w) c h = absurd (omega arith)
Knows-free (notify w) c h = tt
Knows-free wake c h = tt
Knows-free take_waker c h = absurd (omega arith)
Knows-free (unlock w) c h = absurd (omega arith)
Knows-free finished c h = tt

-- A wake during a registration
pub Knows-both :
    {W : Type 0}
    → (t : Thread W) (c : AtomicWaker W) → c.state ≡ registering
    → Knows t c
    → Knows t (record c { state = both })
Knows-both (register w) c e k = tt
Knows-both (store_waker w) c e k = tt
Knows-both release c e k = (tt, k.1)
Knows-both recover c e k = (tt, k.1)
Knows-both (reset w) c e k = (tt, k.1)
Knows-both (notify w) c e k = tt
Knows-both wake c e k = tt
Knows-both take_waker c e k = absurd (subst IsWaking e k)
Knows-both (unlock w) c e k = absurd (subst IsWaking e k)
Knows-both finished c e k = tt
