-- ===== src/Schedular/Invariant.antt =====
-- src/tree/schedular/mod.rs: who holds a reference to a task, and what its state says of it.
pub mod Refs
pub mod Wakes
pub mod Cancel
pub mod Spawn
pub mod Finish
use mathlib.Core.Path.{subst}
use reblessive.Base.{
  inl, refl, sym, ◌∙◌, ap, ℕ, ◌+◌, ◌<◌, ◌≤◌, ◌≡◌, ◌≢◌, Bool, true, false, Option, none, some, List,
  [], ◌∷◌, ◌++◌, arith, length,
}
use native.Mathlib.Decide.{ℕ_discrete}
use reblessive.Schedular.Queue.{Queue, stub, Missing, IsDistinct}
use reblessive.Schedular.Queue.{Holds as HoldsQueue}
use reblessive.Schedular.Tasks.{TaskState, running, cancelled, done, Schedular, new}
use reblessive.Schedular.AllList.{Linked, first}
use reblessive.Schedular.Occurs.{occurs}

abbrev pub Flag : Bool → ℕ → Type 0
Flag true n = n ≡ 1
Flag false n = n ≡ 0

abbrev pub HasFuture : {F : Type 0} → Option F → Type 0
HasFuture none = ⊥
HasFuture (some f) = Unit

-- A task in its state, with the flag `queued`, its future, and how often it is in the list of all
-- tasks and in the queue
abbrev pub IsTask : {F : Type 0} → TaskState → Bool → Option F → ℕ → ℕ → Type 0
IsTask running flag f listed waiting = HasFuture f × (listed ≡ 1) × Flag flag waiting
IsTask cancelled flag f listed waiting = (f ≡ none) × (listed ≡ 1) × (flag ≡ true) × (waiting ≡ 1)
IsTask done flag f listed waiting = (f ≡ none) × (listed ≡ 0) × (flag ≡ true) × (waiting ≤ 1)

-- The list of all tasks and the queue, in memory
abbrev pub IsShape : {F : Type 0} → Schedular F → List ℕ → List ℕ → Type 0
IsShape s all queue =
    (s.all_next ≡ first all)
    × Linked s.next s.prev none all s.all_prev
    × IsDistinct all
    × (s.len ≡ length all)
    × HoldsQueue s.should_poll queue
    × (s.alive ≡ true)

-- The tasks in the list of all tasks, those in the queue, and the references that wakers and cancel
-- tokens have. The task `but` may be in between two of its states.
pub record IsInvBut {F : Type 0} (but : ℕ) (s : Schedular F) (all queue refs : List ℕ)
    : Type 0 where
  pub counted : (x : ℕ) → s.count x ≡ occurs x all + occurs x queue + occurs x refs
  pub tasks :
      (x : ℕ)
      → x ≢ but
      → 0 < s.count x
      → IsTask (s.done_cell x) (s.queued x) (s.future x) (occurs x all) (occurs x queue)
  pub no_stub : s.count stub ≡ 0
  pub shape : IsShape s all queue

-- Every task is in one of its states.
abbrev pub IsInv : {F : Type 0} → Schedular F → List ℕ → List ℕ → List ℕ → Type 0
IsInv s all queue refs = IsInvBut stub s all queue refs

module _ {F : Type 0} (s : Schedular F) (all queue refs : List ℕ) where
  -- A task that something refers to is alive.
  pub IsInvBut-alive :
      (but t : ℕ) → IsInvBut but s all queue refs → 0 < occurs t refs → 0 < s.count t
  IsInvBut-alive but t v h = omega (arith, v.counted t)

  pub IsInv-task :
      (t : ℕ)
      → IsInv s all queue refs
      → 0 < s.count t
      → IsTask (s.done_cell t) (s.queued t) (s.future t) (occurs t all) (occurs t queue)
  IsInv-task t v h = v.tasks t (λ e. absurd (omega (arith, v.no_stub, ap s.count e))) h

  -- Leaving out one task, and putting it back
  pub IsInv-but : (t : ℕ) → IsInv s all queue refs → IsInvBut t s all queue refs
  IsInv-but t v = record {
    counted = v.counted;
    tasks = λ x ne h. IsInv-task x v h;
    no_stub = v.no_stub;
    shape = v.shape;
  }

  pub IsInvBut-back :
      (t : ℕ)
      → IsInvBut t s all queue refs
      → (0 < s.count t
          → IsTask (s.done_cell t) (s.queued t) (s.future t) (occurs t all) (occurs t queue))
      → IsInv s all queue refs
  IsInvBut-back t v own = record {
    counted = v.counted;
    no_stub = v.no_stub;
    shape = v.shape;
    tasks = λ x ne h. elim (ℕ_discrete x t) [
      | yes e ↦
          subst
            (λ y. IsTask (s.done_cell y) (s.queued y) (s.future y) (occurs y all) (occurs y queue))
            (sym e) (own (subst (λ y. 0 < s.count y) e h))
      | no other ↦ v.tasks x other h
    ];
  }

  -- Only how often a reference is held counts.
  pub IsInvBut-refs :
      (but : ℕ) (refs' : List ℕ)
      → ((x : ℕ) → occurs x refs ≡ occurs x refs')
      → IsInvBut but s all queue refs
      → IsInvBut but s all queue refs'
  IsInvBut-refs but refs' same v = record {
    counted = λ x. omega (arith, v.counted x, same x);
    tasks = v.tasks;
    no_stub = v.no_stub;
    shape = v.shape;
  }

pub new-IsInv : {F : Type 0} → IsInv (new {F = F}) [] [] []
new-IsInv = record {
  counted = λ x. refl;
  tasks = λ x ne h. absurd (omega arith);
  no_stub = refl;
  shape = (refl, refl, tt, refl, inl (refl, ((refl, refl), (tt, tt))), refl);
}
