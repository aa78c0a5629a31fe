-- ===== src/Vtable/Boxes.antt =====
-- src/vtable.rs: the tasks of a stack, behind the table that is made for the type of each.
use reblessive.Base.{
  refl, ℕ, ◌≡◌, inl, inr, Option, none, some, Option-cases, List, [], ◌∷◌, arith, Outcome, ok,
  undefined, Cmd, pure, ◌>>=◌, ◌>>◌,
}
use reblessive.Stack.Defs.{Context, Poll}
use reblessive.Vtable.Memory.{
  within, Typed, Ideal, Memory, put, ideal_access, forget, access, call, Keeps,
}
use reblessive.Vtable.Calls.{Agrees, pure-Agrees, put-Agrees, bind-Agrees, call-Agrees, free-Agrees}

-- The functions in a table, by the type that they were made for
pub data Dropper : Type 0 where
  drop_impl : ℕ → Dropper

pub data Driver : Type 0 where
  drive_impl : ℕ → Driver

pub record VTable : Type 0 where
  pub dropper : Dropper
  pub driver : Driver

-- `VTable::get`
abbrev pub get : ℕ → VTable
get k = record { dropper = drop_impl k; driver = drive_impl k }

-- `poll` is what the futures do, which do not reach into this memory.
module _ (Future : ℕ → Type 0)
    (poll : (k : ℕ) → Future k → Context → Poll (Unit {0}) × Future k) where
  -- `poll` on the future behind the cast; a future that was dropped must not be polled.
  unfoldable pub poll_future :
      Context → Typed Future → Outcome (Option (Typed Future)) (Poll (Unit {0}))
  poll_future cx t = elim t.future [
    | none ↦ undefined
    | some f ↦
        let (r, f') = poll t.kind f cx in
        ok r (some (record { kind = t.kind; count = t.count; future = some f' }))
  ]

  -- `drop_in_place` of the future; it must not be dropped twice.
  unfoldable pub drop_future : Typed Future → Outcome (Option (Typed Future)) (Unit {0})
  drop_future t = elim t.future [
    | none ↦ undefined
    | some f ↦ ok tt (some (record { kind = t.kind; count = t.count; future = none }))
  ]

  -- `VTable::drive_impl` of a type
  unfoldable pub run_driver : Driver → Context → ℕ → Cmd (Memory Future VTable) (Poll (Unit {0}))
  unfolding poll_future access
  run_driver (drive_impl k) cx a = access Future k a (poll_future cx)

  -- `VTable::drop_impl` of a type
  unfoldable pub run_dropper : Dropper → ℕ → Cmd (Memory Future VTable) (Unit {0})
  unfolding drop_future access
  run_dropper (drop_impl k) a = access Future k a drop_future

  -- `Stack::drive_task`
  unfoldable pub drive_task : ℕ → Context → Cmd (Memory Future VTable) (Poll (Unit {0}))
  unfolding run_driver call
  drive_task a cx = call Future (λ t. run_driver t.driver cx) a

  -- `Stack::drop_task_inline`
  unfoldable pub drop_task_inline : ℕ → Cmd (Memory Future VTable) (Unit {0})
  unfolding run_dropper call
  drop_task_inline a = call Future (λ t. run_dropper t.dropper) a

  -- A use of the tasks of a stack
  pub data Use : Type 0 where
    alloc : ℕ → (k : ℕ) → Future k → Use  -- a task is written at an address
    drive : ℕ → Context → Use
    drop : ℕ → Use
    dealloc : ℕ → Use

  -- The box that `Stack::alloc_future` writes
  abbrev pub fresh : (k : ℕ) → Future k → Typed Future
  fresh k f = record { kind = k; count = 1; future = some f }

  -- What a use answers, if it polls
  unfoldable pub use_task : Use → Cmd (Memory Future VTable) (Option (Poll (Unit {0})))
  unfolding drive_task drop_task_inline
  use_task (alloc a k f) m = ok none (put a (some (record { table = get k; typed = fresh k f })) m)
  use_task (drive a cx) m = (do r ← drive_task a cx; pure (some r)) m
  use_task (drop a) m = (do drop_task_inline a; pure none) m
  use_task (dealloc a) m = ok none (put a none m)

  unfoldable pub use_all : List Use → Cmd (Memory Future VTable) (List (Option (Poll (Unit {0}))))
  unfolding use_task
  use_all [] = pure []
  use_all (u ∷ us) = do r ← use_task u; rs ← use_all us; pure (r ∷ rs)

  -- The same where the type of every future is known
  unfoldable pub know_task : Use → Cmd (Ideal Future) (Option (Poll (Unit {0})))
  unfolding poll_future drop_future ideal_access
  know_task (alloc a k f) i = ok none (put a (some (fresh k f)) i)
  know_task (drive a cx) i = (do r ← ideal_access Future a (poll_future cx); pure (some r)) i
  know_task (drop a) i = (do ideal_access Future a drop_future; pure none) i
  know_task (dealloc a) i = ok none (put a none i)

  unfoldable pub know_all : List Use → Cmd (Ideal Future) (List (Option (Poll (Unit {0}))))
  unfolding know_task
  know_all [] = pure []
  know_all (u ∷ us) = do r ← know_task u; rs ← know_all us; pure (r ∷ rs)

  pub poll_future-Keeps : (cx : Context) → Keeps Future (poll_future cx)
  unfolding poll_future
  poll_future-Keeps cx t t' r e = elim (Option-cases t.future) [
    | inl gone ↦ absurd (ground (arith, gone, e))
    | inr (f, there) ↦ ground (arith, there, e)
  ]

  pub drop_future-Keeps : Keeps Future drop_future
  unfolding drop_future
  drop_future-Keeps t t' r e = elim (Option-cases t.future) [
    | inl gone ↦ absurd (ground (arith, gone, e))
    | inr (f, there) ↦ ground (arith, there, e)
  ]

  use_task-Agrees : (u : Use) → Agrees Future get (use_task u) (know_task u)
  unfolding use_task know_task drive_task drop_task_inline run_driver run_dropper
  use_task-Agrees (alloc a k f) = put-Agrees Future get none a k (fresh k f) refl
  use_task-Agrees (drive a cx) =
      bind-Agrees Future get (drive_task a cx) (ideal_access Future a (poll_future cx))
        (λ r. pure (some r)) (λ r. pure (some r))
        (call-Agrees Future get (λ t. run_driver t.driver cx) a (poll_future cx) (λ k a m. refl)
          (poll_future-Keeps cx))
        (λ r. pure-Agrees Future get (some r))
  use_task-Agrees (drop a) =
      bind-Agrees Future get (drop_task_inline a) (ideal_access Future a drop_future)
        (λ _. pure none) (λ _. pure none)
        (call-Agrees Future get (λ t. run_dropper t.dropper) a drop_future (λ k a m. refl)
          drop_future-Keeps)
        (λ _. pure-Agrees Future get none)
  use_task-Agrees (dealloc a) = free-Agrees Future get none a

  use_all-Agrees : (us : List Use) → Agrees Future get (use_all us) (know_all us)
  unfolding use_all know_all
  use_all-Agrees [] = pure-Agrees Future get []
  use_all-Agrees (u ∷ us) =
      bind-Agrees Future get (use_task u) (know_task u) _ _ (use_task-Agrees u) (λ r.
        bind-Agrees Future get (use_all us) (know_all us) _ _ (use_all-Agrees us)
          (λ rs. pure-Agrees Future get (r ∷ rs)))

  -- Whatever is done with the tasks of a stack, the calls through their tables get to the futures at
  -- the types that these have: all comes to the same as where every type is known.
  pub use_all-know_all :
      (us : List Use) → within (forget Future) (use_all us (λ _. none)) ≡ know_all us (λ _. none)
  use_all-know_all us = (use_all-Agrees us (λ _. none) (λ _. tt)).0
