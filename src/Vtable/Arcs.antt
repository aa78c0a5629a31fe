-- ===== src/Vtable/Arcs.antt =====
-- src/tree/schedular/mod.rs: the tasks of the scheduler, each in an `Arc` and behind the table that
-- is made for its type.
use reblessive.Base.{
  refl, ℕ, zero, suc, ◌≡◌, Option, none, some, List, [], ◌∷◌, arith, Outcome, ok, undefined, Cmd,
  pure, ◌>>=◌, ◌>>◌,
}
use reblessive.Stack.Defs.{Context, Poll}
use reblessive.Vtable.Memory.{
  within, Typed, Ideal, Memory, put, ideal_access, forget, access, call, Keeps,
}
use reblessive.Vtable.Calls.{Agrees, pure-Agrees, put-Agrees, bind-Agrees, call-Agrees}
use reblessive.Vtable.Boxes.{poll_future, drop_future, fresh, poll_future-Keeps, drop_future-Keeps}

-- The functions of the type `unsafe fn(Owned<Task<u8>>)`, each for a type of futures
pub data TaskFn : Type 0 where
  incr_fn : ℕ → TaskFn  -- `VTable::incr::<F>`
  decr_fn : ℕ → TaskFn  -- `VTable::decr::<F>`
  drop_fn : ℕ → TaskFn  -- `VTable::drop::<F>`

pub data DriveFn : Type 0 where
  drive_fn : ℕ → DriveFn  -- `VTable::drive::<F>`

pub record VTable : Type 0 where
  pub task_incr : TaskFn
  pub task_decr : TaskFn
  pub task_drive : DriveFn
  pub task_drop : TaskFn

-- `VTable::get`
abbrev pub get : ℕ → VTable
get k = record {
  task_incr = incr_fn k;
  task_decr = decr_fn k;
  task_drop = drop_fn k;
  task_drive = drive_fn k;
}

module _ (Future : ℕ → Type 0)
    (poll : (k : ℕ) → Future k → Context → Poll (Unit {0}) × Future k) where
  -- `Arc::increment_strong_count`
  unfoldable pub incr_strong : Typed Future → Outcome (Option (Typed Future)) (Unit {0})
  incr_strong t = ok tt (some (record { kind = t.kind; count = suc t.count; future = t.future }))

  -- `Arc::decrement_strong_count`. The last one gives the memory back, with the layout of the type,
  -- and does not drop the future.
  unfoldable pub decr_strong : Typed Future → Outcome (Option (Typed Future)) (Unit {0})
  decr_strong t = elim t.count [
    | zero ↦ undefined
    | suc n ↦ elim n [
      | zero ↦ ok tt none
      | suc m ↦ ok tt (some (record { kind = t.kind; count = suc m; future = t.future }))
    ]
  ]

  -- What a function does: a cast to its type, and then its own work
  unfoldable pub run_fn : TaskFn → ℕ → Cmd (Memory Future VTable) (Unit {0})
  unfolding incr_strong decr_strong drop_future access
  run_fn (incr_fn k) a = access Future k a incr_strong
  run_fn (decr_fn k) a = access Future k a decr_strong
  run_fn (drop_fn k) a = access Future k a (drop_future Future poll)

  unfoldable pub run_drive : DriveFn → Context → ℕ → Cmd (Memory Future VTable) (Poll (Unit {0}))
  unfolding poll_future access
  run_drive (drive_fn k) cx a = access Future k a (poll_future Future poll cx)

  -- `Schedular::incr_task`
  unfoldable pub incr_through : ℕ → Cmd (Memory Future VTable) (Unit {0})
  unfolding run_fn call
  incr_through a = call Future (λ t. run_fn t.task_incr) a

  -- `Schedular::decr_task`
  unfoldable pub decr_through : ℕ → Cmd (Memory Future VTable) (Unit {0})
  unfolding run_fn call
  decr_through a = call Future (λ t. run_fn t.task_decr) a

  -- `Schedular::drive_task`
  unfoldable pub drive_through : ℕ → Context → Cmd (Memory Future VTable) (Poll (Unit {0}))
  unfolding run_drive call
  drive_through a cx = call Future (λ t. run_drive t.task_drive cx) a

  -- `Schedular::drop_task`
  unfoldable pub drop_through : ℕ → Cmd (Memory Future VTable) (Unit {0})
  unfolding run_fn call
  drop_through a = call Future (λ t. run_fn t.task_drop) a

  -- A use of the tasks of a scheduler
  pub data Use : Type 0 where
    create : ℕ → (k : ℕ) → Future k → Use  -- `Arc::new(Task::new(queue, f))`
    incr : ℕ → Use
    decr : ℕ → Use
    drive : ℕ → Context → Use
    drop : ℕ → Use

  unfoldable pub use_arc : Use → Cmd (Memory Future VTable) (Option (Poll (Unit {0})))
  unfolding incr_through decr_through drive_through drop_through
  use_arc (create a k f) m =
      ok none (put a (some (record { table = get k; typed = fresh Future poll k f })) m)
  use_arc (incr a) m = (do incr_through a; pure none) m
  use_arc (decr a) m = (do decr_through a; pure none) m
  use_arc (drive a cx) m = (do r ← drive_through a cx; pure (some r)) m
  use_arc (drop a) m = (do drop_through a; pure none) m

  unfoldable pub use_arcs : List Use → Cmd (Memory Future VTable) (List (Option (Poll (Unit {0}))))
  unfolding use_arc
  use_arcs [] = pure []
  use_arcs (u ∷ us) = do r ← use_arc u; rs ← use_arcs us; pure (r ∷ rs)

  -- The same where the type of every future is known
  unfoldable pub know_arc : Use → Cmd (Ideal Future) (Option (Poll (Unit {0})))
  unfolding incr_strong decr_strong poll_future drop_future ideal_access
  know_arc (create a k f) i = ok none (put a (some (fresh Future poll k f)) i)
  know_arc (incr a) i = (do ideal_access Future a incr_strong; pure none) i
  know_arc (decr a) i = (do ideal_access Future a decr_strong; pure none) i
  know_arc (drive a cx) i =
      (do r ← ideal_access Future a (poll_future Future poll cx); pure (some r)) i
  know_arc (drop a) i = (do ideal_access Future a (drop_future Future poll); pure none) i

  unfoldable pub know_arcs : List Use → Cmd (Ideal Future) (List (Option (Poll (Unit {0}))))
  unfolding know_arc
  know_arcs [] = pure []
  know_arcs (u ∷ us) = do r ← know_arc u; rs ← know_arcs us; pure (r ∷ rs)

  incr_strong-Keeps : Keeps Future incr_strong
  unfolding incr_strong
  incr_strong-Keeps t t' r e = ground (arith, e)

  decr_strong-Keeps : Keeps Future decr_strong
  unfolding decr_strong
  decr_strong-Keeps t t' r e = by_count t.count refl
    where
      by_count : (n : ℕ) → t.count ≡ n → t'.kind ≡ t.kind
      by_count zero at = absurd (ground (arith, at, e))
      by_count (suc zero) at = absurd (ground (arith, at, e))
      by_count (suc (suc n)) at = ground (arith, at, e)

  abbrev silent : {S : Type 0} → Cmd S (Option (Poll (Unit {0})))
  silent = pure none

  -- A call that answers nothing
  silent-Agrees :
      (c : Cmd (Memory Future VTable) (Unit {0})) (i : Cmd (Ideal Future) (Unit {0}))
      → Agrees Future get c i
      → Agrees Future get (c >>= λ _. silent) (i >>= λ _. silent)
  silent-Agrees c i h =
      bind-Agrees Future get c i (λ _. silent) (λ _. silent) h (λ _. pure-Agrees Future get none)

  use_arc-Agrees : (u : Use) → Agrees Future get (use_arc u) (know_arc u)
  unfolding use_arc know_arc incr_through decr_through drive_through drop_through run_fn run_drive
  use_arc-Agrees (create a k f) = put-Agrees Future get none a k (fresh Future poll k f) refl
  use_arc-Agrees (incr a) = silent-Agrees (incr_through a) (ideal_access Future a incr_strong) (
      call-Agrees Future get (λ t. run_fn t.task_incr) a incr_strong (λ k a m. refl)
        incr_strong-Keeps)
  use_arc-Agrees (decr a) = silent-Agrees (decr_through a) (ideal_access Future a decr_strong) (
      call-Agrees Future get (λ t. run_fn t.task_decr) a decr_strong (λ k a m. refl)
        decr_strong-Keeps)
  use_arc-Agrees (drive a cx) =
      bind-Agrees Future get (drive_through a cx)
        (ideal_access Future a (poll_future Future poll cx)) (λ r. pure (some r))
        (λ r. pure (some r))
        (call-Agrees Future get (λ t. run_drive t.task_drive cx) a (poll_future Future poll cx)
          (λ k a m. refl) (poll_future-Keeps Future poll cx))
        (λ r. pure-Agrees Future get (some r))
  use_arc-Agrees (drop a) =
      silent-Agrees (drop_through a) (ideal_access Future a (drop_future Future poll)) (
        call-Agrees Future get (λ t. run_fn t.task_drop) a (drop_future Future poll) (λ k a m. refl)
          (drop_future-Keeps Future poll))

  use_arcs-Agrees : (us : List Use) → Agrees Future get (use_arcs us) (know_arcs us)
  unfolding use_arcs know_arcs
  use_arcs-Agrees [] = pure-Agrees Future get []
  use_arcs-Agrees (u ∷ us) =
      bind-Agrees Future get (use_arc u) (know_arc u) _ _ (use_arc-Agrees u) (λ r.
        bind-Agrees Future get (use_arcs us) (know_arcs us) _ _ (use_arcs-Agrees us)
          (λ rs. pure-Agrees Future get (r ∷ rs)))

  -- Whatever is done with the tasks of a scheduler, the calls through their tables get to the right
  -- functions, at the types that the tasks have: all comes to the same as where every type is known
  -- and no table is used.
  pub use_arcs-know_arcs :
      (us : List Use) → within (forget Future) (use_arcs us (λ _. none)) ≡ know_arcs us (λ _. none)
  use_arcs-know_arcs us = (use_arcs-Agrees us (λ _. none) (λ _. tt)).0
