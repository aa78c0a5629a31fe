-- ===== src/Schedular/Poll.antt =====
-- src/tree/schedular/mod.rs: the polls of the scheduler, and what is left when it is dropped.
use reblessive.Base.{
  ℕ, zero, suc, ◌+◌, Bool, false, ◌||◌, Option, none, some, List, [], ◌∷◌, ltb, if◌then◌else◌, Cmd,
  ok, panicked, out_of_fuel, assertion, pure, ◌>>=◌, ◌>>◌, deref,
}
use reblessive.Stack.Defs.{Poll, ready, pending}
use reblessive.Schedular.Queue.{empty, value, inconsistant}
use reblessive.Schedular.Tasks.{
  running, cancelled, done, Schedular, assign, get, modify, touch, is_empty, incr_task, decr_task,
  pop_poll, wake_context,
}
use reblessive.Schedular.Ops.{
  push_cancellable, pop_task_all, schedular_wake, schedular_clone, schedular_drop,
  schedular_wake_ref, cancel,
}

-- What a future can do to the scheduler while it is polled: with wakers that it has, with cancel
-- tokens, or by a new scope, whose task gets the memory at an address.
pub data Action (F : Type 0) : Type 0 where
  clone_waker : ℕ → Action F
  wake : ℕ → Action F
  wake_by_ref : ℕ → Action F
  drop_waker : ℕ → Action F
  drop_token : ℕ → Action F
  spawn : ℕ → F → Action F

-- What comes behind one round of the loop of `poll`
pub data Round : Type 0 where
  again : ℕ → ℕ → Round
  return : Poll (Unit {0}) → Round

module _ {F : Type 0} where
  -- `queued.swap(false)` and the assertion about it
  unfoldable pub unclaim : ℕ → Cmd (Schedular F) (Unit {0})
  unfolding assign
  unclaim t = do
    s ← get
    modify (λ s. record s { queued = assign t false s.queued })
    if s.queued t then pure tt else (λ s. panicked assertion)

  -- The test if `poll` should return to its executor
  unfoldable pub should_yield : ℕ → ℕ → Schedular F → Bool
  should_yield iteration yielded s = ltb 2 yielded || ltb s.len iteration

  -- The end of the round of a task that is pending; the waker is dropped last.
  unfoldable pub pending_round : ℕ → ℕ → ℕ → ℕ → Cmd (Schedular F) Round
  unfolding decr_task should_yield
  pending_round cx t iteration yielded = do
    s ← get
    let y = yielded + (if s.queued t then 1 else 0)
    if should_yield iteration y s
        then (do wake_context cx; decr_task t; pure (return pending))
        else (do decr_task t; pure (again iteration y))

-- A future is a state machine: each poll does something and ends it, or leaves it in a new state.
module _ {F : Type 0} (run : F → List (Action F) × Option F) where
  unfoldable pub perform : Action F → Cmd (Schedular F) (Unit {0})
  unfolding incr_task decr_task schedular_wake schedular_wake_ref cancel push_cancellable
  perform (clone_waker t) = schedular_clone t
  perform (wake t) = schedular_wake t
  perform (wake_by_ref t) = schedular_wake_ref t
  perform (drop_waker t) = schedular_drop t
  perform (drop_token t) = cancel t
  perform (spawn t f) = do _ ← push_cancellable t f; pure tt

  unfoldable pub perform_all : List (Action F) → Cmd (Schedular F) (Unit {0})
  unfolding perform
  perform_all [] = pure tt
  perform_all (a ∷ as') = do perform a; perform_all as'

  -- `Schedular::drive_task`
  unfoldable pub drive_task : ℕ → Cmd (Schedular F) (Poll (Unit {0}))
  unfolding perform_all assign
  drive_task t = do
    touch t
    s ← get
    f ← deref (s.future t)
    perform_all (run f).0
    elim (run f).1 [
      | none ↦ pure (ready tt)
      | some g ↦ do
        s ← get
        _ ← deref (s.future t)
        modify (λ s. record s { future = assign t (some g) s.future })
        pure pending
    ]

  -- The round of a task that is running
  unfoldable pub running_round : ℕ → ℕ → ℕ → ℕ → Cmd (Schedular F) Round
  unfolding unclaim drive_task pop_task_all decr_task pending_round
  running_round cx t iteration yielded = do
    unclaim t
    r ← drive_task t
    elim r [
      | ready _ ↦ do pop_task_all t; decr_task t; pure (again (iteration + 1) yielded)
      | pending ↦ pending_round cx t (iteration + 1) yielded
    ]

  -- The round of a task from the queue
  unfoldable pub task_round : ℕ → ℕ → ℕ → ℕ → Cmd (Schedular F) Round
  unfolding running_round pop_task_all decr_task
  task_round cx t iteration yielded = do
    touch t
    s ← get
    elim (s.done_cell t) [
      | cancelled ↦ do pop_task_all t; pure (again iteration yielded)
      | done ↦ do decr_task t; pure (again iteration yielded)
      | running ↦ running_round cx t iteration yielded
    ]

  -- One round of the loop
  unfoldable pub poll_round : ℕ → ℕ → ℕ → Cmd (Schedular F) Round
  unfolding pop_poll task_round
  poll_round cx iteration yielded = do
    p ← pop_poll
    elim p [
      | empty ↦ λ s. ok (return (if is_empty s then ready tt else pending)) s
      | inconsistant ↦ do wake_context cx; pure (return pending)
      | value t ↦ task_round cx t iteration yielded
    ]

  -- The loop of `Schedular::poll`, for at most so many rounds
  unfoldable pub poll_loop : ℕ → ℕ → ℕ → ℕ → Cmd (Schedular F) (Poll (Unit {0}))
  unfolding poll_round
  poll_loop zero cx iteration yielded s = out_of_fuel
  poll_loop (suc n) cx iteration yielded s =
      (do
        r ← poll_round cx iteration yielded
        elim r [ return p ↦ pure p | again i y ↦ poll_loop n cx i y ])
        s

  -- `Schedular::poll`, in a context with the waker `cx`
  unfoldable pub poll : ℕ → ℕ → Cmd (Schedular F) (Poll (Unit {0}))
  unfolding poll_loop
  poll fuel cx s =
      if is_empty s then ok (ready tt) s else poll_loop fuel cx 0 0 (record s { parent = some cx })

module _ {F : Type 0} where
  -- The first loop of `Schedular::clear`
  unfoldable pub clear_all : ℕ → Cmd (Schedular F) (Unit {0})
  unfolding pop_task_all
  clear_all zero s = out_of_fuel
  clear_all (suc n) s = elim s.all_next [
    | none ↦ ok tt s
    | some t ↦ (do pop_task_all t; clear_all n) s
  ]

  -- The second one
  unfoldable pub clear_queue : ℕ → Cmd (Schedular F) (Unit {0})
  unfolding pop_poll decr_task
  clear_queue zero s = out_of_fuel
  clear_queue (suc n) s =
      (do
        p ← pop_poll
        elim p [
          | empty ↦ pure tt
          | inconsistant ↦ clear_queue n
          | value t ↦ do decr_task t; clear_queue n
        ])
        s

  -- `Schedular::clear`
  unfoldable pub clear : ℕ → Cmd (Schedular F) (Unit {0})
  unfolding clear_all clear_queue
  clear fuel = do clear_all fuel; clear_queue fuel
