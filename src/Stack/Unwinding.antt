-- ===== src/Stack/Unwinding.antt =====
-- src/stack/mod.rs and src/stack/runner.rs once more, where a panic of the code that runs unwinds
-- through the runtime and leaves a state. A function panics where it would return a value that it
-- throws; by then its locals are dropped either way.
use reblessive.Base.{
  ℕ, zero, suc, ◌+◌, Bool, false, Option, none, some, Cmd, pure, ◌>>=◌, ◌>>◌, out_of_fuel, Panic,
  explicit, if◌then◌else◌,
}
use reblessive.Stack.Defs.{
  Fut, ret, run, yield_now, wait, Coro, Stack, Poll, ready, pending, Context,
}
use reblessive.Stack.Frames.{
  top_task, set_place, wake, get, set_rebless_context, set_rebless_context_addr,
}
use reblessive.Stack.Future.{poll_coro}
use reblessive.Stack.Drive.{pop_task, why_pending, enter_future, try_get_result}
use reblessive.Stack.Runner.{drop_runner}
use reblessive.Locals.{Answer, returned, unwound}
pub mod Finish

module _ {V : Type 0} (throws : V → Bool) where
  -- A poll of a function
  unfoldable pub poll_unwinding : Context → Coro V → Cmd (Stack V) (Answer (Poll V))
  unfolding poll_coro
  poll_unwinding cx c = do
    p ← poll_coro cx c
    elim p [
      | pending ↦ pure (returned pending)
      | ready v ↦ if throws v then pure (unwound explicit) else pure (returned (ready v))
    ]

  -- `Stack::drive_task`: on a panic the place stays empty, and no waker is called.
  unfoldable pub drive_task_unwinding : Context → Cmd (Stack V) (Answer (Poll (Unit {0})))
  unfolding top_task poll_unwinding set_place wake
  drive_task_unwinding cx = do
    t ← top_task
    r ← poll_unwinding cx t.future
    elim r [
      | unwound p ↦ pure (unwound p)
      | returned p ↦ elim p [
        | pending ↦ pure (returned pending)
        | ready v ↦ do
          set_place t.place v
          elim t.waker [ none ↦ pure tt | some w ↦ wake w ]
          pure (returned (ready tt))
      ]
    ]

  -- `Stack::drive_top_task`
  unfoldable pub drive_top_unwinding : Context → Cmd (Stack V) (Answer (Poll Bool))
  unfolding drive_task_unwinding pop_task why_pending
  drive_top_unwinding cx = do
    r ← drive_task_unwinding cx
    elim r [
      | unwound p ↦ pure (unwound p)
      | returned p ↦ elim p [
        | ready _ ↦ pop_task >> pure (returned (ready false))
        | pending ↦ do s ← get; q ← why_pending s.state; pure (returned q)
      ]
    ]

  -- `Runner::step`, which itself panics if the function waits for something outside. Neither panic
  -- passes by the line that sets the context of the stack back.
  unfoldable pub step_unwinding : Context → Cmd (Stack V) (Answer (Option V))
  unfolding try_get_result drive_top_unwinding
  step_unwinding cx = do
    r ← try_get_result
    elim r [
      | some x ↦ pure (returned (some x))
      | none ↦ do
        addr ← set_rebless_context cx
        a ← drive_top_unwinding cx
        elim a [
          | unwound p ↦ pure (unwound p)
          | returned q ↦ elim q [
            | pending ↦ pure (unwound explicit)
            | ready _ ↦ do _ ← set_rebless_context_addr addr; pure (returned none)
          ]
        ]
    ]

  -- `Runner::finish`, for at most so many steps
  unfoldable pub finish_unwinding : ℕ → Context → Cmd (Stack V) (Answer V)
  unfolding step_unwinding
  finish_unwinding zero cx s = out_of_fuel
  finish_unwinding (suc n) cx s =
      (do
        a ← step_unwinding cx
        elim a [
          | unwound p ↦ pure (unwound p)
          | returned r ↦ elim r [ some x ↦ pure (returned x) | none ↦ finish_unwinding n cx ]
        ])
        s

  -- `Stack::enter` and `Runner::finish`, whose runner is dropped at the end, also by a panic
  unfoldable pub enter_finish_unwinding : ℕ → Context → Fut V → Cmd (Stack V) (Answer V)
  unfolding enter_future finish_unwinding drop_runner
  enter_finish_unwinding fuel cx fut = do
    enter_future fut
    r ← finish_unwinding fuel cx
    drop_runner
    pure r

  -- What comes of plain recursion: the value, or the first panic. Waiting for something outside is
  -- one.
  unfoldable pub outcome : Fut V → Answer V
  outcome (ret v) = if throws v then unwound explicit else returned v
  outcome (run child k) = elim (outcome child) [
    | returned v ↦ outcome (k v)
    | unwound p ↦ unwound p
  ]
  outcome (yield_now f) = outcome f
  outcome (wait f) = unwound explicit

  -- The polls until then
  unfoldable pub rounds : Fut V → ℕ
  unfolding outcome
  rounds (ret v) = 1
  rounds (run child k) =
      suc (rounds child + elim (outcome child) [ returned v ↦ rounds (k v) | unwound p ↦ 0 ])
  rounds (yield_now f) = rounds f
  rounds (wait f) = 1
