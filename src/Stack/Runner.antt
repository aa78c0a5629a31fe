-- ===== src/Stack/Runner.antt =====
-- src/stack/runner.rs: the ways to run what was entered.
use reblessive.Base.{
  ℕ, zero, suc, Option, none, some, Cmd, panicked, out_of_fuel, pure, ◌>>=◌, ◌>>◌, explicit,
}
use reblessive.Stack.Defs.{Fut, base, cancelled, Stack, Poll, ready, pending, Context}
use reblessive.Stack.Frames.{set_rebless_context, set_rebless_context_addr, set_state}
use reblessive.Stack.Drive.{drive_top_task, enter_future, try_get_result, clear}

module _ {V : Type 0} where
  -- What `Runner::step` does when there is no result yet
  unfoldable pub step_task : Context → Cmd (Stack V) (Option V)
  unfolding drive_top_task
  step_task cx = do
    addr ← set_rebless_context cx
    r ← drive_top_task cx
    elim r [
      | pending ↦ λ s. panicked explicit
      | ready _ ↦ do _ ← set_rebless_context_addr addr; pure none
    ]

  -- `Runner::step`. The context is made on the spot, so its address is an argument.
  unfoldable pub step : Context → Cmd (Stack V) (Option V)
  unfolding try_get_result step_task
  step cx = do r ← try_get_result; elim r [ some x ↦ pure (some x) | none ↦ step_task cx ]

  -- `Runner::finish`, for at most so many steps
  unfoldable pub finish : ℕ → Context → Cmd (Stack V) V
  unfolding step
  finish zero cx s = out_of_fuel
  finish (suc n) cx s = (do r ← step cx; elim r [ some x ↦ pure x | none ↦ finish n cx ]) s

  -- What `StepFuture::poll` and the loop of `FinishFuture::poll` do when there is no result yet
  unfoldable pub drive_async : Context → Cmd (Stack V) (Poll (Unit {0}))
  unfolding drive_top_task
  drive_async cx = do
    addr ← set_rebless_context cx
    r ← drive_top_task cx
    _ ← set_rebless_context_addr addr
    elim r [ ready _ ↦ pure (ready tt) | pending ↦ pure pending ]

  -- `StepFuture::poll`
  unfoldable pub poll_step : Context → Cmd (Stack V) (Poll (Option V))
  unfolding try_get_result drive_async
  poll_step cx = do
    r ← try_get_result
    elim r [
      | some x ↦ pure (ready (some x))
      | none ↦ do
        p ← drive_async cx
        elim p [ ready _ ↦ pure (ready none) | pending ↦ pure pending ]
    ]

  -- `FinishFuture::poll`, for at most so many rounds of its loop
  unfoldable pub poll_finish : ℕ → Context → Cmd (Stack V) (Poll V)
  unfolding try_get_result drive_async
  poll_finish zero cx s = out_of_fuel
  poll_finish (suc n) cx s =
      (do
        r ← try_get_result
        elim r [
          | some x ↦ pure (ready x)
          | none ↦ do
            p ← drive_async cx
            elim p [ ready _ ↦ poll_finish n cx | pending ↦ pure pending ]
        ])
        s

  -- `impl Drop for Runner`
  unfoldable pub drop_runner : Cmd (Stack V) (Unit {0})
  unfolding clear
  drop_runner = do set_state cancelled; clear; set_state base

  -- `Stack::enter` and `Runner::finish`, which drops the runner behind the result
  unfoldable pub enter_finish : ℕ → Context → Fut V → Cmd (Stack V) V
  unfolding enter_future finish drop_runner
  enter_finish fuel cx fut = do enter_future fut; v ← finish fuel cx; drop_runner; pure v
