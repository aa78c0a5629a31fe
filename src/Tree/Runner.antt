-- ===== src/Tree/Runner.antt =====
-- src/tree/mod.rs and src/tree/runner.rs: the tree runtime, from its stack and its scheduler. The
-- tasks of the scheduler do not change the stack here.
use reblessive.Base.{
  ℕ, zero, suc, Bool, true, false, Option, none, some, List, Outcome, ok, panicked, undefined,
  out_of_fuel, unwrap_none, Cmd, pure, ◌>>=◌, ◌>>◌, if◌then◌else◌,
}
use reblessive.Stack.Defs.{Fut, Stack, Context, Poll, ready, pending}
use reblessive.Stack.Frames.{set_rebless_context, set_rebless_context_addr}
use reblessive.Stack.Frames.{new as new_stack}
use reblessive.Stack.Drive.{enter_future, try_get_result}
use reblessive.Stack.Drive.{drive_top_task as drive_root, clear as clear_root}
use reblessive.Schedular.Tasks.{Schedular, is_empty}
use reblessive.Schedular.Tasks.{new as new_schedular}
use reblessive.Schedular.Poll.{Action, poll}
use reblessive.Schedular.Poll.{clear as clear_schedular}

-- `TreeStack`, and whether the thread local `TREE_PTR` points to a scheduler
pub record TreeStack (V F : Type 0) : Type 0 where
  pub root : Stack V
  pub schedular : Schedular F
  pub tree_ptr : Bool

-- What a call on a part of the state makes of the whole
abbrev pub map_outcome : {S T A : Type 0} → (S → T) → Outcome S A → Outcome T A
map_outcome f (ok a s) = ok a (f s)
map_outcome f (panicked p) = panicked p
map_outcome f undefined = undefined
map_outcome f out_of_fuel = out_of_fuel

module _ {V F : Type 0} where
  -- `TreeStack::new`
  abbrev pub new : TreeStack V F
  new = record { root = new_stack; schedular = new_schedular; tree_ptr = false }

  abbrev pub on_root : {A : Type 0} → Cmd (Stack V) A → Cmd (TreeStack V F) A
  on_root m s = map_outcome (λ r. record s { root = r }) (m s.root)

  abbrev pub on_schedular : {A : Type 0} → Cmd (Schedular F) A → Cmd (TreeStack V F) A
  on_schedular m s = map_outcome (λ r. record s { schedular = r }) (m s.schedular)

  abbrev pub get : Cmd (TreeStack V F) (TreeStack V F)
  get s = ok s s

  abbrev pub set_tree_ptr : Bool → Cmd (TreeStack V F) (Unit {0})
  set_tree_ptr b s = ok tt (record s { tree_ptr = b })

  -- `TreeStack::enter_context`, with the `Defer` that sets the pointer back
  abbrev pub enter_context : {A : Type 0} → Cmd (TreeStack V F) A → Cmd (TreeStack V F) A
  enter_context f = do s ← get; set_tree_ptr true; a ← f; set_tree_ptr s.tree_ptr; pure a

  -- `TreeStack::with_context`
  abbrev pub with_context : {A : Type 0} → Cmd (TreeStack V F) A → Cmd (TreeStack V F) A
  with_context f s = if s.tree_ptr then f s else panicked unwrap_none

  -- `TreeStack::enter`
  unfoldable pub enter : Fut V → Cmd (TreeStack V F) (Unit {0})
  enter fut = on_root (enter_future fut)

  module _ (run : F → List (Action F) × Option F) (fuel : ℕ) where
    -- What `drive_top_task` does in its context
    unfoldable pub drive_both : Context → Cmd (TreeStack V F) (Poll Bool)
    drive_both cx s =
        if is_empty s.schedular
        then on_root (drive_root cx) s
        else (do
          p ← on_schedular (poll run fuel cx.waker)
          elim p [ pending ↦ pure pending | ready _ ↦ on_root (drive_root cx) ])
            s

    -- `TreeStack::drive_top_task`
    unfoldable pub drive_top_task : Context → Cmd (TreeStack V F) (Poll Bool)
    unfolding drive_both
    drive_top_task cx = enter_context (drive_both cx)

    -- The loop of `FinishFuture::poll`, for at most so many rounds
    unfoldable pub finish_loop : ℕ → Context → ℕ → Cmd (TreeStack V F) (Poll V)
    unfolding drive_top_task
    finish_loop zero cx addr s = out_of_fuel
    finish_loop (suc n) cx addr s =
        (do
          r ← on_root try_get_result
          elim r [
            | some x ↦ do _ ← on_root (set_rebless_context_addr addr); pure (ready x)
            | none ↦ do
              p ← drive_top_task cx
              elim p [
                | ready _ ↦ finish_loop n cx addr
                | pending ↦ do _ ← on_root (set_rebless_context_addr addr); pure pending
              ]
          ])
          s

    -- `FinishFuture::poll`
    unfoldable pub poll_finish : ℕ → Context → Cmd (TreeStack V F) (Poll V)
    unfolding finish_loop
    poll_finish n cx = do addr ← on_root (set_rebless_context cx); finish_loop n cx addr

    -- `StepFuture::poll`; the context is not set back when the step is ready.
    unfoldable pub poll_step : Context → Cmd (TreeStack V F) (Poll (Option V))
    unfolding drive_top_task
    poll_step cx = do
      addr ← on_root (set_rebless_context cx)
      r ← on_root try_get_result
      elim r [
        | some x ↦ do _ ← on_root (set_rebless_context_addr addr); pure (ready (some x))
        | none ↦ do
          p ← drive_top_task cx
          elim p [
            | ready _ ↦ pure (ready none)
            | pending ↦ do _ ← on_root (set_rebless_context_addr addr); pure pending
          ]
      ]

  -- `impl Drop for Runner`
  unfoldable pub drop_runner : ℕ → Cmd (TreeStack V F) (Unit {0})
  drop_runner fuel = do on_schedular (clear_schedular fuel); on_root clear_root
