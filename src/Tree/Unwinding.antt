-- ===== src/Tree/Unwinding.antt =====
-- src/tree/mod.rs: `TreeStack::drive_top_task` where the code that runs panics, and what the runtime
-- can do after that.
use reblessive.Base.{ℕ, Bool, Option, some, List, Cmd, pure, ◌>>=◌, ◌>>◌, if◌then◌else◌}
use reblessive.Locals.{Answer, returned, unwound}
use reblessive.Stack.Defs.{Context, Poll, ready, pending}
use reblessive.Stack.Unwinding.{drive_top_unwinding as drive_root}
use reblessive.Schedular.Tasks.{Schedular, is_empty}
use reblessive.Schedular.Poll.{Action}
use reblessive.Schedular.Unwinding.{poll_unwinding}
use reblessive.Tree.Runner.{TreeStack, on_root, on_schedular, enter_context}

module _ {V F : Type 0} (throws : V → Bool) (run : F → List (Action F) × Option F)
    (throws_task : F → Bool) (fuel : ℕ) where
  -- What `drive_top_task` does in its context
  unfoldable pub drive_both_unwinding : Context → Cmd (TreeStack V F) (Answer (Poll Bool))
  unfolding drive_root poll_unwinding
  drive_both_unwinding cx s =
      if is_empty s.schedular
      then on_root (drive_root throws cx) s
      else (do
        a ← on_schedular (poll_unwinding run throws_task fuel cx.waker)
        elim a [
          | unwound p ↦ pure (unwound p)
          | returned q ↦ elim q [
            | pending ↦ pure (returned pending)
            | ready _ ↦ on_root (drive_root throws cx)
          ]
        ])
          s

  -- `TreeStack::drive_top_task`; the pointer to the scheduler is set back also by a panic.
  unfoldable pub drive_top_unwinding : Context → Cmd (TreeStack V F) (Answer (Poll Bool))
  unfolding drive_both_unwinding
  drive_top_unwinding cx = enter_context (drive_both_unwinding cx)

-- The scheduler when `poll` has registered its waker
abbrev pub registered : {F : Type 0} → Context → Schedular F → Schedular F
registered cx s = record s { parent = some cx.waker }
