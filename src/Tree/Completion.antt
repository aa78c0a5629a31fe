-- ===== src/Tree/Completion.antt =====
-- src/tree/runner.rs, `FinishFuture::poll`: runs beside tasks of the scheduler that will be ready.
use reblessive.Base.{ℕ, ◌≡◌, Bool, Option, none, some, List, [], ok, ◌>>◌}
use reblessive.Stack.Defs.{Context, ready}
use reblessive.Stack.Finish.{between}
use reblessive.Schedular.Tasks.{Schedular}
use reblessive.Schedular.Poll.{Action}
use reblessive.Schedular.Poll.{poll as poll_schedular}
use reblessive.Tree.Runner.{TreeStack}

module _ {V F : Type 0} (run_task : F → List (Action F) × Option F) (fuel : ℕ) (cx : Context)
    (addr : ℕ) (woken : List ℕ) (ptr : Bool) (before after : Schedular F) (t : ℕ)
    (tasks : before.all_next ≡ some t)
    (runs : poll_schedular run_task fuel cx.waker before ≡ ok (ready tt) after)
    (no_tasks : after.all_next ≡ none) where
  -- The runtime, with a scheduler
  abbrev runtime : Schedular F → TreeStack V F
  runtime sched = record { root = between [] addr woken; schedular = sched; tree_ptr = ptr }
