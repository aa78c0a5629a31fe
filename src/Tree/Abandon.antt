-- ===== src/Tree/Abandon.antt =====
-- src/tree/runner.rs, `impl Drop for Runner`: what is left of a run that is given up.
use reblessive.Base.{ℕ, ◌<◌, ◌≡◌, ◌>>◌, Option, List, [], arith, ok, length}
use reblessive.Stack.Defs.{Fut, Stack, Context, ready}
use reblessive.Stack.Drive.{clear as clear_root}
use reblessive.Stack.Eval.{eval, polls, NeverWaits}
use reblessive.Stack.Order.{IsSound}
use reblessive.Stack.Clear.{clear-IsSound}
use reblessive.Schedular.Occurs.{occurs}
use reblessive.Schedular.Tasks.{Schedular}
use reblessive.Schedular.Poll.{Action}
use reblessive.Schedular.Poll.{clear as clear_schedular}
use reblessive.Schedular.Invariant.{IsInv}
use reblessive.Schedular.Clear.{clear-IsInv}
use reblessive.Tree.Runner.{TreeStack, enter, poll_finish, drop_runner}
use reblessive.Tree.Finish.{idle, tree_finish-eval}

module _ {V F : Type 0} where
  -- Both parts are cleared, one after the other.
  drop_runner-parts :
      (n : ℕ) (s : TreeStack V F) (sched : Schedular F) (root : Stack V)
      → clear_schedular n s.schedular ≡ ok tt sched
      → clear_root s.root ≡ ok tt root
      → drop_runner n s ≡ ok tt (record s { root = root; schedular = sched })
  unfolding drop_runner
  drop_runner-parts n s sched root e e' = ground (arith, e, e')

  -- A run on the tree runtime can be given up between any two polls: no task of the scheduler is
  -- left but those that wakers and cancel tokens refer to, and another function then runs to its
  -- recursive value in one poll.
  pub drop_runner-poll_finish :
      (run_task : F → List (Action F) × Option F) (s : TreeStack V F) (all queue refs : List ℕ)
      → IsSound s.root
      → IsInv s.schedular all queue refs
      → (n : ℕ) → length all < n
      → length queue < n
      → (f : Fut V) → NeverWaits f
      → (cx : Context) (fuel rounds : ℕ) → polls f < rounds
      → (after : TreeStack V F) × ((do drop_runner n; enter f; poll_finish run_task fuel rounds cx)
            s
          ≡ ok (ready (eval f)) after)
        × IsInv after.schedular [] [] refs
        × ((x : ℕ) → after.schedular.count x ≡ occurs x refs)
  drop_runner-poll_finish run_task s all queue refs sound v n h h' f plain cx fuel rounds enough =
      let (sched, runs, w, counts) = clear-IsInv n s.schedular all queue refs v h h' in
      let none_left = w.shape.0 in
      (
        idle run_task fuel cx s.root.async_context s.root.woken sched s.tree_ptr none_left,
        rw (drop_runner-parts n s sched _ runs (clear-IsSound s.root sound)) (
            tree_finish-eval run_task fuel cx s.root.async_context s.root.woken sched s.tree_ptr
              none_left f plain rounds enough),
        w,
        counts,
      )
