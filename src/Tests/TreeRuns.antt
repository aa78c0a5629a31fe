-- ===== src/Tests/TreeRuns.antt =====
-- The tree runtime on small functions, and its scopes.
use reblessive.Base.{true, false, ℕ, ◌≡◌, refl, ◌∷◌, [], Option, some, arith, ok, ◌>>◌}
use reblessive.Stack.Defs.{ready}
use reblessive.Schedular.Tasks.{running}
use reblessive.Schedular.Uses.{Good}
use reblessive.Tree.Runner.{TreeStack, new, enter, poll_finish, drop_runner}
use reblessive.Tree.Finish.{idle}
use reblessive.Tree.Abandon.{drop_runner-poll_finish}
use reblessive.Schedular.Invariant.{IsInv}
use reblessive.Schedular.Occurs.{occurs}
use reblessive.Tree.Scope.{initial, running, Polled, poll_scope-Polled}
use reblessive.Stack.Eval.{eval, polls}
use reblessive.Stack.Finish.{between}
use reblessive.Stack.Loops.{calls}
use reblessive.Tree.Nested.{Nested, scope_run, poll_scope_stk, poll_scope_stk-eval}
use reblessive.Tests.StackRuns.{cx, plain, empty, nested, nested-IsSound}
use reblessive.Tests.TaskRuns.{ends, single, single-IsInv}

-- A runtime that runs nothing yet
abbrev still : TreeStack ℕ ℕ
still = idle ends 5 cx 1 [] (new {V = ℕ}).schedular false refl

-- A runtime that polls its tasks, of which there is one, with a cancel token
abbrev spawned : TreeStack ℕ ℕ
spawned = record still { schedular = single running (some 7); tree_ptr = true }

-- The task of a scope is named by the number of its closure.
abbrev block : ℕ → Option ℕ → ℕ
block c waker = c

spawned-Good : Good (1 ∷ []) spawned.schedular
spawned-Good = record { all = 1 ∷ []; queue = 1 ∷ []; is = single-IsInv }

poll_scope-Polled_example : Polled {V = ℕ} block cx 2 (initial 8) spawned (1 ∷ [])
poll_scope-Polled_example =
    poll_scope-Polled block cx 2 (initial 8) spawned (1 ∷ []) spawned-Good refl refl (ground arith)

-- A run in the middle of two calls, with a task of the scheduler in its queue
abbrev pub given_up : TreeStack ℕ ℕ
given_up = record { root = nested; schedular = single running (some 7); tree_ptr = false }

drop_runner-poll_finish_example :
    (after : TreeStack ℕ ℕ) × ((do drop_runner 2; enter plain; poll_finish ends 5 20 cx) given_up
      ≡ ok (ready 12) after)
    × IsInv after.schedular [] [] (1 ∷ [])
    × ((x : ℕ) → after.schedular.count x ≡ occurs x (1 ∷ []))
unfolding eval polls
drop_runner-poll_finish_example =
    drop_runner-poll_finish ends given_up (1 ∷ []) (1 ∷ []) (1 ∷ []) nested-IsSound single-IsInv 2
      (omega arith) (omega arith) plain (tt, λ a. (tt, λ b. tt)) cx 5 20 (omega arith)

-- A stack that runs a scope, and one for a function in it
abbrev scoped : Nested ℕ ℕ
scoped = record { own = empty; parent = empty }

poll_scope_stk-eval_example :
    (scope_run plain >> poll_scope_stk 20 cx) scoped
    ≡ ok (ready 12) (record scoped { own = between [] 1 (7 ∷ 7 ∷ []) })
unfolding eval polls calls
poll_scope_stk-eval_example =
    poll_scope_stk-eval plain (tt, λ a. (tt, λ b. tt)) cx (ground arith) scoped refl 20
      (omega arith)
