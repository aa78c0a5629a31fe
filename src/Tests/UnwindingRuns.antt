-- ===== src/Tests/UnwindingRuns.antt =====
-- Code that panics: a function in the middle of its calls, and a task of the scheduler.
use reblessive.Base.{ℕ, ◌≡◌, [], arith, ok, ◌>>◌, ◌==◌, explicit}
use reblessive.Locals.{returned, unwound}
use reblessive.Stack.Finish.{between}
use reblessive.Stack.Unwinding.{enter_finish_unwinding, outcome, rounds}
use reblessive.Stack.Unwinding.Finish.{enter_finish_unwinding-outcome}
use reblessive.Schedular.Tasks.{Schedular}
use reblessive.Tree.Unwinding.{registered}
use reblessive.Tests.StackRuns.{cx, plain, empty}
use reblessive.Tests.TreeRuns.{given_up}

-- The second call panics.
enter_finish_unwinding-outcome_example :
    enter_finish_unwinding (λ v. v == 4) 20 cx plain empty
    ≡ ok (unwound explicit) (between [] 100 [])
unfolding outcome rounds
enter_finish_unwinding-outcome_example =
    enter_finish_unwinding-outcome (λ v. v == 4) plain cx 1 [] 20 (omega arith)

-- No call panics, and the function returns.
plain-returned : enter_finish_unwinding (λ v. v == 5) 20 cx plain empty ≡ ok (returned 12) empty
unfolding outcome rounds
plain-returned = enter_finish_unwinding-outcome (λ v. v == 5) plain cx 1 [] 20 (omega arith)

abbrev start : Schedular ℕ
start = registered cx given_up.schedular
