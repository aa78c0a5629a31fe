-- ===== src/Tests/StackRuns.antt =====
-- The stack runtime on small functions.
use reblessive.Base.{ℕ, ◌+◌, ◌*◌, ◌≡◌, refl, Option, none, [], ◌∷◌, arith, ok}
use reblessive.Stack.Defs.{
  Fut, ret, run, yield_now, wait, running, start, awaiting, TaskBox, result_place, task, Stack,
  Context, Poll,
}
use reblessive.Stack.Runner.{enter_finish, poll_step}
use reblessive.Stack.Eval.{eval, polls, waits}
use reblessive.Stack.Finish.{between, enter_finish-eval}
use reblessive.Stack.Async.{enter_block_on, enter_block_on-eval}
use reblessive.Stack.Order.{IsSound}
use reblessive.Stack.Progress.{AfterStep, poll_step-AfterStep}
use reblessive.Examples.Fibbo.{heavy_fibbo}

abbrev pub cx : Context
cx = record { addr = 100; waker = 7 }

abbrev pub empty : Stack ℕ
empty = between [] 1 []

-- A function that calls another one twice, and waits in between.
abbrev twice : Fut ℕ
twice = run (ret 3) (λ a. wait (run (yield_now (ret 4)) (λ b. ret (a * b))))

-- The same without the wait
abbrev pub plain : Fut ℕ
plain = run (ret 3) (λ a. run (yield_now (ret 4)) (λ b. ret (a * b)))

abbrev child : TaskBox ℕ
child = record { future = start (ret 3); place = 1; waker = none }

abbrev parent : TaskBox ℕ
parent = record { future = awaiting (running none) (λ a. ret (a + 1)); place = 0; waker = none }

-- A child above the parent that waits for it
abbrev pub nested : Stack ℕ
nested = between (task child ∷ task parent ∷ result_place none ∷ []) 1 []

pub nested-IsSound : IsSound nested
nested-IsSound = record { in_order = (tt, refl, (tt, refl, refl)); counts = refl; at_base = refl }

heavy_fibbo_twenty : eval (heavy_fibbo 20) ≡ 10946
unfolding eval heavy_fibbo
heavy_fibbo_twenty = refl

heavy_fibbo_runs : enter_finish 40 cx (heavy_fibbo 5) empty ≡ ok 8 empty
unfolding enter_finish heavy_fibbo
heavy_fibbo_runs = refl

enter_block_on-eval_example : enter_block_on 2 20 cx twice empty ≡ ok 12 empty
unfolding eval waits polls
enter_block_on-eval_example = enter_block_on-eval twice cx 1 [] 2 20 (omega arith) (omega arith)

enter_finish-eval_example : enter_finish 20 cx plain empty ≡ ok 12 empty
unfolding eval polls
enter_finish-eval_example =
    enter_finish-eval plain (tt, λ a. (tt, λ b. tt)) cx 1 [] 20 (omega arith)

poll_step-AfterStep_example :
    (r : Poll (Option ℕ)) × (s : Stack ℕ) × (poll_step cx nested ≡ ok r s) × AfterStep nested r s
poll_step-AfterStep_example = poll_step-AfterStep cx nested nested-IsSound
