-- ===== src/Tests/CompletionRuns.antt =====
-- A task that wakes itself and ends in its next poll, alone and beside a function.
use reblessive.Base.{refl, sym, false, ℕ, ◌≡◌, Option, none, some, List, [], ◌∷◌, arith, ok}
use reblessive.Stack.Defs.{ready}
use reblessive.Schedular.Tasks.{Schedular, running}
use reblessive.Schedular.Poll.{Action, wake_by_ref, poll}
use reblessive.Schedular.Invariant.{IsInv}
use reblessive.Schedular.Completion.{AllReady, poll-ready}
use reblessive.Tree.Runner.{TreeStack}
use reblessive.Tests.StackRuns.{empty}
use reblessive.Tests.TaskRuns.{single, single-IsInv}

abbrev wakes_itself : ℕ → List (Action ℕ) × Option ℕ
wakes_itself n = (wake_by_ref 1 ∷ wake_by_ref 1 ∷ [], none)

abbrev one : Schedular ℕ
one = single running (some 7)

one-AllReady : AllReady wakes_itself one (1 ∷ []) (1 ∷ [])
one-AllReady x h =
    let same : x ≡ 1 = ground (arith, h) in
    ((ground (arith, same), (7, ground (arith, same), refl, (sym same, (sym same, tt)))), h)

poll-ready_example :
    (after : Schedular ℕ) × (poll wakes_itself 3 5 one ≡ ok (ready tt) after)
    × IsInv after [] [] (1 ∷ [])
poll-ready_example =
    poll-ready wakes_itself 5 3 1 one [] (1 ∷ []) (1 ∷ []) single-IsInv one-AllReady (omega arith)

abbrev beside : TreeStack ℕ ℕ
beside = record { root = empty; schedular = one; tree_ptr = false }
