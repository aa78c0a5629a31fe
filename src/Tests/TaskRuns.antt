-- ===== src/Tests/TaskRuns.antt =====
-- The tasks of the scheduler at concrete inputs.
use reblessive.Base.{
  refl, ℕ, ◌+◌, ◌≡◌, ◌≢◌, Option, none, some, List, [], ◌∷◌, ◌==◌, ok, inl, arith, if◌then◌else◌,
}
use reblessive.Schedular.Tasks.{
  TaskState, running, cancelled, done, Schedular, assign, new, incr_task,
}
use reblessive.Schedular.Ops.{schedular_wake, pop_task_all}
use reblessive.Schedular.Poll.{
  Action, Round, again, clone_waker, drop_token, perform, poll_round, clear,
}
use reblessive.Schedular.Occurs.{occurs}
use reblessive.Schedular.Invariant.{IsInv, IsInv-but, IsInvBut-back}
use reblessive.Schedular.Invariant.Finish.{pop_task_all-IsInv}
use reblessive.Schedular.Uses.{Good, Performed, perform-Good}
use reblessive.Schedular.Invariant.Wakes.{schedular_wake-IsInv}
use reblessive.Schedular.Rounds.{poll_round-cancelled}
use reblessive.Schedular.Running.{started, poll_round-running}
use reblessive.Schedular.Clear.{clear-IsInv}

-- A future that ends in its first poll, and clones the waker of the task 1 meanwhile
abbrev pub ends : ℕ → List (Action ℕ) × Option ℕ
ends n = (clone_waker 1 ∷ [], none)

-- One task at the address 1, in the queue, with a cancel token
abbrev pub single : TaskState → Option ℕ → Schedular ℕ
single d f = record (new {F = ℕ}) {
  len = 1;
  all_next = some 1;
  all_prev = some 1;
  should_poll = record { head = 1; tail = 0; next = λ x. if x == 0 then some 1 else none };
  queued = λ x. x == 1;
  done_cell = λ x. if x == 1 then d else running;
  future = λ x. if x == 1 then f else none;
  count = λ x. if x == 1 then 3 else 0;
}

pub single-IsInv : IsInv (single running (some 7)) (1 ∷ []) (1 ∷ []) (1 ∷ [])
single-IsInv =
    IsInvBut-back (single running (some 7)) (1 ∷ []) (1 ∷ []) (1 ∷ []) 1
      (record {
        counted = λ x. ground arith;
        tasks = λ x ne h. absurd (ground arith);
        no_stub = refl;
        shape = (
          refl,
          (refl, refl, refl),
          (tt, tt),
          refl,
          inl (refl, ((refl, (refl, refl)), ((omega arith, tt), (tt, tt)))),
          refl,
        );
      })
      (λ h. (tt, refl, refl))

cancelled-IsInv : IsInv (single cancelled none) (1 ∷ []) (1 ∷ []) (1 ∷ [])
cancelled-IsInv =
    IsInvBut-back (single cancelled none) (1 ∷ []) (1 ∷ []) (1 ∷ []) 1
      (record {
        counted = λ x. ground arith;
        tasks = λ x ne h. absurd (ground arith);
        no_stub = refl;
        shape = single-IsInv.shape;
      })
      (λ h. (refl, refl, refl, refl))

perform-Good_example : Performed ends (drop_token 1) (single running (some 7)) []
perform-Good_example =
    perform-Good ends (drop_token 1) (single running (some 7)) (1 ∷ []) []
      (record { all = 1 ∷ []; queue = 1 ∷ []; is = single-IsInv }) (λ x. refl)

schedular_wake-IsInv_example :
    (after : Schedular ℕ) × (schedular_wake 1 (single running (some 7)) ≡ ok tt after)
    × IsInv after (1 ∷ []) (1 ∷ []) []
schedular_wake-IsInv_example =
    schedular_wake-IsInv 1 (single running (some 7)) (1 ∷ []) (1 ∷ []) [] single-IsInv

poll_round-cancelled_example :
    (after : Schedular ℕ) × (left : List ℕ) × (poll_round ends 5 0 0 (single cancelled none)
      ≡ ok (again 0 0) after)
    × IsInv after left [] (1 ∷ 1 ∷ [])
    × (occurs 1 left + 0 ≡ 0)
    × (after.count 1 ≡ 2)
poll_round-cancelled_example =
    poll_round-cancelled ends 5 0 0 1 (single cancelled none) (1 ∷ []) [] (1 ∷ []) cancelled-IsInv
      refl

poll_round-running_example :
    (r : Round) × (after : Schedular ℕ) × (poll_round ends 5 0 0 (single running (some 7))
      ≡ ok r after)
    × Good (1 ∷ 1 ∷ []) after
unfolding incr_task perform
poll_round-running_example =
    poll_round-running ends 5 0 0 1 (single running (some 7))
      (record (started 1 (single running (some 7))) {
        count = assign 1 4 (single running (some 7)).count;
      })
      (1 ∷ []) [] (1 ∷ []) (1 ∷ 1 ∷ []) 7 single-IsInv refl refl
      (_, _, (omega arith, refl), refl, (refl, refl)) refl

clear-IsInv_example :
    (after : Schedular ℕ) × (clear 2 (single running (some 7)) ≡ ok tt after)
    × IsInv after [] [] (1 ∷ [])
    × ((x : ℕ) → after.count x ≡ occurs x (1 ∷ []))
clear-IsInv_example =
    clear-IsInv 2 (single running (some 7)) (1 ∷ []) (1 ∷ []) (1 ∷ []) single-IsInv (omega arith)
      (omega arith)

pop_task_all-IsInv_example :
    (after : Schedular ℕ) × (pop_task_all 1 (single running (some 7)) ≡ ok tt after)
    × IsInv after [] (1 ∷ []) (1 ∷ [])
    × (after.count 1 ≡ 2)
    × (after.done_cell 1 ≡ done)
    × ((x : ℕ)
        → x ≢ 1
        → (after.done_cell x ≡ (single running (some 7)).done_cell x)
          × (after.future x ≡ (single running (some 7)).future x))
pop_task_all-IsInv_example =
    pop_task_all-IsInv 1 (single running (some 7)) [] [] (1 ∷ []) (1 ∷ [])
      (IsInv-but (single running (some 7)) (1 ∷ []) (1 ∷ []) (1 ∷ []) 1 single-IsInv) tt
      (omega arith)
