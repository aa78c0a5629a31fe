-- ===== src/Stack/Drive.antt =====
-- src/stack/mod.rs: driving, popping and clearing tasks.
use reblessive.Base.{
  ℕ, zero, suc, ◌-◌, Bool, true, false, Option, none, some, ◌==◌, if◌then◌else◌, Cmd, ok, panicked,
  undefined, out_of_fuel, pure, ◌>>=◌, ◌>>◌, explicit, assertion, unwrap_none, [], ◌∷◌,
}
use reblessive.Stack.Defs.{
  Fut, StackState, base, yield, cancelled, new_task, running, Coro, start, awaiting, result_place,
  task, Stack, Poll, ready, pending, Context,
}
use reblessive.Stack.Frames.{
  top_task, alloc_with, pop_dealloc, alloc_future, set_len, set_state, get,
}
use reblessive.Stack.Future.{drive_task}

abbrev pub is_cancelled : StackState → Bool
is_cancelled cancelled = true
is_cancelled base = false
is_cancelled yield = false
is_cancelled new_task = false

module _ {V : Type 0} where
  -- `InnerStkFuture::drop` on the future that a suspended task awaits: the task that it spawned is
  -- still on the stack if no result came and the stack is not being cleared.
  abbrev pub drop_coro : Cmd (Stack V) (Unit {0}) → Coro V → Cmd (Stack V) (Unit {0})
  drop_coro pop_cancel_task (awaiting (running none) k) s =
      if is_cancelled s.state then ok tt s else pop_cancel_task s
  drop_coro pop_cancel_task _ s = ok tt s

  -- `Stack::drop_task_inline` and `Stack::pop_task`. To drop a task may cancel another one, which
  -- pops it. The fuel bounds how deep this goes.
  unfoldable pub pop_task_fuel : ℕ → Cmd (Stack V) (Unit {0})
  unfolding top_task pop_dealloc
  pop_task_fuel zero s = out_of_fuel
  pop_task_fuel (suc n) s =
      (do
        t ← top_task
        drop_coro (do old ← get; set_state cancelled; pop_task_fuel n; set_state old.state) t.future
        pop_dealloc
        now ← get
        set_len (now.len - 1))
        s

  -- A task that is cancelled cancels no other, so two rounds are enough.
  unfoldable pub pop_task : Cmd (Stack V) (Unit {0})
  unfolding pop_task_fuel
  pop_task = pop_task_fuel 2

  -- `Stack::pop_cancel_task`
  unfoldable pub pop_cancel_task : Cmd (Stack V) (Unit {0})
  unfolding pop_task
  pop_cancel_task = do old ← get; set_state cancelled; pop_task; set_state old.state

  -- What `drive_top_task` makes of a future that is pending
  unfoldable pub why_pending : StackState → Cmd (Stack V) (Poll Bool)
  why_pending base = pure pending
  why_pending yield = set_state base >> pure (ready true)
  why_pending cancelled = λ s. panicked explicit
  why_pending new_task = set_state base >> pure (ready false)

  -- `Stack::drive_top_task`
  unfoldable pub drive_top_task : Context → Cmd (Stack V) (Poll Bool)
  unfolding drive_task pop_task why_pending
  drive_top_task cx = do
    r ← drive_task cx
    elim r [ ready _ ↦ pop_task >> pure (ready false) | pending ↦ do s ← get; why_pending s.state ]

  -- `Stack::enter_future`, for the future of `fut`
  unfoldable pub enter_future : Fut V → Cmd (Stack V) (Unit {0})
  unfolding alloc_with alloc_future
  enter_future fut s = elim s.len [
    | zero ↦
        (do
          alloc_with (result_place none)
          set_len 1
          alloc_future (record { future = start fut; place = 0; waker = none }))
          s
    | suc _ ↦ panicked assertion
  ]

  -- `Stack::try_get_result`: `assert!(res.is_some())` and the pop behind it
  unfoldable pub take_result : Cmd (Stack V) (Option V)
  unfolding pop_dealloc
  take_result s = elim s.frames [
    | [] ↦ panicked unwrap_none
    | task _ ∷ _ ↦ undefined
    | result_place none ∷ _ ↦ panicked assertion
    | result_place (some v) ∷ _ ↦ (do pop_dealloc; set_len 0; pure (some v)) s
  ]

  -- `Stack::try_get_result`
  unfoldable pub try_get_result : Cmd (Stack V) (Option V)
  unfolding take_result
  try_get_result s = if s.len == 1 then take_result s else ok none s

  -- The loop of `Stack::clear`
  unfoldable pub clear_tasks : ℕ → Cmd (Stack V) (Unit {0})
  unfolding top_task pop_dealloc pop_cancel_task
  clear_tasks zero = pure tt
  clear_tasks (suc n) = do
    t ← top_task
    drop_coro pop_cancel_task t.future
    pop_dealloc
    clear_tasks n

  -- `Stack::clear`. The result that it takes out of the place is dropped, which is not visible here.
  unfoldable pub clear : Cmd (Stack V) (Unit {0})
  unfolding clear_tasks pop_dealloc
  clear s = elim s.len [
    | zero ↦ ok tt s
    | suc n ↦ (do set_state cancelled; clear_tasks n; pop_dealloc; set_len 0; set_state base) s
  ]
