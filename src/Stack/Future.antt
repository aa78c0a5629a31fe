-- ===== src/Stack/Future.antt =====
-- src/stack/future.rs: `InnerStkFuture` and `YieldFuture`, and the async functions that await them.
use reblessive.Base.{
  Bool, true, false, ◌&&◌, not, none, some, if◌then◌else◌, Cmd, panicked, pure, ◌>>=◌, ◌>>◌,
  explicit,
}
use reblessive.Stack.Defs.{
  Fut, ret, run, yield_now, wait, StackState, base, yield, cancelled, new_task, StkFutureState,
  initial, running, done, Coro, start, awaiting, yielding, waiting, finished, Stack, Poll, ready,
  pending, Context,
}
use reblessive.Stack.Frames.{
  top, put_coro, push_task, wake, set_place, is_rebless_context, set_state, get, assert_base,
  top_task,
}

abbrev pub is_yield : StackState → Bool
is_yield yield = true
is_yield base = false
is_yield cancelled = false
is_yield new_task = false

module _ {V : Type 0} where
  -- `InnerStkFuture::poll`. `self` makes the suspended function from the state of the future, and a
  -- write to `this.state` goes through it.
  unfoldable pub poll_stk :
      Context → (StkFutureState V → Coro V) → StkFutureState V → Cmd (Stack V) (Poll V)
  unfolding put_coro top push_task
  poll_stk cx self (initial closure) = do
    put_coro (self (running none))
    state_ptr ← top
    rebless ← is_rebless_context cx
    push_task (record {
      future = start closure;
      place = state_ptr;
      waker = if rebless then none else some cx.waker;
    })
    pure pending
  poll_stk cx self (running none) = pure pending
  poll_stk cx self (running (some x)) = do put_coro (self done); pure (ready x)
  poll_stk cx self done = pure pending

  -- `if !stack.is_rebless_context(cx) { cx.waker().wake_by_ref() }`
  abbrev wake_foreign : Context → Cmd (Stack V) (Unit {0})
  unfolding wake
  wake_foreign cx = do rebless ← is_rebless_context cx; if rebless then pure tt else wake cx.waker

  -- The body of the `if` of `YieldFuture::poll`
  abbrev yield_pending : Context → Cmd (Stack V) (Poll (Unit {0}) × Bool)
  unfolding wake
  yield_pending cx = do
    wake_foreign cx
    old ← get
    set_state yield
    assert_base old.state
    pure (pending, true)

  -- `YieldFuture::poll`, with its flag before and after
  unfoldable pub poll_yield : Context → Bool → Cmd (Stack V) (Poll (Unit {0}) × Bool)
  unfolding wake
  poll_yield cx flag = do
    s ← get
    if not flag && is_yield s.state then yield_pending cx else pure (ready tt, flag)

  -- The async function runs on to its next await that is pending, or to its end.
  unfoldable pub advance : Context → Fut V → Cmd (Stack V) (Poll V)
  unfolding put_coro poll_stk poll_yield
  advance cx (ret v) = put_coro finished >> pure (ready v)
  advance cx (run child k) = do
    put_coro (awaiting (initial child) k)
    poll_stk cx (λ st. awaiting st k) (initial child)
  advance cx (yield_now f) = do
    (p, flag) ← poll_yield cx false
    elim p [ ready _ ↦ advance cx f | pending ↦ put_coro (yielding flag f) >> pure pending ]
  advance cx (wait f) = put_coro (waiting f) >> pure pending

  -- `poll` of a compiled async function; polled after its end it panics.
  unfoldable pub poll_coro : Context → Coro V → Cmd (Stack V) (Poll V)
  unfolding put_coro poll_stk poll_yield advance
  poll_coro cx (start f) = advance cx f
  poll_coro cx (awaiting st k) = do
    p ← poll_stk cx (λ st'. awaiting st' k) st
    elim p [ ready x ↦ advance cx (k x) | pending ↦ pure pending ]
  poll_coro cx (yielding flag f) = do
    (p, flag') ← poll_yield cx flag
    elim p [ ready _ ↦ advance cx f | pending ↦ put_coro (yielding flag' f) >> pure pending ]
  poll_coro cx (waiting f) = advance cx f
  poll_coro cx finished = λ s. panicked explicit

  -- `Stack::drive_task`: the future of a task writes the value to its place and wakes its waker.
  unfoldable pub drive_task : Context → Cmd (Stack V) (Poll (Unit {0}))
  unfolding top_task poll_coro set_place wake
  drive_task cx = do
    t ← top_task
    p ← poll_coro cx t.future
    elim p [
      | pending ↦ pure pending
      | ready v ↦ do
        set_place t.place v
        elim t.waker [ none ↦ pure tt | some w ↦ wake w ]
        pure (ready tt)
    ]
