-- ===== src/Stack/Defs.antt =====
-- src/stack/mod.rs and src/stack/future.rs: the data of the stack runtime.
--
-- Every async function returns a value of one type `V`. The memory that `StackAllocator` hands out
-- is the list `frames`, the most recent allocation first; an address is the height of its frame, so
-- the first allocation is at 0.
use reblessive.Base.{ℕ, Bool, Option, List}

-- The code of an async function, from where it stands to its end. It is the user's code: the crate
-- runs any.
pub data Fut (V : Type 0) : Type 0 where
  ret : V → Fut V  -- the value of the function
  run : Fut V → (V → Fut V) → Fut V  -- `ctx.run(child).await`
  yield_now : Fut V → Fut V  -- `ctx.yield_now().await`
  wait : Fut V → Fut V  -- awaits a future of another library, which is pending once

-- `StackState`
pub data StackState : Type 0 where
  base : StackState
  yield : StackState
  cancelled : StackState
  new_task : StackState

-- `StkFutureState`, with the closure replaced by the function that it starts
pub data StkFutureState (V : Type 0) : Type 0 where
  initial : Fut V → StkFutureState V
  running : Option V → StkFutureState V
  done : StkFutureState V

-- What the compiler makes of an async function: where it is suspended, with the future that it
-- awaits there and what it does next.
pub data Coro (V : Type 0) : Type 0 where
  start : Fut V → Coro V
  awaiting : StkFutureState V → (V → Fut V) → Coro V
  yielding : Bool → Fut V → Coro V  -- the flag is that of `YieldFuture`
  waiting : Fut V → Coro V
  finished : Coro V

-- `TaskBox`, with the future `async move { place.set(Some(future.await)); waker.wake() }`; there is
-- a waker only if another schedular polled the parent.
pub record TaskBox (V : Type 0) : Type 0 where
  pub future : Coro V
  pub place : ℕ
  pub waker : Option ℕ

-- An allocation: the `ResultPlace` of the root, or a task.
pub data Frame (V : Type 0) : Type 0 where
  result_place : Option V → Frame V
  task : TaskBox V → Frame V

-- `Stack`; `woken` lists the wakers that were called, the last first.
pub record Stack (V : Type 0) : Type 0 where
  pub frames : List (Frame V)
  pub len : ℕ
  pub state : StackState
  pub async_context : ℕ
  pub woken : List ℕ

-- `Poll`
pub data Poll (A : Type 0) : Type 0 where
  ready : A → Poll A
  pending : Poll A

-- The `Context` of a call of `poll`: its address, and its waker.
pub record Context : Type 0 where
  pub addr : ℕ
  pub waker : ℕ
