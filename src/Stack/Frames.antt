-- ===== src/Stack/Frames.antt =====
-- src/stack/mod.rs: what the runtime does with its allocations and its cells.
use reblessive.Base.{
  ℕ, ◌+◌, ◌-◌, Bool, Option, none, some, List, [], ◌∷◌, length, ◌==◌, if◌then◌else◌, Cmd, ok,
  panicked, undefined, pure, ◌>>=◌, ◌>>◌, unwrap_none, assertion,
}
use reblessive.Stack.Defs.{
  StackState, base, yield, cancelled, new_task, running, Coro, awaiting, TaskBox, Frame,
  result_place, task, Stack, Context,
}
use mathlib.Core.Option

module _ {V : Type 0} where
  -- `StackAllocator::top` behind `unwrap`: the address of the last allocation
  unfoldable pub top : Cmd (Stack V) ℕ
  top s = elim s.frames [ [] ↦ panicked unwrap_none | _ ∷ rest ↦ ok (length rest) s ]

  -- `StackAllocator::alloc_with`
  unfoldable pub alloc_with : Frame V → Cmd (Stack V) (Unit {0})
  alloc_with f s = ok tt (record s { frames = f ∷ s.frames })

  -- `StackAllocator::pop_dealloc`
  unfoldable pub pop_dealloc : Cmd (Stack V) (Unit {0})
  pop_dealloc s = elim s.frames [
    | [] ↦ panicked unwrap_none
    | _ ∷ rest ↦ ok tt (record s { frames = rest })
  ]

  -- The task at the last allocation. Taking the result place for a task is undefined.
  unfoldable pub top_task : Cmd (Stack V) (TaskBox V)
  top_task s = elim s.frames [
    | [] ↦ panicked unwrap_none
    | task t ∷ _ ↦ ok t s
    | result_place _ ∷ _ ↦ undefined
  ]

  -- A write to the future of the task that is being polled, the last allocation.
  unfoldable pub put_coro : Coro V → Cmd (Stack V) (Unit {0})
  put_coro c s = elim s.frames [
    | [] ↦ undefined
    | task t ∷ rest ↦ ok tt (record s { frames = task (record t { future = c }) ∷ rest })
    | result_place _ ∷ _ ↦ undefined
  ]

  -- `place.set(Some(v))` for the cell in one frame: the result place, or the cell of the future that
  -- a suspended task awaits
  abbrev pub fill : V → Frame V → Option (Frame V)
  fill v (result_place _) = some (result_place (some v))
  fill v (task t) = elim t.future [
    | awaiting (running _) k ↦ some (task (record t { future = awaiting (running (some v)) k }))
    | _ ↦ none
  ]

  -- The same at an address.
  unfoldable pub fill_at : ℕ → V → List (Frame V) → Option (List (Frame V))
  fill_at place v [] = none
  fill_at place v (f ∷ rest) =
      if length rest == place
      then Option.map (λ g. g ∷ rest) (fill v f)
      else Option.map (λ fs. f ∷ fs) (fill_at place v rest)

  unfoldable pub set_place : ℕ → V → Cmd (Stack V) (Unit {0})
  unfolding fill_at
  set_place place v s = elim (fill_at place v s.frames) [
    | none ↦ undefined
    | some fs ↦ ok tt (record s { frames = fs })
  ]

  -- `waker.wake()`
  unfoldable pub wake : ℕ → Cmd (Stack V) (Unit {0})
  wake w s = ok tt (record s { woken = w ∷ s.woken })

  abbrev pub set_len : ℕ → Cmd (Stack V) (Unit {0})
  set_len n s = ok tt (record s { len = n })

  abbrev pub set_state : StackState → Cmd (Stack V) (Unit {0})
  set_state st s = ok tt (record s { state = st })

  abbrev pub get : Cmd (Stack V) (Stack V)
  get s = ok s s

  -- `assert_eq!(state, StackState::Base)`
  abbrev pub assert_base : StackState → Cmd (Stack V) (Unit {0})
  assert_base base = pure tt
  assert_base yield = λ s. panicked assertion
  assert_base cancelled = λ s. panicked assertion
  assert_base new_task = λ s. panicked assertion

  -- `Stack::new`; a context's address is never that of a dangling pointer to a byte, which is 1.
  abbrev pub new : Stack V
  new = record { frames = []; len = 0; state = base; async_context = 1; woken = [] }

  -- `Stack::alloc_future`
  unfoldable pub alloc_future : TaskBox V → Cmd (Stack V) (Unit {0})
  unfolding alloc_with
  alloc_future t = do alloc_with (task t); s ← get; set_len (s.len + 1)

  -- `Stack::push_task`
  unfoldable pub push_task : TaskBox V → Cmd (Stack V) (Unit {0})
  unfolding alloc_future
  push_task t = do s ← get; set_state new_task; assert_base s.state; alloc_future t

  -- `Stack::is_rebless_context`
  abbrev pub is_rebless_context : Context → Cmd (Stack V) Bool
  is_rebless_context cx s = ok (s.async_context == cx.addr) s

  -- `Stack::set_rebless_context_addr`, which returns the old address
  abbrev pub set_rebless_context_addr : ℕ → Cmd (Stack V) ℕ
  set_rebless_context_addr addr s = ok s.async_context (record s { async_context = addr })

  -- `Stack::set_rebless_context`
  abbrev pub set_rebless_context : Context → Cmd (Stack V) ℕ
  set_rebless_context cx = set_rebless_context_addr cx.addr

  -- `Stack::pending_tasks`
  unfoldable pub pending_tasks : Stack V → ℕ
  pending_tasks s = s.len - 1
