-- ===== src/Schedular/Ops.antt =====
-- src/tree/schedular/mod.rs and waker.rs: the list of all tasks, cancel tokens and wakers.
use reblessive.Base.{ℕ, ◌+◌, ◌-◌, true, none, some, if◌then◌else◌, Cmd, ok, pure, ◌>>=◌, ◌>>◌}
use reblessive.Schedular.Tasks.{
  running, cancelled, done, Schedular, assign, get, modify, touch, incr_task, decr_task, drop_task,
  push_poll, wake_parent, claim,
}

module _ {F : Type 0} where
  -- `Task::new` and the counts of `push_cancellable`: for the list of all tasks, the queue and the
  -- cancel token. `t` is the address that the memory for the task has.
  unfoldable pub new_task : ℕ → F → Cmd (Schedular F) (Unit {0})
  unfolding assign
  new_task t f = modify (λ s. record s {
    next = assign t none s.next;
    prev = assign t none s.prev;
    queued = assign t true s.queued;
    done_cell = assign t running s.done_cell;
    future = assign t (some f) s.future;
    count = assign t 3 s.count;
  })

  -- `Schedular::push_task_to_all`
  unfoldable pub push_task_to_all : ℕ → Cmd (Schedular F) (Unit {0})
  unfolding assign
  push_task_to_all t = do
    touch t
    modify (λ s. record s { next = assign t s.all_next s.next })
    (λ s. elim s.all_next [
      | none ↦ ok tt s
      | some x ↦ (do touch x; modify (λ s. record s { prev = assign x (some t) s.prev })) s
    ])
    modify (λ s. record s {
      all_next = some t;
      all_prev = elim s.all_prev [ none ↦ some t | some x ↦ some x ];
    })

  -- `Schedular::push_cancellable`; the cancel token is the address.
  unfoldable pub push_cancellable : ℕ → F → Cmd (Schedular F) ℕ
  unfolding new_task push_task_to_all push_poll
  push_cancellable t f = do
    new_task t f
    push_task_to_all t
    push_poll t
    modify (λ s. record s { len = s.len + 1 })
    pure t

  -- `pop_task_all` takes the task out of the list: the link of the next task,
  unfoldable pub unlink_next : ℕ → Cmd (Schedular F) (Unit {0})
  unfolding assign
  unlink_next t s = elim (s.next t) [
    | none ↦ ok tt (record s { all_prev = s.prev t })
    | some n ↦ (do touch n; modify (λ s. record s { prev = assign n (s.prev t) s.prev })) s
  ]

  -- and the link of the previous one.
  unfoldable pub unlink_prev : ℕ → Cmd (Schedular F) (Unit {0})
  unfolding assign
  unlink_prev t s = elim (s.prev t) [
    | none ↦ ok tt (record s { all_next = s.next t })
    | some p ↦ (do touch p; modify (λ s. record s { next = assign p (s.next t) s.next })) s
  ]

  -- Its first part: the flag, and the future if nobody has dropped it
  unfoldable pub finish_task : ℕ → Cmd (Schedular F) (Unit {0})
  unfolding assign drop_task
  finish_task t = do
    touch t
    s ← get
    modify
        (λ s. record s { queued = assign t true s.queued; done_cell = assign t done s.done_cell })
    elim (s.done_cell t) [ running ↦ drop_task t | cancelled ↦ pure tt | done ↦ pure tt ]

  -- `Schedular::pop_task_all`
  unfoldable pub pop_task_all : ℕ → Cmd (Schedular F) (Unit {0})
  unfolding finish_task unlink_next unlink_prev decr_task
  pop_task_all t = do
    finish_task t
    unlink_next t
    unlink_prev t
    decr_task t
    modify (λ s. record s { len = s.len - 1 })

  -- `inner_clone`, `schedular_clone` and `schedular_drop`: a waker is a reference to its task.
  abbrev pub inner_clone : ℕ → Cmd (Schedular F) (Unit {0})
  inner_clone ptr = incr_task ptr

  abbrev pub schedular_clone : ℕ → Cmd (Schedular F) (Unit {0})
  schedular_clone ptr = inner_clone ptr

  abbrev pub schedular_drop : ℕ → Cmd (Schedular F) (Unit {0})
  schedular_drop ptr = decr_task ptr

  -- `queue.upgrade()`, and the push and the wake behind it, in the order of `schedular_wake`
  unfoldable pub wake_queue : ℕ → Cmd (Schedular F) (Unit {0})
  unfolding push_poll decr_task
  wake_queue t s = if s.alive then (do push_poll t; wake_parent) s else schedular_drop t s

  -- `schedular_wake`
  unfoldable pub schedular_wake : ℕ → Cmd (Schedular F) (Unit {0})
  unfolding claim decr_task wake_queue
  schedular_wake t = do won ← claim t; if won then wake_queue t else schedular_drop t

  -- `schedular_wake_ref`
  unfoldable pub schedular_wake_ref : ℕ → Cmd (Schedular F) (Unit {0})
  unfolding incr_task schedular_wake
  schedular_wake_ref t = do inner_clone t; schedular_wake t

  -- The end of `CancelToken::drop`: here the wake comes before the push.
  unfoldable pub cancel_queue : ℕ → Cmd (Schedular F) (Unit {0})
  unfolding push_poll decr_task
  cancel_queue t s = if s.alive then (do wake_parent; push_poll t) s else decr_task t s

  -- `CancelToken::drop` on a task that is running
  unfoldable pub cancel_running : ℕ → Cmd (Schedular F) (Unit {0})
  unfolding assign drop_task claim decr_task cancel_queue
  cancel_running t = do
    modify (λ s. record s { done_cell = assign t cancelled s.done_cell })
    drop_task t
    won ← claim t
    if won then cancel_queue t else decr_task t

  -- `CancelToken::drop`
  unfoldable pub cancel : ℕ → Cmd (Schedular F) (Unit {0})
  unfolding cancel_running decr_task
  cancel t = do
    touch t
    s ← get
    elim (s.done_cell t) [
      | running ↦ cancel_running t
      | cancelled ↦ decr_task t
      | done ↦ decr_task t
    ]
