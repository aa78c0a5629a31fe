-- ===== src/Schedular/Tasks.antt =====
-- src/tree/schedular/mod.rs: the tasks of the scheduler, and what their futures do.
use reblessive.Base.{
  ℕ, ◌+◌, ◌-◌, Bool, true, false, not, Option, none, some, List, [], ◌∷◌, ◌==◌, if◌then◌else◌, Cmd,
  ok, undefined, pure, ◌>>=◌, ◌>>◌, deref,
}
use reblessive.Schedular.Queue.{Queue, Pop}
use reblessive.Schedular.Queue.{new as new_queue, push as push_queue, pop as pop_queue}

pub data TaskState : Type 0 where
  running : TaskState
  cancelled : TaskState
  done : TaskState

-- `Schedular`, its queue, and the memory of the tasks, each field of `Task` as a function of the
-- address. `count` is the strong count of the `Arc`; at 0 the task is freed. `future` is `none`
-- when the future was dropped, and `parent` is what the `AtomicWaker` of the queue holds.
pub record Schedular (F : Type 0) : Type 0 where
  pub len : ℕ
  pub all_next : Option ℕ
  pub all_prev : Option ℕ
  pub should_poll : Queue
  pub alive : Bool
  pub parent : Option ℕ
  pub woken : List ℕ
  pub next : ℕ → Option ℕ
  pub prev : ℕ → Option ℕ
  pub queued : ℕ → Bool
  pub done_cell : ℕ → TaskState
  pub future : ℕ → Option F
  pub count : ℕ → ℕ

-- A write to a field of one task
unfoldable pub assign {ℓ} : {A : Type ℓ} → ℕ → A → (ℕ → A) → ℕ → A
assign t v f x = if x == t then v else f x

module _ {F : Type 0} where
  -- `Schedular::new`
  abbrev pub new : Schedular F
  new = record {
    len = 0;
    all_next = none;
    all_prev = none;
    should_poll = new_queue;
    alive = true;
    parent = none;
    woken = [];
    next = λ _. none;
    prev = λ _. none;
    queued = λ _. false;
    done_cell = λ _. done;
    future = λ _. none;
    count = λ _. 0;
  }

  abbrev pub get : Cmd (Schedular F) (Schedular F)
  get s = ok s s

  abbrev pub modify : (Schedular F → Schedular F) → Cmd (Schedular F) (Unit {0})
  modify f s = ok tt (f s)

  -- Every access to a task wants it alive.
  abbrev pub touch : ℕ → Cmd (Schedular F) (Unit {0})
  touch t s = if s.count t == 0 then undefined else ok tt s

  -- `Schedular::is_empty`
  abbrev pub is_empty : Schedular F → Bool
  is_empty s = elim s.all_next [ none ↦ true | some _ ↦ false ]

  -- `Schedular::incr_task`
  unfoldable pub incr_task : ℕ → Cmd (Schedular F) (Unit {0})
  unfolding assign
  incr_task t = do touch t; modify (λ s. record s { count = assign t (s.count t + 1) s.count })

  -- `Schedular::decr_task`
  unfoldable pub decr_task : ℕ → Cmd (Schedular F) (Unit {0})
  unfolding assign
  decr_task t = do touch t; modify (λ s. record s { count = assign t (s.count t - 1) s.count })

  -- `Schedular::drop_task`; a future that is dropped twice is undefined behaviour.
  unfoldable pub drop_task : ℕ → Cmd (Schedular F) (Unit {0})
  unfolding assign
  drop_task t = do
    touch t
    s ← get
    _ ← deref (s.future t)
    modify (λ s. record s { future = assign t none s.future })

  -- `Queue::push` on `should_poll`
  unfoldable pub push_poll : ℕ → Cmd (Schedular F) (Unit {0})
  push_poll t = do touch t; modify (λ s. record s { should_poll = push_queue t s.should_poll })

  -- `Queue::pop` on `should_poll`
  unfoldable pub pop_poll : Cmd (Schedular F) Pop
  pop_poll s = let (p, q) = pop_queue s.should_poll in ok p (record s { should_poll = q })

  -- `AtomicWaker::wake` on the waker of the queue
  abbrev pub wake_parent : Cmd (Schedular F) (Unit {0})
  wake_parent s = elim s.parent [
    | none ↦ ok tt s
    | some w ↦ ok tt (record s { parent = none; woken = w ∷ s.woken })
  ]

  -- `Waker::wake_by_ref` on the waker of the context
  abbrev pub wake_context : ℕ → Cmd (Schedular F) (Unit {0})
  wake_context w = modify (λ s. record s { woken = w ∷ s.woken })

  -- `queued.compare_exchange(false, true)`; the result says if it succeeded.
  unfoldable pub claim : ℕ → Cmd (Schedular F) Bool
  unfolding assign
  claim t = do
    touch t
    s ← get
    modify (λ s. record s { queued = assign t true s.queued })
    pure (not (s.queued t))
