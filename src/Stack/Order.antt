-- ===== src/Stack/Order.antt =====
-- Stack order: every task but the last waits for the one above it, whose place is its cell.
use reblessive.Base.{
  ℕ, suc, ◌+◌, ◌≡◌, refl, Option, none, some, List, [], ◌∷◌, arith, length, ok, ◌<◌, sym, ap, ◌==◌,
  if◌then◌else◌, Bool, false,
}
use reblessive.Stack.Defs.{
  Fut, base, new_task, running, Coro, start, awaiting, TaskBox, Frame, result_place, task, Stack,
  Context, Poll, ready, pending, ret, run, yield_now, wait, initial, done, yielding, waiting,
  finished,
}
use reblessive.Stack.Finish.{with_top}
use reblessive.Stack.Frames.{fill_at}
use reblessive.Stack.Future.{poll_coro, advance}
use reblessive.Stack.Drive.{drive_top_task}

module _ {V : Type 0} where
  -- The function waits for a task that has not returned.
  abbrev pub IsWaiting : Coro V → Type 0
  IsWaiting (awaiting (running none) k) = Unit
  IsWaiting _ = ⊥

  -- The function can be polled: it has not ended.
  abbrev pub IsLive : Coro V → Type 0
  IsLive finished = ⊥
  IsLive (awaiting done k) = ⊥
  IsLive _ = Unit

  -- The frames below a task
  abbrev pub Waits : List (Frame V) → Type 0
  Waits [] = ⊥
  Waits (task t ∷ rest) = IsWaiting t.future × (suc t.place ≡ length rest) × Waits rest
  Waits (result_place r ∷ []) = r ≡ none
  Waits (result_place r ∷ _ ∷ _) = ⊥

  -- The whole stack, between two polls
  abbrev pub IsInOrder : List (Frame V) → Type 0
  IsInOrder [] = ⊥
  IsInOrder (task t ∷ rest) = IsLive t.future × (suc t.place ≡ length rest) × Waits rest
  IsInOrder (result_place r ∷ []) = (v : V) × (r ≡ some v)
  IsInOrder (result_place r ∷ _ ∷ _) = ⊥

  -- What a poll of the top task `t` comes to.
  data Polled (s : Stack V) (t : TaskBox V) (rest : List (Frame V))
      : Poll V → Stack V → Type 0 where
    returned : (v : V) → Polled s t rest (ready v) (with_top finished s t rest)
    suspended : (c : Coro V) → IsLive c → Polled s t rest pending (with_top c s t rest)
    spawned :
        (u : TaskBox V) (k : V → Fut V)
        → IsLive u.future
        → u.place ≡ length rest
        → Polled s t rest pending (record s {
          frames = task u ∷ task (record t { future = awaiting (running none) k }) ∷ rest;
          len = s.len + 1;
          state = new_task;
        })

  module _ (cx : Context) (s : Stack V) (t : TaskBox V) (rest : List (Frame V))
      (e : s.state ≡ base) where
    abbrev child_box : Fut V → TaskBox V
    child_box child = record {
      future = start child;
      place = length rest;
      waker = if s.async_context == cx.addr then none else some cx.waker;
    }

    advance-Polled :
        (f : Fut V) (c : Coro V)
        → (p : Poll V) × (s' : Stack V) × (advance cx f (with_top c s t rest) ≡ ok p s')
          × Polled s t rest p s'
    unfolding advance
    advance-Polled (ret v) c = (_, _, refl, returned v)
    advance-Polled (run child k) c = (_, _, ground arith, spawned (child_box child) k tt refl)
    advance-Polled (yield_now f) c =
        let (p, s', q, d) = advance-Polled f c in (p, s', ground (arith, q), d)
    advance-Polled (wait f) c = (_, _, refl, suspended (waiting f) tt)

    poll_coro-Polled :
        (c : Coro V)
        → IsLive c
        → (p : Poll V) × (s' : Stack V) × (poll_coro cx c (with_top c s t rest) ≡ ok p s')
          × Polled s t rest p s'
    unfolding poll_coro
    poll_coro-Polled (start f) l = advance-Polled f (start f)
    poll_coro-Polled (awaiting (initial f) k) l =
        (_, _, ground arith, spawned (child_box f) k tt refl)
    poll_coro-Polled (awaiting (running none) k) l =
        (_, _, refl, suspended (awaiting (running none) k) tt)
    poll_coro-Polled (awaiting (running (some x)) k) l = advance-Polled (k x) (awaiting done k)
    poll_coro-Polled (awaiting done k) l = absurd l
    poll_coro-Polled (yielding b f) l =
        let (p, s', q, d) = advance-Polled f (yielding b f) in (p, s', ground (arith, q), d)
    poll_coro-Polled (waiting f) l = advance-Polled f (waiting f)
    poll_coro-Polled finished l = absurd l

  -- A value comes to the frame below its task, and that frame can be polled again.
  deliver-task :
      (c : Coro V) (place : ℕ) (waker : Option ℕ) (rest : List (Frame V)) (v : V)
      → IsWaiting c
      → suc place ≡ length rest
      → Waits rest
      → (gs : List (Frame V)) × (fill_at
            (length rest)
            v
            (task (record { future = c; place = place; waker = waker }) ∷ rest)
          ≡ some gs)
        × IsInOrder gs
        × (length gs ≡ suc (length rest))
  unfolding fill_at
  deliver-task (awaiting (running none) k) place waker rest v w e ws = (
    task (record { future = awaiting (running (some v)) k; place = place; waker = waker }) ∷ rest,
    ground arith,
    (tt, e, ws),
    refl,
  )
  deliver-task (awaiting (running (some x)) k) place waker rest v w e ws = absurd w
  deliver-task (awaiting (initial f) k) place waker rest v w e ws = absurd w
  deliver-task (awaiting done k) place waker rest v w e ws = absurd w
  deliver-task (start f) place waker rest v w e ws = absurd w
  deliver-task (yielding b f) place waker rest v w e ws = absurd w
  deliver-task (waiting f) place waker rest v w e ws = absurd w
  deliver-task finished place waker rest v w e ws = absurd w

  deliver :
      (x : TaskBox V) (rest : List (Frame V)) (v : V) (place : ℕ)
      → suc place ≡ length rest
      → Waits rest
      → (gs : List (Frame V)) × (fill_at place v (task x ∷ rest) ≡ some (task x ∷ gs))
        × IsInOrder gs
        × (length gs ≡ length rest)
  unfolding fill_at
  deliver x [] v place e ws = absurd ws
  deliver x (task t ∷ rest) v place e ws =
      let (gs, p, o, l) = deliver-task t.future t.place t.waker rest v ws.0 ws.1 ws.2 in
      let same : place ≡ length rest = omega arith in (gs, rw same (ground (arith, p)), o, l)
  deliver x (result_place r ∷ []) v place e ws =
      (result_place (some v) ∷ [], ground arith, (v, refl), refl)
  deliver x (result_place r ∷ f ∷ fs) v place e ws = absurd ws

  -- The stack after a step: in order, and between two steps again.
  pub record IsSound (s : Stack V) : Type 0 where
    pub in_order : IsInOrder s.frames
    pub counts : s.len ≡ length s.frames
    pub at_base : s.state ≡ base

  drive-Polled :
      (cx : Context) (t : TaskBox V) (rest : List (Frame V)) (s : Stack V)
      → s.state ≡ base
      → s.frames ≡ task t ∷ rest
      → s.len ≡ suc (length rest)
      → suc t.place ≡ length rest
      → Waits rest
      → (p : Poll V) (s' : Stack V) → poll_coro cx t.future s ≡ ok p s'
      → Polled s t rest p s'
      → (r : Poll Bool) × (s'' : Stack V) × (drive_top_task cx s ≡ ok r s'') × IsSound s''
  unfolding drive_top_task
  drive-Polled cx t rest s b fs l e ws p s' q (returned v) =
      let (gs, d, o, m) = deliver (record t { future = finished }) rest v t.place e ws in
      (
        ready false,
        record s {
          frames = gs;
          len = length rest;
          woken = elim t.waker [ none ↦ s.woken | some w ↦ w ∷ s.woken ];
        },
        ground (arith, q, d),
        record { in_order = o; counts = sym m; at_base = b },
      )
  drive-Polled cx t rest s b fs l e ws p s' q (suspended c live) = (
    pending,
    with_top c s t rest,
    ground (arith, q),
    record { in_order = (live, e, ws); counts = l; at_base = b },
  )
  drive-Polled cx t rest s b fs l e ws p s' q (spawned u k live at) = (
    ready false,
    record s {
      frames = task u ∷ task (record t { future = awaiting (running none) k }) ∷ rest;
      len = s.len + 1;
      state = base;
    },
    ground (arith, q),
    record { in_order = (live, ap suc at, (tt, e, ws)); counts = ground arith; at_base = refl },
  )

  drive-frames :
      (cx : Context) (fs : List (Frame V)) (len addr : ℕ) (woken : List ℕ)
      → IsInOrder fs
      → len ≡ length fs
      → 1 < len
      → (r : Poll Bool) × (s' : Stack V) × (drive_top_task cx
            (record { frames = fs; len = len; state = base; async_context = addr; woken = woken })
          ≡ ok r s')
        × IsSound s'
  drive-frames cx [] len addr woken o l more = absurd o
  drive-frames cx (task t ∷ rest) len addr woken o l more =
      let s : Stack V = record {
        frames = task t ∷ rest;
        len = len;
        state = base;
        async_context = addr;
        woken = woken;
      } in
      let (p, s', q, d) = poll_coro-Polled cx s t rest refl t.future o.0 in
      drive-Polled cx t rest s refl refl l o.1 o.2 p s' q d
  drive-frames cx (result_place r ∷ []) len addr woken o l more = absurd (omega arith)
  drive-frames cx (result_place r ∷ f ∷ fs) len addr woken o l more = absurd o

  -- A stack in stack order, with a task on it, is driven without a panic and without undefined
  -- behaviour, and is in stack order afterwards.
  pub drive_top_task-IsSound :
      (cx : Context) (s : Stack V)
      → IsSound s
      → 1 < s.len
      → (r : Poll Bool) × (s' : Stack V) × (drive_top_task cx s ≡ ok r s') × IsSound s'
  drive_top_task-IsSound cx s sound more =
      let (r, s', p, sound') =
        drive-frames cx s.frames s.len s.async_context s.woken sound.in_order sound.counts more in
      (r, s', rw sound.at_base p, sound')
