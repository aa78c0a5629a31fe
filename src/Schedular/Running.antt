-- ===== src/Schedular/Running.antt =====
-- src/tree/schedular/mod.rs: a round of the loop of `poll` with a task that is running.
use mathlib.Core.Path.{subst}
use reblessive.Base.{
  refl, sym, ℕ, ◌+◌, ◌<◌, ◌≤◌, ◌≡◌, Bool, true, false, Bool-cases, Option, none, some, List, ◌∷◌,
  inl, inr, arith, ok, if◌then◌else◌,
}
use reblessive.Stack.Defs.{ready, pending}
use reblessive.Schedular.Queue.{stub}
use reblessive.Schedular.Tasks.{running, Schedular, assign, decr_task}
use reblessive.Schedular.Ops.{pop_task_all}
use reblessive.Schedular.Poll.{
  Action, Round, again, return, perform_all, drive_task, unclaim, should_yield, pending_round,
  running_round, task_round, poll_round,
}
use reblessive.Schedular.AllList.{assign_same, assign_other}
use reblessive.Schedular.Occurs.{occurs, occurs_self}
use reblessive.Schedular.Invariant.{Flag, IsInv, IsTask, IsInv-task, IsInv-but, IsInvBut-back}
use reblessive.Schedular.Invariant.Refs.{with_queued, decr_task-IsInvBut, IsTask-cong}
use reblessive.Schedular.Invariant.Cancel.{HasFuture-some}
use reblessive.Schedular.Invariant.Finish.{CanFinish}
use reblessive.Schedular.Uses.{Good, AllUse, perform_all-Good}
use reblessive.Schedular.Rounds.{Taken, taken, pop_poll-Taken, pop_task_all-listed}

-- The heap when a task is popped and its flag is taken back
abbrev pub started : {F : Type 0} → ℕ → Schedular F → Schedular F
started t s = with_queued t false (taken s)

module _ {F : Type 0} (t : ℕ) (s : Schedular F) (all queue refs : List ℕ)
    (k : Taken s t all queue refs) (e : s.done_cell t ≡ running) where
  pub unclaim_lem : unclaim t (taken s) ≡ ok tt (started t s)
  unfolding unclaim
  unclaim_lem = ground (arith, k.task.2)

  pub started-IsInv : IsInv (started t s) all queue (t ∷ refs)
  started-IsInv =
      let old = IsTask-cong e refl refl refl refl k.task.0 in
      IsInvBut-back (started t s) all queue (t ∷ refs) t
        (record {
          counted = k.is.counted;
          tasks = λ x ne h.
              IsTask-cong refl (sym (assign_other t x false s.queued ne)) refl refl refl
                (k.is.tasks x ne h);
          no_stub = k.is.no_stub;
          shape = k.is.shape;
        })
        (λ h.
          IsTask-cong (sym e) (sym (assign_same t false s.queued)) refl refl refl
            (old.0, old.1, k.task.1))

pub Flag-le : (b : Bool) (n : ℕ) → Flag b n → n ≤ 1
Flag-le true n h = let one : n ≡ 1 = h in omega arith
Flag-le false n h = let none' : n ≡ 0 = h in omega arith

-- A task that is running in a good heap
module _ {F : Type 0} (t : ℕ) (s : Schedular F) (left : List ℕ) (g : Good (t ∷ left) s)
    (e : s.done_cell t ≡ running) where
  alive : 0 < s.count t
  alive = omega (arith, g.is.counted t, occurs_self t left)

  task : IsTask running (s.queued t) (s.future t) (occurs t g.all) (occurs t g.queue)
  task = IsTask-cong e refl refl refl refl (IsInv-task s g.all g.queue (t ∷ left) t g.is alive)

  has_future : (f : F) × (s.future t ≡ some f)
  has_future = HasFuture-some (s.future t) task.0

  -- It is taken off, and its waker dropped.
  pub finish-Good :
      (s₁ : Schedular F) × (s₂ : Schedular F) × (pop_task_all t s ≡ ok tt s₁)
      × (decr_task t s₁ ≡ ok tt s₂)
      × Good left s₂
  finish-Good =
      let (f, has) = has_future in
      let can : CanFinish (s.done_cell t) (s.future t) =
        subst (λ d. CanFinish d (s.future t)) (sym e) task.0 in
      let (s₁, runs, (rest, w, _, _), _) =
        pop_task_all-listed t s g.all g.queue (t ∷ left)
          (IsInv-but s g.all g.queue (t ∷ left) t g.is) can
          (Flag-le (s.queued t) (occurs t g.queue) task.2) task.1 in
      let (runs', w') = decr_task-IsInvBut stub t s₁ rest g.queue left w in
      (s₁, _, runs, runs', record { all = rest; queue = g.queue; is = w' })

  -- Its future goes on.
  abbrev resumed : F → Schedular F
  resumed f = record s { future = assign t (some f) s.future }

  resumed-IsInv : (f : F) → IsInv (resumed f) g.all g.queue (t ∷ left)
  resumed-IsInv f =
      IsInvBut-back (resumed f) g.all g.queue (t ∷ left) t
        (record {
          counted = g.is.counted;
          tasks = λ x ne h.
              IsTask-cong refl refl (sym (assign_other t x (some f) s.future ne)) refl refl
                (IsInv-task s g.all g.queue (t ∷ left) x g.is h);
          no_stub = g.is.no_stub;
          shape = g.is.shape;
        })
        (λ h.
          IsTask-cong (sym e) refl (sym (assign_same t (some f) s.future)) refl refl
            (tt, task.1, task.2))

  pending_round-Good :
      (f : F) (cx i y : ℕ)
      → (r : Round) × (after : Schedular F) × (pending_round cx t i y (resumed f) ≡ ok r after)
        × Good left after
  unfolding pending_round
  pending_round-Good f cx i y =
      let z = resumed f in
      let w = resumed-IsInv f in
      let y' : ℕ = y + (if s.queued t then 1 else 0) in
      elim (Bool-cases (should_yield i y' z)) [
        | inl stop ↦
            let z' : Schedular F = record z { woken = cx ∷ z.woken } in
            let w' : IsInv z' g.all g.queue (t ∷ left) = record {
              counted = w.counted;
              tasks = w.tasks;
              no_stub = w.no_stub;
              shape = w.shape;
            } in
            let (runs, v) = decr_task-IsInvBut stub t z' g.all g.queue left w' in
            (
              return pending,
              _,
              ground (arith, stop, runs),
              record { all = g.all; queue = g.queue; is = v },
            )
        | inr go ↦
            let (runs, v) = decr_task-IsInvBut stub t z g.all g.queue left w in
            (
              again i y',
              _,
              ground (arith, go, runs),
              record { all = g.all; queue = g.queue; is = v },
            )
      ]

module _ {F : Type 0} (run : F → List (Action F) × Option F) (cx i y t : ℕ) (s : Schedular F)
    (all queue refs : List ℕ) (k : Taken s t all queue refs) (e : s.done_cell t ≡ running) (f : F)
    (has : s.future t ≡ some f) (end : Schedular F) (left : List ℕ)
    (uses : AllUse run (started t s) (run f).0 (t ∷ refs) (t ∷ left) end)
    (still : end.done_cell t ≡ running) where
  pub drive_all : (perform_all run (run f).0 (started t s) ≡ ok tt end) × Good (t ∷ left) end
  drive_all =
      perform_all-Good run (run f).0 (started t s) end (t ∷ refs) (t ∷ left)
        (record { all = all; queue = queue; is = started-IsInv t s all queue refs k e }) uses

  drive_task-ready : (run f).1 ≡ none → drive_task run t (started t s) ≡ ok (ready tt) end
  unfolding drive_task
  drive_task-ready o = ground (arith, k.alive, has, drive_all.0, o)

  drive_task-pending :
      (h g : F)
      → (run f).1 ≡ some h
      → end.future t ≡ some g
      → drive_task run t (started t s)
        ≡ ok pending (record end { future = assign t (some h) end.future })
  unfolding drive_task
  drive_task-pending h g o had = ground (arith, k.alive, has, drive_all.0, o, had)

  running-round :
      (o : Option F)
      → (run f).1 ≡ o
      → (r : Round) × (after : Schedular F) × (running_round run cx t i y (taken s) ≡ ok r after)
        × Good left after
  unfolding running_round
  running-round none o =
      let (s₁, s₂, runs, runs', good) = finish-Good t end left drive_all.1 still in
      (
        again (i + 1) y,
        s₂,
        ground (arith, unclaim_lem t s all queue refs k e, drive_task-ready o, runs, runs'),
        good,
      )
  running-round (some h) o =
      let (r, after, runs, good) = pending_round-Good t end left drive_all.1 still h cx (i + 1) y in
      let (g, had) = has_future t end left drive_all.1 still in
      (
        r,
        after,
        ground (arith, unclaim_lem t s all queue refs k e, drive_task-pending h g o had, runs),
        good,
      )

  driven-round :
      (r : Round) × (after : Schedular F) × (poll_round run cx i y s ≡ ok r after) × Good left after
  unfolding poll_round task_round
  driven-round =
      let (r, after, runs, good) = running-round (run f).1 refl in
      (r, after, ground (arith, k.runs, k.alive, e, runs), good)

-- The first task of the queue is running, and its future uses references that it has, its own waker
-- included, until the heap is `end`; nobody cancels the task meanwhile. Then its round ends: it
-- fails no assertion, touches no freed task, and leaves every task in one of its states.
pub poll_round-running :
    {F : Type 0}
    → (run : F → List (Action F) × Option F) (cx i y t : ℕ) (s end : Schedular F)
      (all queue refs left : List ℕ) (f : F)
    → IsInv s all (t ∷ queue) refs
    → s.done_cell t ≡ running
    → s.future t ≡ some f
    → AllUse run (started t s) (run f).0 (t ∷ refs) (t ∷ left) end
    → end.done_cell t ≡ running
    → (r : Round) × (after : Schedular F) × (poll_round run cx i y s ≡ ok r after) × Good left after
poll_round-running run cx i y t s end all queue refs left f v e has uses still =
    driven-round run cx i y t s all queue refs (pop_poll-Taken s t all queue refs v) e f has end
      left uses still
