-- ===== src/Schedular/Rounds.antt =====
-- src/tree/schedular/mod.rs: the rounds of the loop of `poll`.
use mathlib.Core.Path.{subst}
use reblessive.Base.{
  refl, sym, ap, ℕ, ◌+◌, ◌-◌, ◌<◌, ◌≤◌, ◌≡◌, Bool, true, false, Option, List, ◌∷◌, ◌++◌, arith, ok,
  length, length-append,
}
use reblessive.Schedular.Queue.{stub, pop-Holds, value}
use reblessive.Schedular.Queue.{pop as pop_queue, Holds as HoldsQueue}
use reblessive.Schedular.Tasks.{TaskState, running, cancelled, done, Schedular, pop_poll}
use reblessive.Schedular.Ops.{pop_task_all}
use reblessive.Schedular.Poll.{Action, again, task_round, poll_round}
use reblessive.Schedular.Occurs.{occurs, occurs_self, occurs_other, occurs_split, occurs-middle}
use reblessive.Schedular.Invariant.{IsInv, IsInvBut, IsTask, IsInv-task, IsInvBut-back}
use reblessive.Schedular.Invariant.Refs.{decr_task-IsInvBut, IsTask-cong}
use reblessive.Schedular.Invariant.Finish.{CanFinish, pop_task_all-IsInv}

-- What a task that is popped from the queue is like, the queue without it
abbrev pub IsPoppedTask : {F : Type 0} → TaskState → Bool → Option F → ℕ → ℕ → Type 0
IsPoppedTask d flag f listed waiting =
    IsTask d flag f listed (waiting + 1) × (waiting ≡ 0) × (flag ≡ true)

popped-once :
    {F : Type 0}
    → (d : TaskState) (flag : Bool) (f : Option F) (listed waiting : ℕ)
    → IsTask d flag f listed (waiting + 1)
    → (waiting ≡ 0) × (flag ≡ true)
popped-once running true f listed waiting k = let one = k.2 in (omega arith, refl)
popped-once running false f listed waiting k = let zero' = k.2 in absurd (omega arith)
popped-once cancelled flag f listed waiting k = let one = k.3 in (omega arith, k.2)
popped-once done flag f listed waiting k = let one = k.3 in (omega arith, k.2)

-- The heap when a task is popped from the queue
abbrev pub taken : {F : Type 0} → Schedular F → Schedular F
taken s = record s { should_poll = (pop_queue s.should_poll).1 }

-- The task takes along the reference that the queue had.
pub record Taken {F : Type 0} (s : Schedular F) (t : ℕ) (all queue refs : List ℕ) : Type 0 where
  pub runs : pop_poll s ≡ ok (value t) (taken s)
  pub is : IsInvBut t (taken s) all queue (t ∷ refs)
  pub task : IsPoppedTask (s.done_cell t) (s.queued t) (s.future t) (occurs t all) (occurs t queue)
  pub alive : 0 < s.count t

module _ {F : Type 0} where
  pub pop_poll-Taken :
      (s : Schedular F) (t : ℕ) (all queue refs : List ℕ)
      → IsInv s all (t ∷ queue) refs
      → Taken s t all queue refs
  unfolding pop_poll
  pop_poll-Taken s t all queue refs v =
      let (q, runs, holds) = pop-Holds s.should_poll (t ∷ queue) v.shape.4 in
      let rest : q ≡ (pop_queue s.should_poll).1 = sym (ap (λ p. p.1) runs) in
      let alive : 0 < s.count t = omega (arith, v.counted t, occurs_self t queue) in
      let task =
        IsTask-cong refl refl refl refl (occurs_self t queue)
          (IsInv-task s all (t ∷ queue) refs t v alive) in
      let once =
        popped-once (s.done_cell t) (s.queued t) (s.future t) (occurs t all) (occurs t queue)
          task in
      record {
        runs = ap (λ p. ok p.0 (record s { should_poll = (pop_queue s.should_poll).1 })) runs;
        is = record {
          counted = λ x. ground (arith, v.counted x);
          tasks = λ x ne h.
              IsTask-cong refl refl refl refl (occurs_other t x queue ne)
                (IsInv-task s all (t ∷ queue) refs x v h);
          no_stub = v.no_stub;
          shape = (
            v.shape.0,
            v.shape.1,
            v.shape.2,
            v.shape.3,
            subst (λ z. HoldsQueue z queue) rest holds,
            v.shape.5,
          );
        };
        task = (task, once.0, once.1);
        alive = alive;
      }

  -- What `pop_task_all` takes off
  abbrev pub IsTakenOff : Schedular F → ℕ → List ℕ → List ℕ → List ℕ → Type 0
  IsTakenOff after t all queue refs =
      (left : List ℕ) × IsInv after left queue refs
      × (occurs t left ≡ 0)
      × (length all ≡ length left + 1)

  pub pop_task_all-listed :
      (t : ℕ) (s : Schedular F) (all queue refs : List ℕ)
      → IsInvBut t s all queue refs
      → CanFinish (s.done_cell t) (s.future t)
      → occurs t queue ≤ 1
      → occurs t all ≡ 1
      → (after : Schedular F) × (pop_task_all t s ≡ ok tt after)
        × IsTakenOff after t all queue refs
        × (after.count t ≡ s.count t - 1)
  pop_task_all-listed t s all queue refs v can once listed =
      let (xs, ys, e) = occurs_split t all (omega (arith, listed)) in
      let v' = subst (λ zs. IsInvBut t s zs queue refs) e v in
      let (after, runs, w, count, _, _) = pop_task_all-IsInv t s xs ys queue refs v' can once in
      (
        after,
        runs,
        (
          xs ++ ys,
          w,
          occurs-middle t xs ys v'.shape.2,
          omega (arith, ap length e, length-append xs (t ∷ ys), length-append xs ys),
        ),
        count,
      )

module _ {F : Type 0} (run : F → List (Action F) × Option F) (cx i y t : ℕ) (s : Schedular F)
    (all queue refs : List ℕ) (v : IsInv s all (t ∷ queue) refs) where
  -- A task that was done before is only let go; no task changes its state or future.
  pub poll_round-done :
      s.done_cell t ≡ done
      → (after : Schedular F) × (poll_round run cx i y s ≡ ok (again i y) after)
        × IsInv after all queue refs
        × (after.done_cell ≡ s.done_cell)
        × (after.future ≡ s.future)
  unfolding poll_round task_round
  poll_round-done e =
      let k = pop_poll-Taken s t all queue refs v in
      let w = IsInvBut-back (taken s) all queue (t ∷ refs) t k.is (λ h.
        let old = IsTask-cong e refl refl refl refl k.task.0 in
        IsTask-cong (sym e) refl refl refl refl (old.0, old.1, old.2, omega (arith, k.task.1))) in
      let (runs, w') = decr_task-IsInvBut stub t (taken s) all queue refs w in
      (_, ground (arith, k.runs, k.alive, e, runs), w', refl, refl)

  -- A task that was cancelled is taken off the list of all tasks. Nothing refers to it then, but its
  -- count is too large by one, as if `t` were one of `refs`: the reference that the queue had is
  -- never given up, so the task is not freed.
  pub poll_round-cancelled :
      s.done_cell t ≡ cancelled
      → (after : Schedular F) × (left : List ℕ) × (poll_round run cx i y s ≡ ok (again i y) after)
        × IsInv after left queue (t ∷ refs)
        × (occurs t left + occurs t queue ≡ 0)
        × (after.count t ≡ occurs t refs + 1)
  unfolding poll_round task_round
  poll_round-cancelled e =
      let k = pop_poll-Taken s t all queue refs v in
      let old = IsTask-cong e refl refl refl refl k.task.0 in
      let can : CanFinish (s.done_cell t) (s.future t) =
        subst (λ d. CanFinish d (s.future t)) (sym e) old.0 in
      let (after, runs, (left, w, gone, _), count) =
        pop_task_all-listed t (taken s) all queue (t ∷ refs) k.is can (omega (arith, k.task.1))
          old.1 in
      (
        after,
        left,
        ground (arith, k.runs, k.alive, e, runs),
        w,
        omega (arith, gone, k.task.1),
        omega (arith, count, gone, k.task.1, w.counted t, occurs_self t refs),
      )
