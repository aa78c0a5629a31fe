-- ===== src/Schedular/Unwinding.antt =====
-- src/tree/schedular/mod.rs: `Schedular::poll` where the future of a task panics. The panic unwinds
-- through `poll`, whose `Defer` takes the task off the list and whose waker is dropped behind it.
use reblessive.Base.{
  ℕ, zero, suc, ◌+◌, ◌≡◌, Bool, true, Option, none, some, List, ◌∷◌, arith, ok, Outcome, Cmd, pure,
  ◌>>=◌, ◌>>◌, deref, explicit, out_of_fuel, if◌then◌else◌,
}
use reblessive.Locals.{Answer, returned, unwound}
use reblessive.Stack.Defs.{Poll, ready, pending}
use reblessive.Schedular.Queue.{empty, value, inconsistant}
use reblessive.Schedular.Tasks.{
  running, cancelled, done, Schedular, assign, get, modify, touch, is_empty, decr_task, pop_poll,
  wake_context,
}
use reblessive.Schedular.Ops.{pop_task_all}
use reblessive.Schedular.Poll.{Action, Round, again, return, perform_all, unclaim, pending_round}
use reblessive.Schedular.Invariant.{IsInv}
use reblessive.Schedular.Uses.{Good, AllUse}
use reblessive.Schedular.Rounds.{Taken, taken, pop_poll-Taken}
use reblessive.Schedular.Running.{started, unclaim_lem, drive_all, finish-Good}

-- A future that throws panics in its poll, behind what it does there.
module _ {F : Type 0} (run : F → List (Action F) × Option F) (throws : F → Bool) where
  -- `Schedular::drive_task`
  unfoldable pub drive_unwinding : ℕ → Cmd (Schedular F) (Answer (Poll (Unit {0})))
  unfolding perform_all assign
  drive_unwinding t = do
    touch t
    s ← get
    f ← deref (s.future t)
    perform_all run (run f).0
    if throws f then pure (unwound explicit) else (elim (run f).1 [
      | none ↦ pure (returned (ready tt))
      | some g ↦ do
        s ← get
        _ ← deref (s.future t)
        modify (λ s. record s { future = assign t (some g) s.future })
        pure (returned pending)
    ])

  -- The round of a task that is running
  unfoldable pub running_unwinding : ℕ → ℕ → ℕ → ℕ → Cmd (Schedular F) (Answer Round)
  unfolding unclaim drive_unwinding pop_task_all decr_task pending_round
  running_unwinding cx t iteration yielded = do
    unclaim t
    a ← drive_unwinding t
    elim a [
      | unwound p ↦ do pop_task_all t; decr_task t; pure (unwound p)
      | returned r ↦ elim r [
        | ready _ ↦ do pop_task_all t; decr_task t; pure (returned (again (iteration + 1) yielded))
        | pending ↦ do q ← pending_round cx t (iteration + 1) yielded; pure (returned q)
      ]
    ]

  -- One round of the loop
  unfoldable pub round_unwinding : ℕ → ℕ → ℕ → Cmd (Schedular F) (Answer Round)
  unfolding pop_poll running_unwinding pop_task_all decr_task
  round_unwinding cx iteration yielded = do
    p ← pop_poll
    elim p [
      | empty ↦ λ s. ok (returned (return (if is_empty s then ready tt else pending))) s
      | inconsistant ↦ do wake_context cx; pure (returned (return pending))
      | value t ↦ do
        touch t
        s ← get
        elim (s.done_cell t) [
          | cancelled ↦ do pop_task_all t; pure (returned (again iteration yielded))
          | done ↦ do decr_task t; pure (returned (again iteration yielded))
          | running ↦ running_unwinding cx t iteration yielded
        ]
    ]

  -- The loop of `Schedular::poll`, for at most so many rounds
  unfoldable pub loop_unwinding : ℕ → ℕ → ℕ → ℕ → Cmd (Schedular F) (Answer (Poll (Unit {0})))
  unfolding round_unwinding
  loop_unwinding zero cx iteration yielded s = out_of_fuel
  loop_unwinding (suc n) cx iteration yielded s =
      (do
        a ← round_unwinding cx iteration yielded
        elim a [
          | unwound p ↦ pure (unwound p)
          | returned r ↦ elim r [
            | return p ↦ pure (returned p)
            | again i y ↦ loop_unwinding n cx i y
          ]
        ])
        s

module _ {F : Type 0} (run : F → List (Action F) × Option F) (throws : F → Bool) (cx i y t : ℕ)
    (s : Schedular F) (all queue refs : List ℕ) (k : Taken s t all queue refs)
    (e : s.done_cell t ≡ running) (f : F) (has : s.future t ≡ some f) (throw : throws f ≡ true)
    (end : Schedular F) (left : List ℕ)
    (uses : AllUse run (started t s) (run f).0 (t ∷ refs) (t ∷ left) end)
    (still : end.done_cell t ≡ running) where
  drive_unwinding-thrown : drive_unwinding run throws t (started t s) ≡ ok (unwound explicit) end
  unfolding drive_unwinding
  drive_unwinding-thrown = ground (
    arith,
    k.alive,
    has,
    (drive_all run cx i y t s all queue refs k e f has end left uses still).0,
    throw,
  )

  abbrev Unwound : (Schedular F → Outcome (Schedular F) (Answer Round)) → Schedular F → Type 0
  Unwound m z = (after : Schedular F) × (m z ≡ ok (unwound explicit) after) × Good left after

  running_unwinding-Good : Unwound (running_unwinding run throws cx t i y) (taken s)
  unfolding running_unwinding
  running_unwinding-Good =
      let good = (drive_all run cx i y t s all queue refs k e f has end left uses still).1 in
      let (s₁, s₂, runs, runs', after) = finish-Good t end left good still in
      (
        s₂,
        ground (arith, unclaim_lem t s all queue refs k e, drive_unwinding-thrown, runs, runs'),
        after,
      )

  round_unwinding-Good : Unwound (round_unwinding run throws cx i y) s
  unfolding round_unwinding
  round_unwinding-Good =
      let (after, runs, good) = running_unwinding-Good in
      (after, ground (arith, k.runs, k.alive, e, runs), good)

module _ {F : Type 0} (run : F → List (Action F) × Option F) (throws : F → Bool) where
  -- `Schedular::poll`
  unfoldable pub poll_unwinding : ℕ → ℕ → Cmd (Schedular F) (Answer (Poll (Unit {0})))
  unfolding loop_unwinding
  poll_unwinding fuel cx s =
      if is_empty s
      then ok (returned (ready tt)) s
      else loop_unwinding run throws fuel cx 0 0 (record s { parent = some cx })

  -- The first task of the queue is running, and its future uses references that it has, until the
  -- heap is `end`, and panics there. The panic leaves the loop: the task is off the list, its future
  -- and its waker are dropped, no other task is touched, and every task is in one of its states.
  pub loop_unwinding-Good :
      (n cx i y t : ℕ) (s end : Schedular F) (all queue refs left : List ℕ) (f : F)
      → IsInv s all (t ∷ queue) refs
      → s.done_cell t ≡ running
      → s.future t ≡ some f
      → throws f ≡ true
      → AllUse run (started t s) (run f).0 (t ∷ refs) (t ∷ left) end
      → end.done_cell t ≡ running
      → (after : Schedular F) × (loop_unwinding run throws (suc n) cx i y s
          ≡ ok (unwound explicit) after)
        × Good left after
  unfolding loop_unwinding
  loop_unwinding-Good n cx i y t s end all queue refs left f v e has throw uses still =
      let k = pop_poll-Taken s t all queue refs v in
      let (after, runs, good) =
        round_unwinding-Good run throws cx i y t s all queue refs k e f has throw end left uses
          still in
      (after, ground (arith, runs), good)
