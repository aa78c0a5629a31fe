-- ===== src/Schedular/Completion.antt =====
-- src/tree/schedular/mod.rs: a call of `poll` for tasks that are all ready at their next poll.
use mathlib.Core.Path.{subst}
use native.Mathlib.Decide.{ℕ_discrete}
use reblessive.Base.{
  refl, sym, ap, ◌∙◌, ℕ, zero, suc, ◌+◌, ◌-◌, ◌<◌, ◌≤◌, ◌≡◌, ◌≢◌, ◌⊎◌, Bool, true, false, Option,
  none, some, List, [], ◌∷◌, ◌++◌, inl, inr, arith, ok, length, length-append, if◌then◌else◌,
}
use reblessive.Stack.Defs.{Poll, ready, pending}
use reblessive.Schedular.Queue.{stub, pop-Holds, empty}
use reblessive.Schedular.Queue.{pop as pop_queue}
use reblessive.Schedular.Tasks.{
  TaskState, running, cancelled, done, Schedular, assign, decr_task, is_empty, pop_poll,
}
use reblessive.Schedular.Ops.{pop_task_all}
use reblessive.Schedular.Poll.{
  Action, Round, again, return, perform_all, drive_task, running_round, task_round, poll_round,
  poll_loop, poll,
}
use reblessive.Schedular.Occurs.{
  occurs, occurs_self, occurs_other, occurs_split, occurs-middle, occurs-insert,
}
use reblessive.Schedular.Invariant.{IsInv, IsInvBut, IsTask, IsInv-task, IsInv-but}
use reblessive.Schedular.Invariant.Refs.{with_count, decr_task-IsInvBut, IsTask-cong}
use reblessive.Schedular.Invariant.Finish.{CanFinish, pop_task_all-IsInv}
use reblessive.Schedular.Rounds.{Taken, taken, pop_poll-Taken, poll_round-done}
use reblessive.Schedular.Running.{started, unclaim_lem, started-IsInv, Flag-le}
use reblessive.Schedular.Completion.Running.{Ready, Rounded, ready-Rounded}
mod Wakes
mod Running

TaskState-cases : (d : TaskState) → (d ≡ running) ⊎ ((d ≡ cancelled) ⊎ (d ≡ done))
TaskState-cases running = inl refl
TaskState-cases cancelled = inr (inl refl)
TaskState-cases done = inr (inr refl)

-- Every task is ready, and in the queue.
abbrev pub AllReady :
    {F : Type 0} → (F → List (Action F) × Option F) → Schedular F → List ℕ → List ℕ → Type 0
AllReady run s all queue = (x : ℕ) → 0 < occurs x all → Ready run s x × (0 < occurs x queue)

module _ {F : Type 0} (run : F → List (Action F) × Option F) (cx : ℕ) where
  Ready-cong :
      (s after : Schedular F) (x : ℕ)
      → (after.done_cell x ≡ s.done_cell x) × (after.future x ≡ s.future x)
      → Ready run s x
      → Ready run after x
  Ready-cong s after x (d, f) r = (d ∙ r.0, (r.1.0, f ∙ r.1.1, r.1.2, r.1.3))

  -- A poll that is over, with nothing left
  Settled : ℕ → ℕ → ℕ → Schedular F → List ℕ → Type 0
  Settled n i y s refs =
      (after : Schedular F) × (poll_loop run n cx i y s ≡ ok (ready tt) after)
      × IsInv after [] [] refs

  later-Settled :
      (n i j y : ℕ) (s mid : Schedular F) (refs : List ℕ)
      → poll_round run cx i y s ≡ ok (again j y) mid
      → Settled n j y mid refs
      → Settled (suc n) i y s refs
  unfolding poll_loop Settled
  later-Settled n i j y s mid refs e (after, runs, w) = (after, ground (arith, e, runs), w)

  empty-Settled :
      (n i y : ℕ) (s : Schedular F) (refs : List ℕ)
      → IsInv s [] [] refs
      → Settled (suc n) i y s refs
  unfolding poll_loop poll_round pop_poll Settled
  empty-Settled n i y s refs v =
      let front = v.shape.0 in (s, ground (arith, pop-Holds s.should_poll [] v.shape.4, front), v)

  round-Settled :
      (n i y t : ℕ) (s : Schedular F) (all queue refs : List ℕ) (r : Ready run s t)
      → (v : IsInv s all (t ∷ queue) refs) → AllReady run s all (t ∷ queue)
      → ((z : Rounded run cx i y t s all queue refs v r)
          → AllReady run z.after z.left z.later
          → Settled n (i + 1) y z.after refs)
      → Settled (suc n) i y s refs
  round-Settled n i y t s all queue refs r v each rest =
      let z = ready-Rounded run cx i y t s all queue refs v r in
      later-Settled n i (i + 1) y s z.after refs z.runs (
        rest z (λ x h.
          let ne : x ≢ t =
            λ e. absurd (omega (arith, h, z.shrunk.gone, ap (λ u. occurs u z.left) e)) in
          let old = each x (omega (arith, h, z.shrunk.within x)) in
          (
            Ready-cong s z.after x (z.shrunk.same x ne) old.0,
            omega (arith, old.1, occurs_other t x queue ne, z.holds x),
          )))

  -- The loop runs all tasks to their ends.
  loop-Settled :
      (n i y : ℕ) (s : Schedular F) (all queue refs : List ℕ)
      → IsInv s all queue refs
      → AllReady run s all queue
      → length all + length queue < n
      → Settled n i y s refs
  loop-Settled zero i y s all queue refs v each h = absurd (omega arith)
  loop-Settled (suc n) i y s [] [] refs v each h = empty-Settled n i y s refs v
  loop-Settled (suc n) i y s (x ∷ all) [] refs v each h =
      let waits = (each x (omega (arith, occurs_self x all))).1 in absurd (omega arith)
  loop-Settled (suc n) i y s all (t ∷ queue) refs v each h =
      let alive : 0 < s.count t = omega (arith, v.counted t, occurs_self t queue) in
      let task = IsInv-task s all (t ∷ queue) refs t v alive in
      elim (TaskState-cases (s.done_cell t)) [
        | inl e ↦
            let listed = (IsTask-cong e refl refl refl refl task).1 in
            round-Settled n i y t s all queue refs (each t (omega arith)).0 v each (λ z each'.
              loop-Settled n (i + 1) y z.after z.left z.later refs z.is each'
                (omega (arith, z.few, z.shrunk.shorter)))
        | inr (inl e) ↦
            let listed = (IsTask-cong e refl refl refl refl task).1 in
            let r = (each t (omega arith)).0.0 in absurd (ground (arith, e, r))
        | inr (inr e) ↦
            let listed = (IsTask-cong e refl refl refl refl task).1 in
            let (after, runs, w, d, f) = poll_round-done run cx i y t s all queue refs v e in
            later-Settled n i i y s after refs runs (
              loop-Settled n i y after all queue refs w
                (λ x hx.
                  let ne : x ≢ t = λ q. absurd (omega (arith, hx, ap (λ u. occurs u all) q)) in
                  let old = each x hx in
                  (
                    Ready-cong s after x
                        (ap (λ (c : ℕ → TaskState). c x) d, ap (λ (c : ℕ → Option F). c x) f) old.0,
                    omega (arith, old.1, occurs_other t x queue ne),
                  ))
                (omega arith))
      ]

  -- If every task is in the queue and will be ready at its next poll, waking at most itself in it,
  -- one call of `poll` runs them all to their ends and returns ready; no reference is left but those
  -- of wakers and cancel tokens.
  pub poll-ready :
      (fuel t : ℕ) (s : Schedular F) (all queue refs : List ℕ)
      → IsInv s (t ∷ all) queue refs
      → AllReady run s (t ∷ all) queue
      → length all + length queue + 1 < fuel
      → (after : Schedular F) × (poll run fuel cx s ≡ ok (ready tt) after) × IsInv after [] [] refs
  unfolding poll Settled
  poll-ready fuel t s all queue refs v each h =
      let z : Schedular F = record s { parent = some cx } in
      let front = v.shape.0 in
      let (after, runs, w) =
        loop-Settled fuel 0 0 z (t ∷ all) queue refs
          (record { counted = v.counted; tasks = v.tasks; no_stub = v.no_stub; shape = v.shape })
          each (omega arith) in
      (after, ground (arith, front, runs), w)
