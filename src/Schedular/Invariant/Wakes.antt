-- ===== src/Schedular/Invariant/Wakes.antt =====
-- src/tree/schedular/waker.rs and `CancelToken::drop`: a task comes to the queue.
use reblessive.Base.{
  refl, sym, ◌∙◌, ℕ, ◌+◌, ◌<◌, ◌≡◌, Bool, true, false, not, Bool-cases, inl, inr, List, [], ◌∷◌,
  ◌++◌, arith, ok, if◌then◌else◌,
}
use reblessive.Schedular.Queue.{stub}
use reblessive.Schedular.Tasks.{Schedular, assign, claim, push_poll}
use reblessive.Schedular.Ops.{schedular_wake, schedular_wake_ref, wake_queue}
use reblessive.Schedular.AllList.{assign_same, assign_other}
use reblessive.Schedular.Occurs.{occurs}
use reblessive.Schedular.Invariant.{IsInv, IsInv-task, IsInvBut-back}
use reblessive.Schedular.Invariant.Refs.{
  with_count, with_queued, pushed, decr_task-IsInvBut, incr_task-IsInvBut, wake_parent_lem,
  IsTask-cong, IsInv-pushed,
}

-- The queue behind a wake of the task, from the flag of the task
abbrev pub enqueued : Bool → ℕ → List ℕ → List ℕ
enqueued flag t queue = if flag then queue else queue ++ t ∷ []

module _ {F : Type 0} (t : ℕ) (s : Schedular F) (all queue refs : List ℕ)
    (v : IsInv s all queue (t ∷ refs)) where
  alive : 0 < s.count t
  alive = ground (arith, v.counted t)

  claim_lem : claim t s ≡ ok (not (s.queued t)) (with_queued t true s)
  unfolding claim assign
  claim_lem = ground (arith, alive)

  -- The flag of a task that is in the queue is set again.
  claimed-IsInv : s.queued t ≡ true → IsInv (with_queued t true s) all queue (t ∷ refs)
  claimed-IsInv set =
      IsInvBut-back (with_queued t true s) all queue (t ∷ refs) t
        (record {
          counted = v.counted;
          tasks = λ x ne h.
              IsTask-cong refl (sym (assign_other t x true s.queued ne)) refl refl refl
                (IsInv-task s all queue (t ∷ refs) x v h);
          no_stub = v.no_stub;
          shape = v.shape;
        })
        (λ h.
          IsTask-cong refl (set ∙ sym (assign_same t true s.queued)) refl refl refl
            (IsInv-task s all queue (t ∷ refs) t v h))

  wake-queued :
      s.queued t ≡ true
      → (after : Schedular F) × (schedular_wake t s ≡ ok tt after) × IsInv after all queue refs
  unfolding schedular_wake
  wake-queued set =
      let (runs, w) =
        decr_task-IsInvBut stub t (with_queued t true s) all queue refs (claimed-IsInv set) in
      (_, ground (arith, claim_lem, set, runs), w)

  push_poll_lem : push_poll t (with_queued t true s) ≡ ok tt (pushed t (with_queued t true s))
  unfolding push_poll
  push_poll_lem = ground (arith, alive)

  wake-free :
      s.queued t ≡ false
      → (after : Schedular F) × (schedular_wake t s ≡ ok tt after)
        × IsInv after all (queue ++ t ∷ []) refs
  unfolding schedular_wake wake_queue
  wake-free free =
      let w = IsInv-pushed t s all queue refs v free in
      let (after, runs, w') =
        wake_parent_lem stub (pushed t (with_queued t true s)) all (queue ++ t ∷ []) refs w in
      (after, ground (arith, claim_lem, free, v.shape.5, push_poll_lem, runs), w')

  -- A wake gives the reference of its waker to the queue, if the task is not in the queue already.
  pub schedular_wake-IsInv :
      (after : Schedular F) × (schedular_wake t s ≡ ok tt after)
      × IsInv after all (enqueued (s.queued t) t queue) refs
  schedular_wake-IsInv = elim (Bool-cases (s.queued t)) [
    | inl set ↦ let (after, runs, w) = wake-queued set in (after, runs, rw set w)
    | inr free ↦ let (after, runs, w) = wake-free free in (after, runs, rw free w)
  ]

module _ {F : Type 0} (t : ℕ) (s : Schedular F) (all queue refs : List ℕ)
    (v : IsInv s all queue refs) (held : 0 < occurs t refs) where
  -- A wake by reference leaves the reference of the waker to the waker.
  pub schedular_wake_ref-IsInv :
      (after : Schedular F) × (schedular_wake_ref t s ≡ ok tt after)
      × IsInv after all (enqueued (s.queued t) t queue) refs
  unfolding schedular_wake_ref
  schedular_wake_ref-IsInv =
      let (made, w) = incr_task-IsInvBut stub t s all queue refs v held in
      let (after, runs, w') =
        schedular_wake-IsInv t (with_count t (s.count t + 1) s) all queue refs w in
      (after, ground (arith, made, runs), w')
