-- ===== src/Schedular/Invariant/Cancel.antt =====
-- src/tree/schedular/mod.rs, `CancelToken::drop`.
use mathlib.Core.Path.{subst}
use reblessive.Base.{
  refl, sym, ◌∙◌, ℕ, ◌<◌, ◌≡◌, ◌≢◌, true, Bool-cases, Option-cases, inl, inr, Option, none, some,
  List, [], ◌∷◌, ◌++◌, arith, ok, if◌then◌else◌,
}
use reblessive.Schedular.Queue.{stub}
use reblessive.Schedular.Tasks.{
  TaskState, running, cancelled, done, Schedular, assign, claim, push_poll, decr_task, drop_task,
}
use reblessive.Schedular.Ops.{wake_queue, cancel, cancel_running, cancel_queue}
use reblessive.Schedular.AllList.{assign_same, assign_other}
use reblessive.Schedular.Occurs.{occurs, occurs-append, occurs-enqueue}
use reblessive.Schedular.Invariant.{HasFuture, Flag, IsInv, IsTask, IsInv-task, IsInvBut-back}
use reblessive.Schedular.Invariant.Refs.{
  pushed, decr_task-IsInvBut, wake_parent_lem, IsTask-cong, IsShape-pushed, IsInvBut-ne_stub,
}
use reblessive.Schedular.Invariant.Wakes.{enqueued}

-- Waking the queue before the push comes to the same as behind it.
pub cancel_queue-wake_queue :
    {F : Type 0} → (t : ℕ) (s : Schedular F) → cancel_queue t s ≡ wake_queue t s
unfolding cancel_queue wake_queue push_poll decr_task
cancel_queue-wake_queue t s = elim (Option-cases s.parent) [
  | inl e ↦ ground (arith, e)
  | inr (w, e) ↦ ground (arith, e)
]

pub HasFuture-some : {F : Type 0} → (f : Option F) → HasFuture f → (g : F) × (f ≡ some g)
HasFuture-some none h = absurd h
HasFuture-some (some g) h = (g, refl)

module _ {F : Type 0} (t : ℕ) (s : Schedular F) (all queue refs : List ℕ)
    (v : IsInv s all queue (t ∷ refs)) where
  alive : 0 < s.count t
  alive = ground (arith, v.counted t)

  -- The task when it is cancelled, and its flag set
  abbrev dropped : Schedular F
  dropped = record s {
    done_cell = assign t cancelled s.done_cell;
    future = assign t none s.future;
    queued = assign t true s.queued;
  }

  cancel_running-claimed :
      HasFuture (s.future t)
      → cancel_running t s ≡ (if s.queued t then decr_task t dropped else cancel_queue t dropped)
  unfolding cancel_running drop_task claim assign
  cancel_running-claimed h =
      let (g, e) = HasFuture-some (s.future t) h in
      elim (Bool-cases (s.queued t)) [
        | inl set ↦ ground (arith, alive, e, set)
        | inr free ↦ ground (arith, alive, e, free)
      ]

  -- The other tasks are as they were.
  other :
      (x : ℕ)
      → x ≢ t
      → 0 < s.count x
      → IsTask
          (dropped.done_cell x)
          (dropped.queued x)
          (dropped.future x)
          (occurs x all)
          (occurs x queue)
  other x ne h =
      IsTask-cong (sym (assign_other t x cancelled s.done_cell ne))
        (sym (assign_other t x true s.queued ne)) (sym (assign_other t x none s.future ne)) refl
        refl (IsInv-task s all queue (t ∷ refs) x v h)

  own :
      (m : ℕ)
      → occurs t all ≡ 1
      → m ≡ 1
      → IsTask (dropped.done_cell t) (dropped.queued t) (dropped.future t) (occurs t all) m
  own m listed one =
      IsTask-cong (sym (assign_same t cancelled s.done_cell)) (sym (assign_same t true s.queued))
        (sym (assign_same t none s.future)) (sym listed) (sym one) (refl, refl, refl, refl)

  cancel-queued :
      occurs t all ≡ 1
      → occurs t queue ≡ 1
      → (after : Schedular F) × (decr_task t dropped ≡ ok tt after) × IsInv after all queue refs
  cancel-queued listed waiting =
      let w =
        IsInvBut-back dropped all queue (t ∷ refs) t
          (record { counted = v.counted; tasks = other; no_stub = v.no_stub; shape = v.shape })
          (λ h. own (occurs t queue) listed waiting) in
      let (runs, w') = decr_task-IsInvBut stub t dropped all queue refs w in (_, runs, w')

  push_dropped : push_poll t dropped ≡ ok tt (pushed t dropped)
  unfolding push_poll
  push_dropped = ground (arith, alive)

  cancel-free :
      occurs t all ≡ 1
      → occurs t queue ≡ 0
      → (after : Schedular F) × (cancel_queue t dropped ≡ ok tt after)
        × IsInv after all (queue ++ t ∷ []) refs
  unfolding wake_queue
  cancel-free listed away =
      let w =
        IsInvBut-back (pushed t dropped) all (queue ++ t ∷ []) refs t
          (record {
            counted = λ x. ground (arith, v.counted x, occurs-append x queue (t ∷ []));
            tasks = λ x ne h.
                IsTask-cong refl refl refl refl (sym (occurs-enqueue x t queue ne)) (other x ne h);
            no_stub = v.no_stub;
            shape =
                IsShape-pushed dropped all queue t v.shape away
                  (IsInvBut-ne_stub stub t s all queue (t ∷ refs) v alive);
          })
          (λ h.
            own (occurs t (queue ++ t ∷ [])) listed
              (ground (arith, away, occurs-append t queue (t ∷ [])))) in
      let (after, runs, w') =
        wake_parent_lem stub (pushed t dropped) all (queue ++ t ∷ []) refs w in
      (after, cancel_queue-wake_queue t dropped ∙ ground (arith, v.shape.5, push_dropped, runs), w')

  cancel_running-IsInv :
      HasFuture (s.future t)
      → occurs t all ≡ 1
      → Flag (s.queued t) (occurs t queue)
      → (after : Schedular F) × (cancel_running t s ≡ ok tt after)
        × IsInv after all (enqueued (s.queued t) t queue) refs
  cancel_running-IsInv h listed flag = elim (Bool-cases (s.queued t)) [
    | inl set ↦
        let (after, runs, w) =
          cancel-queued listed (subst (λ b. Flag b (occurs t queue)) set flag) in
        (after, cancel_running-claimed h ∙ rw set runs, rw set w)
    | inr free ↦
        let (after, runs, w) =
          cancel-free listed (subst (λ b. Flag b (occurs t queue)) free flag) in
        (after, cancel_running-claimed h ∙ rw free runs, rw free w)
  ]

  cancel-state :
      (d : TaskState)
      → s.done_cell t ≡ d
      → IsTask d (s.queued t) (s.future t) (occurs t all) (occurs t queue)
      → (after : Schedular F) × (later : List ℕ) × (cancel t s ≡ ok tt after)
        × IsInv after all later refs
  unfolding cancel
  cancel-state running e k =
      let (after, runs, w) = cancel_running-IsInv k.0 k.1 k.2 in
      (after, _, ground (arith, alive, e, runs), w)
  cancel-state cancelled e k =
      let (runs, w) = decr_task-IsInvBut stub t s all queue refs v in
      (_, queue, ground (arith, alive, e, runs), w)
  cancel-state done e k =
      let (runs, w) = decr_task-IsInvBut stub t s all queue refs v in
      (_, queue, ground (arith, alive, e, runs), w)

  -- A cancel token that is dropped gives up its reference, whatever state the task is in. A task
  -- that was running loses its future and comes to the queue.
  pub cancel-IsInv :
      (after : Schedular F) × (later : List ℕ) × (cancel t s ≡ ok tt after)
      × IsInv after all later refs
  cancel-IsInv = cancel-state (s.done_cell t) refl (IsInv-task s all queue (t ∷ refs) t v alive)
