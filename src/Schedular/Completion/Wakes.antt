-- ===== src/Schedular/Completion/Wakes.antt =====
-- src/tree/schedular/waker.rs: wakes of a task by itself.
use reblessive.Base.{
  refl, ◌∙◌, ℕ, ◌+◌, ◌<◌, ◌≤◌, ◌≡◌, Bool, true, false, Option, List, [], ◌∷◌, arith, ok, length,
  length-append, if◌then◌else◌,
}
use reblessive.Schedular.Tasks.{Schedular, assign, incr_task, decr_task, push_poll, claim}
use reblessive.Schedular.Ops.{wake_queue, schedular_wake, schedular_wake_ref}
use reblessive.Schedular.Poll.{
  Action, wake_by_ref, clone_waker, wake, drop_waker, drop_token, spawn, perform, perform_all,
}
use reblessive.Schedular.Occurs.{occurs, occurs-append}
use reblessive.Schedular.Invariant.{IsInv}
use reblessive.Schedular.Invariant.Wakes.{enqueued, schedular_wake_ref-IsInv}

enqueued-length :
    (b : Bool) (t : ℕ) (queue : List ℕ)
    → length (enqueued b t queue) ≡ length queue + (if b then 0 else 1)
enqueued-length true t queue = omega arith
enqueued-length false t queue = omega (arith, length-append queue (t ∷ []))

enqueued-occurs :
    (b : Bool) (t x : ℕ) (queue : List ℕ) → occurs x queue ≤ occurs x (enqueued b t queue)
enqueued-occurs true t x queue = omega arith
enqueued-occurs false t x queue = omega (arith, occurs-append x queue (t ∷ []))

module _ {F : Type 0} where
  -- No task changes its state or its future.
  abbrev pub Kept : Schedular F → Schedular F → Type 0
  Kept s after = (after.done_cell ≡ s.done_cell) × (after.future ≡ s.future)

  schedular_wake-Kept :
      (t : ℕ) (s after : Schedular F) → schedular_wake t s ≡ ok tt after → Kept s after
  unfolding schedular_wake wake_queue decr_task claim push_poll
  schedular_wake-Kept t s after e = (ground (arith, e), ground (arith, e))

  schedular_wake-queued :
      (t : ℕ) (s after : Schedular F) → schedular_wake t s ≡ ok tt after → after.queued t ≡ true
  unfolding schedular_wake wake_queue decr_task claim push_poll assign
  schedular_wake-queued t s after e = ground (arith, e)

  schedular_wake_ref-Kept :
      (t : ℕ) (s after : Schedular F)
      → schedular_wake_ref t s ≡ ok tt after
      → Kept s after × (after.queued t ≡ true)
  unfolding schedular_wake_ref incr_task
  schedular_wake_ref-Kept t s after e =
      let z : Schedular F = record s { count = assign t (s.count t + 1) s.count } in
      let runs : schedular_wake t z ≡ ok tt after = ground (arith, e) in
      (schedular_wake-Kept t z after runs, schedular_wake-queued t z after runs)

  -- Room in the queue for the task
  abbrev pub room : Schedular F → ℕ → ℕ
  room s t = if s.queued t then 0 else 1

  -- A future that does nothing to the scheduler but wake its own task
  abbrev pub OwnWakes : ℕ → List (Action F) → Type 0
  OwnWakes t [] = Unit
  OwnWakes t (clone_waker x ∷ as') = ⊥
  OwnWakes t (wake x ∷ as') = ⊥
  OwnWakes t (wake_by_ref x ∷ as') = (x ≡ t) × OwnWakes t as'
  OwnWakes t (drop_waker x ∷ as') = ⊥
  OwnWakes t (drop_token x ∷ as') = ⊥
  OwnWakes t (spawn x f ∷ as') = ⊥

  -- The heap behind those
  pub record Woken (run : F → List (Action F) × Option F) (t : ℕ) (s : Schedular F)
      (all queue refs : List ℕ) (as' : List (Action F)) : Type 0 where
    pub after : Schedular F
    pub later : List ℕ
    pub runs : perform_all run as' s ≡ ok tt after
    pub is : IsInv after all later refs
    pub kept : Kept s after
    pub shorter : length later + room after t ≤ length queue + room s t
    pub holds : (x : ℕ) → occurs x queue ≤ occurs x later

  pub own-Woken :
      (run : F → List (Action F) × Option F) (t : ℕ) (s : Schedular F) (all queue refs : List ℕ)
      (as' : List (Action F))
      → IsInv s all queue refs
      → 0 < occurs t refs
      → OwnWakes t as'
      → Woken run t s all queue refs as'
  unfolding perform_all perform
  own-Woken run t s all queue refs [] v held own = record {
    after = s;
    later = queue;
    runs = refl;
    is = v;
    kept = (refl, refl);
    shorter = omega arith;
    holds = λ x. omega arith;
  }
  own-Woken run t s all queue refs (clone_waker x ∷ as') v held own = absurd own
  own-Woken run t s all queue refs (wake x ∷ as') v held own = absurd own
  own-Woken run t s all queue refs (drop_waker x ∷ as') v held own = absurd own
  own-Woken run t s all queue refs (drop_token x ∷ as') v held own = absurd own
  own-Woken run t s all queue refs (spawn x f ∷ as') v held own = absurd own
  own-Woken run t s all queue refs (wake_by_ref x ∷ as') v held own =
      let (mid, runs, w) = schedular_wake_ref-IsInv t s all queue refs v held in
      let (kept, set) = schedular_wake_ref-Kept t s mid runs in
      let rest = own-Woken run t mid all (enqueued (s.queued t) t queue) refs as' w held own.1 in
      record {
        after = rest.after;
        later = rest.later;
        runs = ground (arith, own.0, runs, rest.runs);
        is = rest.is;
        kept = (rest.kept.0 ∙ kept.0, rest.kept.1 ∙ kept.1);
        shorter =
            let left = rest.shorter in
            let nothing : room mid t ≡ 0 = ground (arith, set) in
            omega (arith, enqueued-length (s.queued t) t queue);
        holds = λ x. omega (arith, rest.holds x, enqueued-occurs (s.queued t) t x queue);
      }
