-- ===== src/Schedular/Invariant/Refs.antt =====
-- src/tree/schedular/mod.rs and waker.rs: references that are made, given up, or given to the queue.
use mathlib.Core.Path.{subst}
use reblessive.Base.{
  refl, sym, ap, ℕ, ◌+◌, ◌-◌, ◌<◌, ◌≡◌, ◌≢◌, Bool, true, false, Option-cases, inl, inr, Option,
  none, List, [], ◌∷◌, ◌++◌, arith, ok,
}
use reblessive.Schedular.Queue.{stub, push-Holds}
use reblessive.Schedular.Queue.{push as push_queue}
use reblessive.Schedular.Tasks.{
  TaskState, running, cancelled, done, Schedular, assign, incr_task, decr_task, wake_parent,
}
use reblessive.Schedular.AllList.{assign_same, assign_other}
use reblessive.Schedular.Occurs.{occurs, occurs-Missing, occurs-append, occurs-enqueue}
use reblessive.Schedular.Invariant.{IsInv, IsInvBut, IsTask, IsShape, IsInv-task, IsInvBut-back}

module _ {F : Type 0} where
  abbrev pub with_count : ℕ → ℕ → Schedular F → Schedular F
  with_count t n s = record s { count = assign t n s.count }

  -- A reference is given up. The task is freed if it was the last one.
  pub decr_task-IsInvBut :
      (but t : ℕ) (s : Schedular F) (all queue refs : List ℕ)
      → IsInvBut but s all queue (t ∷ refs)
      → (decr_task t s ≡ ok tt (with_count t (s.count t - 1) s))
        × IsInvBut but (with_count t (s.count t - 1) s) all queue refs
  unfolding decr_task assign
  decr_task-IsInvBut but t s all queue refs v = (
    ground (arith, v.counted t),
    record {
      counted = λ x. ground (arith, v.counted x);
      tasks = λ x ne h. v.tasks x ne (ground (arith, v.counted x));
      no_stub = ground (arith, v.no_stub);
      shape = v.shape;
    },
  )

  -- A reference is made from one that is there.
  pub incr_task-IsInvBut :
      (but t : ℕ) (s : Schedular F) (all queue refs : List ℕ)
      → IsInvBut but s all queue refs
      → 0 < occurs t refs
      → (incr_task t s ≡ ok tt (with_count t (s.count t + 1) s))
        × IsInvBut but (with_count t (s.count t + 1) s) all queue (t ∷ refs)
  unfolding incr_task assign
  incr_task-IsInvBut but t s all queue refs v held = (
    ground (arith, v.counted t),
    record {
      counted = λ x. ground (arith, v.counted x);
      tasks = λ x ne h. v.tasks x ne (ground (arith, v.counted x, v.counted t));
      no_stub = ground (arith, v.no_stub, v.counted stub);
      shape = v.shape;
    },
  )

  abbrev pub with_queued : ℕ → Bool → Schedular F → Schedular F
  with_queued t b s = record s { queued = assign t b s.queued }

  abbrev pub pushed : ℕ → Schedular F → Schedular F
  pushed t s = record s { should_poll = push_queue t s.should_poll }

  pub wake_parent_lem :
      (but : ℕ) (s : Schedular F) (all queue refs : List ℕ)
      → IsInvBut but s all queue refs
      → (after : Schedular F) × (wake_parent s ≡ ok tt after) × IsInvBut but after all queue refs
  wake_parent_lem but s all queue refs v = elim (Option-cases s.parent) [
    | inl e ↦ (s, ground (arith, e), v)
    | inr (w, e) ↦ (
      record s { parent = none; woken = w ∷ s.woken },
      ground (arith, e),
      record { counted = v.counted; tasks = v.tasks; no_stub = v.no_stub; shape = v.shape },
    )
  ]

  pub IsTask-cong :
      {d d' : TaskState} {b b' : Bool} {f f' : Option F} {n n' m m' : ℕ}
      → d ≡ d'
      → b ≡ b'
      → f ≡ f'
      → n ≡ n'
      → m ≡ m'
      → IsTask d b f n m
      → IsTask d' b' f' n' m'
  IsTask-cong {d} {d'} {b} {b'} {f} {f'} {n} {n'} {m} {m'} p q r x y k =
      subst (λ z. IsTask z b' f' n' m') p
        (subst (λ z. IsTask d z f' n' m') q
          (subst (λ z. IsTask d b z n' m') r
            (subst (λ z. IsTask d b f z m') x (subst (λ z. IsTask d b f n z) y k))))

  IsTask-claim :
      (d : TaskState) (f : Option F) (n m : ℕ)
      → IsTask d false f n m
      → (m ≡ 0) × IsTask d true f n 1
  IsTask-claim running f n m k = (k.2, (k.0, k.1, refl))
  IsTask-claim cancelled f n m k = cc
  IsTask-claim done f n m k = cc

  -- A task that is not in the queue is put at its end.
  pub IsShape-pushed :
      (s : Schedular F) (all queue : List ℕ) (t : ℕ)
      → IsShape s all queue
      → occurs t queue ≡ 0
      → t ≢ stub
      → IsShape (pushed t s) all (queue ++ t ∷ [])
  IsShape-pushed s all queue t (a, b, c, d, e, f) away ne =
      (a, b, c, d, push-Holds s.should_poll t queue e (ne, occurs-Missing t queue away), f)

  pub IsInvBut-ne_stub :
      (but t : ℕ) (s : Schedular F) (all queue refs : List ℕ)
      → IsInvBut but s all queue refs
      → 0 < s.count t
      → t ≢ stub
  IsInvBut-ne_stub but t s all queue refs v h = λ e. absurd (omega (arith, v.no_stub, ap s.count e))

  -- A reference goes into the queue.
  pub IsInv-pushed :
      (t : ℕ) (s : Schedular F) (all queue refs : List ℕ)
      → IsInv s all queue (t ∷ refs)
      → s.queued t ≡ false
      → IsInv (pushed t (with_queued t true s)) all (queue ++ t ∷ []) refs
  IsInv-pushed t s all queue refs v free =
      let alive : 0 < s.count t = ground (arith, v.counted t) in
      let old = IsInv-task s all queue (t ∷ refs) t v alive in
      let (away, claimed) =
        IsTask-claim (s.done_cell t) (s.future t) (occurs t all) (occurs t queue)
          (IsTask-cong refl free refl refl refl old) in
      IsInvBut-back (pushed t (with_queued t true s)) all (queue ++ t ∷ []) refs t
        (record {
          counted = λ x. ground (arith, v.counted x, occurs-append x queue (t ∷ []));
          tasks = λ x ne h.
              IsTask-cong refl (sym (assign_other t x true s.queued ne)) refl refl
                (sym (occurs-enqueue x t queue ne)) (IsInv-task s all queue (t ∷ refs) x v h);
          no_stub = v.no_stub;
          shape =
              IsShape-pushed (with_queued t true s) all queue t v.shape away
                (IsInvBut-ne_stub stub t s all queue (t ∷ refs) v alive);
        })
        (λ h.
          IsTask-cong refl (sym (assign_same t true s.queued)) refl refl
            (ground (arith, away, occurs-append t queue (t ∷ []))) claimed)
