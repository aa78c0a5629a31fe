-- ===== src/Schedular/Invariant/Spawn.antt =====
-- src/tree/schedular/mod.rs, `push_cancellable`.
use reblessive.Base.{
  refl, sym, ◌∙◌, ap, ℕ, ◌+◌, ◌<◌, ◌≡◌, ◌≢◌, true, none, some, List, [], ◌∷◌, ◌++◌, arith, ok,
  Outcome,
}
use reblessive.Schedular.Queue.{stub}
use reblessive.Schedular.Queue.{push as push_queue}
use reblessive.Schedular.Tasks.{running, Schedular, assign, push_poll}
use reblessive.Schedular.Ops.{push_cancellable, new_task, push_task_to_all}
use reblessive.Schedular.AllList.{
  Linked-push, Linked-relink, relink, first, assign_same, assign_other,
}
use reblessive.Schedular.Occurs.{
  occurs, occurs-append, occurs-enqueue, occurs-Missing, occurs_self, occurs_other,
}
use reblessive.Schedular.Invariant.{IsInv, IsShape, IsInv-task, IsInvBut-back}
use reblessive.Schedular.Invariant.Refs.{IsTask-cong, IsShape-pushed}

push_all-none :
    {F : Type 0}
    → (t : ℕ) (s : Schedular F) → s.all_next ≡ none
    → 0 < s.count t
    → push_task_to_all t s
      ≡ ok tt (record s {
        next = assign t none s.next;
        all_next = some t;
        all_prev = elim s.all_prev [ none ↦ some t | some x ↦ some x ];
      })
unfolding push_task_to_all
push_all-none t s e h = ground (arith, e)

push_all-some :
    {F : Type 0}
    → (t x : ℕ) (s : Schedular F) → s.all_next ≡ some x
    → 0 < s.count t
    → 0 < s.count x
    → push_task_to_all t s
      ≡ ok tt (record s {
        next = assign t (some x) s.next;
        prev = assign x (some t) s.prev;
        all_next = some t;
        all_prev = elim s.all_prev [ none ↦ some t | some x ↦ some x ];
      })
unfolding push_task_to_all
push_all-some t x s e h h' = ground (arith, e)

same-state :
    {S : Type 0} {A : Type 0} {a b : A} {x y : S} (r : Outcome S A)
    → r ≡ ok a x
    → r ≡ ok b y
    → x ≡ y
same-state r e f = cc

module _ {F : Type 0} (t : ℕ) (f : F) (s : Schedular F) (all queue refs : List ℕ)
    (v : IsInv s all queue refs) (free : s.count t ≡ 0) (real : t ≢ stub) where
  abbrev created : Schedular F
  created = record s {
    next = assign t none s.next;
    prev = assign t none s.prev;
    queued = assign t true s.queued;
    done_cell = assign t running s.done_cell;
    future = assign t (some f) s.future;
    count = assign t 3 s.count;
  }

  abbrev listed : Schedular F
  listed = record created {
    next = assign t (first all) (assign t none s.next);
    prev = relink (first all) (some t) (assign t none s.prev);
    all_next = some t;
    all_prev = elim s.all_prev [ none ↦ some t | some x ↦ some x ];
  }

  abbrev spawned : Schedular F
  spawned = record listed { should_poll = push_queue t s.should_poll; len = s.len + 1 }

  new_task_lem : new_task t f s ≡ ok tt created
  unfolding new_task
  new_task_lem = refl

  new_count : 0 < created.count t
  unfolding assign
  new_count = ground arith

  old_count : (x : ℕ) → 0 < occurs x all → 0 < created.count x
  unfolding assign
  old_count x there = ground (arith, v.counted x)

  push_task_to_all_lem : (xs : List ℕ) → xs ≡ all → push_task_to_all t created ≡ ok tt listed
  push_task_to_all_lem [] e =
      push_all-none t created (v.shape.0 ∙ ap first (sym e)) new_count ∙ rw (← e) refl
  push_task_to_all_lem (x ∷ xs) e =
      push_all-some t x created (v.shape.0 ∙ ap first (sym e)) new_count
        (old_count x (omega (arith, ap (occurs x) e, occurs_self x xs)))
      ∙ rw (← e) refl

  push_cancellable_lem : push_cancellable t f s ≡ ok t spawned
  unfolding push_cancellable push_poll assign
  push_cancellable_lem = ground (arith, new_task_lem, push_task_to_all_lem all refl)

  spawned-IsShape : IsShape spawned (t ∷ all) (queue ++ t ∷ [])
  spawned-IsShape =
      let (front, links, distinct, len, waiting, alive) = v.shape in
      let away = occurs-Missing t all (omega (arith, v.counted t)) in
      let old =
        Linked-relink s.next s.prev none s.all_prev (some t) none (some t) none all away away
          links in
      let queue' = IsShape-pushed s all queue t v.shape (omega (arith, v.counted t)) real in
      (
        refl,
        Linked-push (assign t none s.next) (assign t none s.prev) t all s.all_prev old away distinct
            (assign_same t none s.prev),
        (away, distinct),
        omega (arith, len),
        queue'.4,
        alive,
      )

  spawned-counted :
      (x : ℕ)
      → spawned.count x ≡ occurs x (t ∷ all) + occurs x (queue ++ t ∷ []) + occurs x (t ∷ refs)
  unfolding assign
  spawned-counted x = ground (arith, v.counted x, v.counted t, occurs-append x queue (t ∷ []))

  -- A new task is in front of the list of all tasks and at the end of the queue, and the cancel
  -- token has a reference to it.
  pub push_cancellable-IsInv :
      (after : Schedular F) × (push_cancellable t f s ≡ ok t after)
      × IsInv after (t ∷ all) (queue ++ t ∷ []) (t ∷ refs)
  push_cancellable-IsInv = (
    spawned,
    push_cancellable_lem,
    IsInvBut-back spawned (t ∷ all) (queue ++ t ∷ []) (t ∷ refs) t
        (record {
          counted = spawned-counted;
          tasks = λ x ne h.
              IsTask-cong (sym (assign_other t x running s.done_cell ne))
                (sym (assign_other t x true s.queued ne))
                (sym (assign_other t x (some f) s.future ne)) (sym (occurs_other t x all ne))
                (sym (occurs-enqueue x t queue ne))
                (IsInv-task s all queue refs x v (rw (sym (assign_other t x 3 s.count ne)) h));
          no_stub = assign_other t stub 3 s.count (λ e. real (sym e)) ∙ v.no_stub;
          shape = spawned-IsShape;
        })
        (λ h.
          IsTask-cong (sym (assign_same t running s.done_cell)) (sym (assign_same t true s.queued))
            (sym (assign_same t (some f) s.future)) (sym (ground (arith, v.counted t)))
            (sym (ground (arith, v.counted t, occurs-append t queue (t ∷ [])))) (tt, refl, refl)),
  )

  -- The new task has the future.
  pub push_cancellable-future :
      (after : Schedular F) → push_cancellable t f s ≡ ok t after → after.future t ≡ some f
  push_cancellable-future after runs =
      let same : after ≡ spawned = same-state (push_cancellable t f s) runs push_cancellable_lem in
      ap (λ x. x.future t) same ∙ assign_same t (some f) s.future
