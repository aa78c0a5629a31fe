-- ===== src/Schedular/Invariant/Finish.antt =====
-- src/tree/schedular/mod.rs, `pop_task_all`.
use reblessive.Base.{
  refl, sym, ◌∙◌, ap, ℕ, ◌+◌, ◌-◌, ◌<◌, ◌≤◌, ◌≡◌, ◌≢◌, ◌⊎◌, true, inl, inr, Option, none, some,
  List, [], ◌∷◌, ◌++◌, arith, ok, length-append,
}
use reblessive.Schedular.Queue.{stub, Missing}
use reblessive.Schedular.Tasks.{
  TaskState, running, cancelled, done, Schedular, assign, drop_task, decr_task,
}
use reblessive.Schedular.Ops.{pop_task_all, finish_task, unlink_next, unlink_prev}
use reblessive.Schedular.AllList.{
  Linked-remove, Linked-prev, Linked-next, relink, relink_other, first, first-Apart, last_or,
  end_of, assign_same, assign_other,
}
use reblessive.Schedular.Occurs.{
  occurs, occurs-append, occurs-middle, occurs-insert, occurs_self, occurs_other, occurs-Missing,
  IsDistinct-remove,
}
use reblessive.Schedular.Invariant.{HasFuture, IsInv, IsInvBut, IsShape, IsInvBut-back}
use reblessive.Schedular.Invariant.Refs.{IsTask-cong}
use reblessive.Schedular.Invariant.Cancel.{HasFuture-some}

-- What `pop_task_all` finds of a task: it is running, or cancelled and without its future.
abbrev pub CanFinish : {F : Type 0} → TaskState → Option F → Type 0
CanFinish running f = HasFuture f
CanFinish cancelled f = f ≡ none
CanFinish done f = ⊥

-- The links when a task is taken out, from its own links
abbrev pub unlinked : {F : Type 0} → Option ℕ → List ℕ → Schedular F → Schedular F
unlinked before ys s = record s {
  next = relink before (first ys) s.next;
  prev = relink (first ys) before s.prev;
  all_next = elim before [ none ↦ first ys | some _ ↦ s.all_next ];
  all_prev = end_of before ys s.all_prev;
}

last_or-occurs :
    (before : Option ℕ) (xs : List ℕ) (p : ℕ)
    → last_or before xs ≡ some p
    → (before ≡ some p) ⊎ (0 < occurs p xs)
last_or-occurs before [] p e = inl e
last_or-occurs before (x ∷ xs) p e = elim (last_or-occurs (some x) xs p e) [
  | inl f ↦ let same : x ≡ p = cc in inr (ground arith)
  | inr f ↦ inr (omega arith)
]

first-removed :
    (t : ℕ) (xs ys : List ℕ) (front : Option ℕ)
    → front ≡ first (xs ++ t ∷ ys)
    → (elim (last_or none xs) as (λ x. Option ℕ) [ none ↦ first ys | some _ ↦ front ])
      ≡ first (xs ++ ys)
first-removed t [] ys front e = refl
first-removed t (x ∷ xs) ys front e = go x xs (λ p q. e)
  where
    go :
        (z : ℕ) (zs : List ℕ)
        → ((p : ℕ) → last_or (some z) zs ≡ some p → front ≡ some x)
        → (elim (last_or (some z) zs) as (λ x. Option ℕ) [ none ↦ first ys | some _ ↦ front ])
          ≡ some x
    go z [] h = h z refl
    go z (w ∷ zs) h = go w zs h

module _ {F : Type 0} where
  unlink_next_lem :
      (t : ℕ) (ys : List ℕ) (before : Option ℕ) (s : Schedular F)
      → s.next t ≡ first ys
      → s.prev t ≡ before
      → ((x : ℕ) → 0 < occurs x ys → 0 < s.count x)
      → unlink_next t s
        ≡ ok tt (record s {
          prev = relink (first ys) before s.prev;
          all_prev = end_of before ys s.all_prev;
        })
  unfolding unlink_next
  unlink_next_lem t [] before s n p c = ground (arith, n, p)
  unlink_next_lem t (y ∷ ys) before s n p c =
      ground (arith, n, p, c y (omega (arith, occurs_self y ys)))

  unlink_prev_lem :
      (t : ℕ) (ys : List ℕ) (before : Option ℕ) (s : Schedular F)
      → s.next t ≡ first ys
      → s.prev t ≡ before
      → ((x : ℕ) → before ≡ some x → 0 < s.count x)
      → unlink_prev t s
        ≡ ok tt (record s {
          next = relink before (first ys) s.next;
          all_next = elim before [ none ↦ first ys | some _ ↦ s.all_next ];
        })
  unfolding unlink_prev
  unlink_prev_lem t ys none s n p c = ground (arith, n, p)
  unlink_prev_lem t ys (some x) s n p c = ground (arith, n, p, c x refl)

  abbrev finished : ℕ → Schedular F → Schedular F
  finished t s = record s { queued = assign t true s.queued; done_cell = assign t done s.done_cell }

  -- The future of the task is dropped by now, and no other.
  finish_task_lem :
      (t : ℕ) (s : Schedular F) (d : TaskState)
      → s.done_cell t ≡ d
      → 0 < s.count t
      → CanFinish d (s.future t)
      → (fs : ℕ → Option F) × (finish_task t s ≡ ok tt (record (finished t s) { future = fs }))
        × (fs t ≡ none)
        × ((x : ℕ) → x ≢ t → fs x ≡ s.future x)
  unfolding finish_task drop_task
  finish_task_lem t s running e h can =
      let (g, some_g) = HasFuture-some (s.future t) can in
      (
        assign t none s.future,
        ground (arith, e, some_g),
        assign_same t none s.future,
        λ x ne. assign_other t x none s.future ne,
      )
  finish_task_lem t s cancelled e h can = (s.future, ground (arith, e), can, λ x ne. refl)
  finish_task_lem t s done e h can = absurd can

  decr_task_lem :
      (t : ℕ) (s : Schedular F)
      → 0 < s.count t
      → decr_task t s ≡ ok tt (record s { count = assign t (s.count t - 1) s.count })
  unfolding decr_task
  decr_task_lem t s h = ground arith

module _ {F : Type 0} (t : ℕ) (s : Schedular F) (xs ys queue refs : List ℕ)
    (v : IsInvBut t s (xs ++ t ∷ ys) queue refs) (can : CanFinish (s.done_cell t) (s.future t))
    (once : occurs t queue ≤ 1) where
  listed : occurs t (xs ++ t ∷ ys) ≡ 1
  listed =
      omega
        (arith, occurs-insert t t xs ys, occurs_self t (xs ++ ys), occurs-middle t xs ys v.shape.2)

  alive : 0 < s.count t
  alive = omega (arith, v.counted t, listed)

  -- The task is not behind itself.
  away : Missing t ys
  away = occurs-Missing t ys (omega (arith, occurs-middle t xs ys v.shape.2, occurs-append t xs ys))

  -- The heap when the task is taken out, with the futures that are left
  abbrev popped : (ℕ → Option F) → Schedular F
  popped fs = record s {
    queued = assign t true s.queued;
    done_cell = assign t done s.done_cell;
    future = fs;
    next = relink (last_or none xs) (first ys) s.next;
    prev = relink (first ys) (last_or none xs) s.prev;
    all_next = elim (last_or none xs) [ none ↦ first ys | some _ ↦ s.all_next ];
    all_prev = end_of (last_or none xs) ys s.all_prev;
    count = assign t (s.count t - 1) s.count;
    len = s.len - 1;
  }

  neighbours :
      ((x : ℕ) → 0 < occurs x ys → 0 < s.count x)
      × ((x : ℕ) → last_or none xs ≡ some x → 0 < s.count x)
  neighbours = (
    λ x h. omega (arith, v.counted x, occurs-insert x t xs ys, occurs-append x xs ys),
    λ x e. elim (last_or-occurs none xs x e) [
      | inl f ↦ cc
      | inr f ↦ omega (arith, v.counted x, occurs-insert x t xs ys, occurs-append x xs ys)
    ],
  )

  pop_task_all-popped :
      (fs : ℕ → Option F)
      → finish_task t s ≡ ok tt (record (finished t s) { future = fs })
      → pop_task_all t s ≡ ok tt (popped fs)
  unfolding pop_task_all
  pop_task_all-popped fs runs =
      let s₁ : Schedular F = record (finished t s) { future = fs } in
      let n = Linked-next s.next s.prev t none s.all_prev xs ys v.shape.1 in
      let p = Linked-prev s.next s.prev t none s.all_prev xs ys v.shape.1 in
      let s₂ : Schedular F = record s₁ {
        prev = relink (first ys) (last_or none xs) s.prev;
        all_prev = end_of (last_or none xs) ys s.all_prev;
      } in
      let p₂ : s₂.prev t ≡ last_or none xs =
        relink_other (first ys) (last_or none xs) s.prev t (first-Apart t ys away) ∙ p in
      ground (
        arith,
        runs,
        unlink_next_lem t ys (last_or none xs) s₁ n p neighbours.0,
        unlink_prev_lem t ys (last_or none xs) s₂ n p₂ neighbours.1,
        decr_task_lem t (unlinked (last_or none xs) ys s₁) alive,
      )

  popped-IsShape : (fs : ℕ → Option F) → IsShape (popped fs) (xs ++ ys) queue
  popped-IsShape fs =
      let (front, links, distinct, len, waiting, live) = v.shape in
      (
        first-removed t xs ys s.all_next front,
        Linked-remove s.next s.prev t none s.all_prev xs ys links distinct tt,
        IsDistinct-remove t xs ys distinct,
        omega (arith, len, length-append xs (t ∷ ys), length-append xs ys),
        waiting,
        live,
      )

  popped-counted :
      (x : ℕ)
      → assign t (s.count t - 1) s.count x ≡ occurs x (xs ++ ys) + occurs x queue + occurs x refs
  unfolding assign
  popped-counted x = ground (arith, v.counted x, occurs-insert x t xs ys, alive)

  -- A task is taken off the list of all tasks, and its future is dropped if it was not before. The
  -- list gives up its reference, and the other tasks are as they were.
  pub pop_task_all-IsInv :
      (after : Schedular F) × (pop_task_all t s ≡ ok tt after)
      × IsInv after (xs ++ ys) queue refs
      × (after.count t ≡ s.count t - 1)
      × (after.done_cell t ≡ done)
      × ((x : ℕ) → x ≢ t → (after.done_cell x ≡ s.done_cell x) × (after.future x ≡ s.future x))
  pop_task_all-IsInv =
      let (fs, runs, gone, same) = finish_task_lem t s (s.done_cell t) refl alive can in
      (
        popped fs,
        pop_task_all-popped fs runs,
        IsInvBut-back (popped fs) (xs ++ ys) queue refs t
            (record {
              counted = popped-counted;
              tasks = λ x ne h.
                  IsTask-cong (sym (assign_other t x done s.done_cell ne))
                    (sym (assign_other t x true s.queued ne)) (sym (same x ne))
                    (occurs-insert x t xs ys ∙ occurs_other t x (xs ++ ys) ne) refl
                    (v.tasks x ne (rw (sym (assign_other t x (s.count t - 1) s.count ne)) h));
              no_stub =
                  assign_other t stub (s.count t - 1) s.count
                    (λ e. absurd (omega (arith, alive, v.no_stub, ap s.count e)))
                  ∙ v.no_stub;
              shape = popped-IsShape fs;
            })
            (λ h.
              IsTask-cong (sym (assign_same t done s.done_cell)) (sym (assign_same t true s.queued))
                (sym gone) (sym (occurs-middle t xs ys v.shape.2)) refl (refl, refl, refl, once)),
        assign_same t (s.count t - 1) s.count,
        assign_same t done s.done_cell,
        λ x ne. (assign_other t x done s.done_cell ne, same x ne),
      )
