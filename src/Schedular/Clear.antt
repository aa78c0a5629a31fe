-- ===== src/Schedular/Clear.antt =====
-- src/tree/schedular/mod.rs, `clear`, which `impl Drop for Schedular` and `Runner::drop` call.
use reblessive.Base.{
  refl, ℕ, zero, suc, ◌+◌, ◌<◌, ◌≤◌, ◌≡◌, Bool, Option, List, [], ◌∷◌, arith, ok, length,
}
use reblessive.Schedular.Queue.{stub, pop-Holds}
use reblessive.Schedular.Tasks.{TaskState, running, cancelled, done, Schedular, pop_poll}
use reblessive.Schedular.Poll.{clear_all, clear_queue, clear}
use reblessive.Schedular.Occurs.{occurs, occurs_self, occurs-middle}
use reblessive.Schedular.Invariant.{IsInv, IsTask, IsInv-task, IsInv-but, IsInvBut-back}
use reblessive.Schedular.Invariant.Refs.{decr_task-IsInvBut}
use reblessive.Schedular.Invariant.Finish.{CanFinish}
use reblessive.Schedular.Rounds.{taken, pop_poll-Taken, pop_task_all-listed}
use reblessive.Schedular.Running.{Flag-le}

IsTask-CanFinish :
    {F : Type 0}
    → (d : TaskState) (b : Bool) (f : Option F) (n m : ℕ) → n ≡ 1
    → IsTask d b f n m
    → CanFinish d f × (m ≤ 1)
IsTask-CanFinish running b f n m e k = (k.0, Flag-le b m k.2)
IsTask-CanFinish cancelled b f n m e k = let one = k.3 in (k.0, omega arith)
IsTask-CanFinish done b f n m e k = let none' = k.1 in absurd (omega arith)

IsTask-let-go :
    {F : Type 0}
    → (d : TaskState) (b : Bool) (f : Option F) (m : ℕ) → IsTask d b f 0 (m + 1)
    → m ≡ 0
    → IsTask d b f 0 m
IsTask-let-go running b f m k e = let one = k.1 in absurd (omega arith)
IsTask-let-go cancelled b f m k e = let one = k.1 in absurd (omega arith)
IsTask-let-go done b f m k e = (k.0, refl, k.2, omega arith)

module _ {F : Type 0} where
  clear_all-IsInv :
      (n : ℕ) (s : Schedular F) (all queue refs : List ℕ)
      → IsInv s all queue refs
      → length all < n
      → (after : Schedular F) × (clear_all n s ≡ ok tt after) × IsInv after [] queue refs
  unfolding clear_all
  clear_all-IsInv zero s all queue refs v h = absurd (omega arith)
  clear_all-IsInv (suc n) s [] queue refs v h = (s, ground (arith, v.shape.0), v)
  clear_all-IsInv (suc n) s (t ∷ ts) queue refs v h =
      let alive : 0 < s.count t = omega (arith, v.counted t, occurs_self t ts) in
      let listed : occurs t (t ∷ ts) ≡ 1 =
        omega (arith, occurs_self t ts, occurs-middle t [] ts v.shape.2) in
      let (can, once) =
        IsTask-CanFinish (s.done_cell t) (s.queued t) (s.future t) (occurs t (t ∷ ts))
          (occurs t queue) listed (IsInv-task s (t ∷ ts) queue refs t v alive) in
      let (s₁, runs, (left, w, _, shorter), _) =
        pop_task_all-listed t s (t ∷ ts) queue refs (IsInv-but s (t ∷ ts) queue refs t v) can once
          listed in
      let (after, runs', w') = clear_all-IsInv n s₁ left queue refs w (omega (arith, shorter)) in
      (after, ground (arith, v.shape.0, runs, runs'), w')

  clear_queue-IsInv :
      (n : ℕ) (s : Schedular F) (queue refs : List ℕ)
      → IsInv s [] queue refs
      → length queue < n
      → (after : Schedular F) × (clear_queue n s ≡ ok tt after) × IsInv after [] [] refs
  unfolding clear_queue pop_poll
  clear_queue-IsInv zero s queue refs v h = absurd (omega arith)
  clear_queue-IsInv (suc n) s [] refs v h =
      (s, ground (arith, pop-Holds s.should_poll [] v.shape.4), v)
  clear_queue-IsInv (suc n) s (t ∷ ts) refs v h =
      let k = pop_poll-Taken s t [] ts refs v in
      let w = IsInvBut-back (taken s) [] ts (t ∷ refs) t k.is (λ _.
        IsTask-let-go (s.done_cell t) (s.queued t) (s.future t) (occurs t ts) k.task.0 k.task.1) in
      let (runs, w') = decr_task-IsInvBut stub t (taken s) [] ts refs w in
      let (after, runs', w₂) = clear_queue-IsInv n _ ts refs w' (omega arith) in
      (after, ground (arith, k.runs, runs, runs'), w₂)

  -- Clearing the scheduler ends. It takes every task off, drops the futures that were not dropped,
  -- and leaves no reference but those of wakers and cancel tokens, so that all other tasks are
  -- freed.
  pub clear-IsInv :
      (n : ℕ) (s : Schedular F) (all queue refs : List ℕ)
      → IsInv s all queue refs
      → length all < n
      → length queue < n
      → (after : Schedular F) × (clear n s ≡ ok tt after)
        × IsInv after [] [] refs
        × ((x : ℕ) → after.count x ≡ occurs x refs)
  unfolding clear
  clear-IsInv n s all queue refs v h h' =
      let (s₁, runs, w) = clear_all-IsInv n s all queue refs v h in
      let (after, runs', w') = clear_queue-IsInv n s₁ queue refs w h' in
      (after, ground (arith, runs, runs'), w', λ x. omega (arith, w'.counted x))
