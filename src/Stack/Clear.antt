-- ===== src/Stack/Clear.antt =====
-- src/stack/mod.rs, `clear`, and `impl Drop for Runner`: what is left of a run that is given up.
use reblessive.Base.{
  ℕ, zero, suc, ◌<◌, ◌-◌, ◌>>◌, ◌≡◌, refl, ap, ◌∙◌, Option, List, [], ◌∷◌, arith, length, ok,
}
use reblessive.Stack.Defs.{
  Fut, cancelled, TaskBox, Frame, result_place, task, Stack, StackState, Context,
}
use reblessive.Stack.Drive.{pop_task_fuel, pop_task, pop_cancel_task, clear_tasks, clear}
use reblessive.Stack.Runner.{drop_runner, enter_finish}
use reblessive.Stack.Eval.{eval, polls, NeverWaits}
use reblessive.Stack.Finish.{between, enter_finish-eval}
use reblessive.Stack.Order.{Waits, IsInOrder, IsSound}

module _ {V : Type 0} where
  -- Tasks over one result place
  abbrev pub IsEntered : List (Frame V) → Type 0
  IsEntered [] = ⊥
  IsEntered (task _ ∷ fs) = IsEntered fs
  IsEntered (result_place _ ∷ []) = Unit
  IsEntered (result_place _ ∷ _ ∷ _) = ⊥

  Waits-IsEntered : (fs : List (Frame V)) → Waits fs → IsEntered fs
  Waits-IsEntered [] w = w
  Waits-IsEntered (task t ∷ fs) w = Waits-IsEntered fs w.2
  Waits-IsEntered (result_place r ∷ []) w = tt
  Waits-IsEntered (result_place r ∷ f ∷ fs) w = w

  pub IsInOrder-IsEntered : (fs : List (Frame V)) → IsInOrder fs → IsEntered fs
  IsInOrder-IsEntered [] o = o
  IsInOrder-IsEntered (task t ∷ fs) o = Waits-IsEntered fs o.2
  IsInOrder-IsEntered (result_place r ∷ []) o = tt
  IsInOrder-IsEntered (result_place r ∷ f ∷ fs) o = o

  -- Dropping the future of a task that was polled takes that task, the last one, off the stack and
  -- nothing else, whatever the task was waiting for; the state is as before.
  pub pop_cancel_task-task :
      (t : TaskBox V) (fs : List (Frame V)) (s : Stack V)
      → s.frames ≡ task t ∷ fs
      → pop_cancel_task s ≡ ok tt (record s { frames = fs; len = s.len - 1 })
  unfolding pop_cancel_task
  pop_cancel_task-task t fs s e = ground arith

  -- The recursion of dropping a task is at most two deep: more fuel changes nothing.
  pub pop_task_fuel-enough : (n : ℕ) (s : Stack V) → pop_task_fuel (suc (suc n)) s ≡ pop_task s
  unfolding pop_task
  pop_task_fuel-enough n s = ground arith

  abbrev clearing : List (Frame V) → ℕ → ℕ → List ℕ → Stack V
  clearing fs len addr woken = record {
    frames = fs;
    len = len;
    state = cancelled;
    async_context = addr;
    woken = woken;
  }

  clear_tasks-IsEntered :
      (fs : List (Frame V)) (n len addr : ℕ) (woken : List ℕ)
      → IsEntered fs
      → length fs ≡ suc n
      → (r : Option V) × (clear_tasks n (clearing fs len addr woken)
          ≡ ok tt (clearing (result_place r ∷ []) len addr woken))
  unfolding clear_tasks
  clear_tasks-IsEntered [] n len addr woken e l = absurd e
  clear_tasks-IsEntered (task t ∷ []) zero len addr woken e l = absurd e
  clear_tasks-IsEntered (task t ∷ f ∷ fs) zero len addr woken e l = absurd (omega arith)
  clear_tasks-IsEntered (task t ∷ fs) (suc n) len addr woken e l =
      let (r, p) = clear_tasks-IsEntered fs n len addr woken e (omega arith) in
      (r, ground (arith, p))
  clear_tasks-IsEntered (result_place r ∷ []) zero len addr woken e l = (r, refl)
  clear_tasks-IsEntered (result_place r ∷ []) (suc n) len addr woken e l = absurd (omega arith)
  clear_tasks-IsEntered (result_place r ∷ f ∷ fs) n len addr woken e l = absurd e

  pub clear-IsEntered :
      (fs : List (Frame V)) (st : StackState) (addr : ℕ) (woken : List ℕ)
      → IsEntered fs
      → clear
          (record { frames = fs; len = length fs; state = st; async_context = addr; woken = woken })
        ≡ ok tt (between [] addr woken)
  unfolding clear
  clear-IsEntered [] st addr woken e = absurd e
  clear-IsEntered (f ∷ fs) st addr woken e =
      let (r, p) = clear_tasks-IsEntered (f ∷ fs) (length fs) (suc (length fs)) addr woken e refl in
      ground (arith, p)

  -- Clearing a stack between two polls empties it.
  pub clear-IsSound :
      (s : Stack V) → IsSound s → clear s ≡ ok tt (between [] s.async_context s.woken)
  clear-IsSound s sound =
      ap (λ n. clear (record s { len = n })) sound.counts
      ∙ clear-IsEntered s.frames s.state s.async_context s.woken
          (IsInOrder-IsEntered s.frames sound.in_order)

  -- To drop a runner empties the stack, wherever the run was given up. The context and the wakers
  -- are left alone.
  pub drop_runner-IsSound :
      (s : Stack V) → IsSound s → drop_runner s ≡ ok tt (between [] s.async_context s.woken)
  unfolding drop_runner
  drop_runner-IsSound s sound =
      let cleared =
        clear-IsEntered s.frames cancelled s.async_context s.woken
          (IsInOrder-IsEntered s.frames sound.in_order) in
      ground (arith, cleared, sound.counts)

  -- A run can be given up at any point, and the stack then runs any other function to its value.
  drop_runner-enter_finish :
      (s : Stack V)
      → IsSound s
      → (f : Fut V) → NeverWaits f
      → (cx : Context) (fuel : ℕ) → polls f < fuel
      → (drop_runner >> enter_finish fuel cx f) s ≡ ok (eval f) (between [] s.async_context s.woken)
  drop_runner-enter_finish s sound f plain cx fuel enough =
      rw (drop_runner-IsSound s sound)
        (enter_finish-eval f plain cx s.async_context s.woken fuel enough)
