-- ===== src/Stack/Finish.antt =====
-- Running a function to its end on the stack, against its recursive meaning.
use reblessive.Base.{
  ◌<◌, ◌-◌, ℕ, suc, ◌+◌, ◌≡◌, refl, none, some, List, [], ◌∷◌, arith, length, ok, ◌∙◌,
}
use reblessive.Stack.Defs.{
  Fut, ret, run, yield_now, wait, base, running, done, Coro, start, awaiting, TaskBox, Frame,
  result_place, task, Stack, Context,
}
use reblessive.Stack.Frames.{fill}
use reblessive.Stack.Future.{poll_coro, advance}
use reblessive.Stack.Runner.{step, finish, enter_finish}
use reblessive.Stack.Eval.{eval, polls, NeverWaits}

module _ {V : Type 0} where
  -- A stack between two steps
  abbrev pub between : List (Frame V) → ℕ → List ℕ → Stack V
  between fs addr woken = record {
    frames = fs;
    len = length fs;
    state = base;
    async_context = addr;
    woken = woken;
  }

  -- The future of the task that is polled does not matter to what runs on, which overwrites it.
  abbrev pub with_top : Coro V → Stack V → TaskBox V → List (Frame V) → Stack V
  with_top c s t rest = record s { frames = task (record t { future = c }) ∷ rest }

  pub advance-with_top :
      (cx : Context) (f : Fut V) (c d : Coro V) (s : Stack V) (t : TaskBox V)
      (rest : List (Frame V))
      → s.state ≡ base
      → advance cx f (with_top c s t rest) ≡ advance cx f (with_top d s t rest)
  unfolding advance
  advance-with_top cx (ret v) c d s t rest e = refl
  advance-with_top cx (run child k) c d s t rest e = refl
  advance-with_top cx (yield_now f) c d s t rest e =
      ground (arith, advance-with_top cx f c d s t rest e)
  advance-with_top cx (wait f) c d s t rest e = refl

  -- A suspended function that goes on as `f` when it is polled
  abbrev pub ResumesAs : Coro V → Fut V → Type 0
  ResumesAs c f =
      (cx : Context) (s : Stack V) (t : TaskBox V) (rest : List (Frame V))
      → s.state ≡ base
      → poll_coro cx c (with_top c s t rest) ≡ advance cx f (with_top c s t rest)

  pub running-ResumesAs : (x : V) (k : V → Fut V) → ResumesAs (awaiting (running (some x)) k) (k x)
  unfolding poll_coro
  running-ResumesAs x k cx s t rest e =
      advance-with_top cx (k x) (awaiting done k) (awaiting (running (some x)) k) s t rest e

  pub start-ResumesAs : (f : Fut V) → ResumesAs (start f) f
  unfolding poll_coro
  start-ResumesAs f cx s t rest e = refl

  abbrev pub box : Coro V → List (Frame V) → TaskBox V
  box c rest = record { future = c; place = length rest; waker = none }

  abbrev pub task_at : Coro V → List (Frame V) → Frame V
  task_at c rest = task (box c rest)

  pub ResumesAs-yield_now : (c : Coro V) (f : Fut V) → ResumesAs c (yield_now f) → ResumesAs c f
  unfolding advance
  ResumesAs-yield_now c f resumes cx s t rest e = ground (arith, resumes cx s t rest e)

  module _ (cx : Context) (addr : ℕ) (woken : List ℕ) where
    -- While a task is polled the stack knows the context.
    abbrev pub polled : List (Frame V) → Stack V
    polled rest = record (between rest cx.addr woken) { len = suc (length rest) }

    step-ret :
        (v : V) (c : Coro V)
        → ResumesAs c (ret v)
        → (g g' : Frame V) (rest : List (Frame V)) → fill v g ≡ some g'
        → step cx (between (task_at c rest ∷ g ∷ rest) addr woken)
          ≡ ok none (between (g' ∷ rest) addr woken)
    unfolding step
    step-ret v c resumes g g' rest filled =
        ground (arith, resumes cx (polled (g ∷ rest)) (box c rest) (g ∷ rest) refl)

    step-run :
        (child : Fut V) (k : V → Fut V) (c : Coro V)
        → ResumesAs c (run child k)
        → (g : Frame V) (rest : List (Frame V))
        → step cx (between (task_at c rest ∷ g ∷ rest) addr woken)
          ≡ ok none (
              between
                (task_at (start child) (g ∷ rest)
                  ∷ task_at (awaiting (running none) k) rest
                  ∷ g
                  ∷ rest)
                addr
                woken)
    unfolding step
    step-run child k c resumes g rest =
        ground (arith, resumes cx (polled (g ∷ rest)) (box c rest) (g ∷ rest) refl)

    finish-suc :
        (n : ℕ) (s t : Stack V) → step cx s ≡ ok none t → finish (suc n) cx s ≡ finish n cx t
    unfolding finish
    finish-suc n s t e = ground (arith, e)

    -- A task at the top of the stack is run to its end, and its value is in its place.
    finish-task :
        (f : Fut V)
        → NeverWaits f
        → (c : Coro V) → ResumesAs c f
        → (g g' : Frame V) (rest : List (Frame V)) → fill (eval f) g ≡ some g'
        → (n m : ℕ) → m ≡ polls f + n
        → finish m cx (between (task_at c rest ∷ g ∷ rest) addr woken)
          ≡ finish n cx (between (g' ∷ rest) addr woken)
    unfolding eval polls
    finish-task (ret v) plain c resumes g g' rest filled n m e =
        let e' : m ≡ suc n = omega arith in
        rw e' (finish-suc n _ _ (step-ret v c resumes g g' rest filled))
    finish-task (run child k) plain c resumes g g' rest filled n m e =
        let later : ℕ = polls (k (eval child)) + n in
        let e' : m ≡ suc (polls child + later) = omega arith in
        rw e' (
          finish-suc (polls child + later) _ _ (step-run child k c resumes g rest)
          ∙ finish-task child plain.0 (start child) (start-ResumesAs child) _ _ (g ∷ rest) refl
              later _ refl
          ∙ finish-task (k (eval child)) (plain.1 (eval child)) _ (running-ResumesAs (eval child) k)
              g g' rest filled n _ refl)
    finish-task (yield_now f) plain c resumes g g' rest filled n m e =
        finish-task f plain c (ResumesAs-yield_now c f resumes) g g' rest filled n m e
    finish-task (wait f) plain c resumes g g' rest filled n m e = absurd plain

  -- A function that never waits for anything outside of the crate, entered on an empty stack, runs to
  -- its recursive value with more fuel than it is polled. The stack is as it was before.
  pub enter_finish-eval :
      (f : Fut V)
      → NeverWaits f
      → (cx : Context) (addr : ℕ) (woken : List ℕ) (fuel : ℕ) → polls f < fuel
      → enter_finish fuel cx f (between [] addr woken) ≡ ok (eval f) (between [] addr woken)
  unfolding enter_finish
  enter_finish-eval f plain cx addr woken fuel enough =
      let spare : ℕ = fuel - polls f - 1 in
      let run_all =
        finish-task cx addr woken f plain (start f) (start-ResumesAs f) (result_place none) _ []
          refl (suc spare) fuel (omega arith) in
      ground (arith, run_all)
