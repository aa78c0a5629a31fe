-- ===== src/Tree/Finish.antt =====
-- src/tree/runner.rs, `FinishFuture::poll` and `StepFuture::poll`: functions that open no scope.
use reblessive.Base.{
  refl, ap, ◌∙◌, ℕ, suc, ◌-◌, ◌<◌, ◌≡◌, Bool, false, Option, none, some, List, [], ◌∷◌, arith, ok,
  Outcome, ◌>>◌,
}
use reblessive.Stack.Defs.{
  Fut, ret, run, yield_now, wait, Coro, start, Frame, result_place, Stack, Context, Poll, ready,
}
use reblessive.Stack.Drive.{try_get_result, enter_future}
use reblessive.Stack.Drive.{drive_top_task as drive_root}
use reblessive.Stack.Eval.{eval, polls, NeverWaits}
use reblessive.Stack.Finish.{between, ResumesAs, ResumesAs-yield_now, start-ResumesAs}
use reblessive.Stack.Loops.{guest, log, log-none, outer-known, drive-ret, drive-run, loop-task}
use reblessive.Schedular.Tasks.{Schedular}
use reblessive.Schedular.Poll.{Action}
use reblessive.Tree.Runner.{
  TreeStack, enter, drive_both, drive_top_task, finish_loop, poll_finish, poll_step,
}

module _ {V F : Type 0} (run_task : F → List (Action F) × Option F) (fuel : ℕ) (cx : Context)
    (addr : ℕ) (woken : List ℕ) (sched : Schedular F) (ptr : Bool)
    (no_tasks : sched.all_next ≡ none) where
  -- The whole state
  abbrev whole : Stack V → TreeStack V F
  whole s = record { root = s; schedular = sched; tree_ptr = ptr }

  -- Without tasks the scheduler is left alone.
  drive_top_task-root :
      (s t : Stack V)
      → drive_root cx s ≡ ok (ready false) t
      → drive_top_task run_task fuel cx (whole s) ≡ ok (ready false) (whole t)
  unfolding drive_top_task drive_both
  drive_top_task-root s t e = ground (arith, no_tasks, e)

  -- The loop, as a function of the stack
  abbrev loop : ℕ → Stack V → Outcome (TreeStack V F) (Poll V)
  loop n s = finish_loop run_task fuel n cx addr (whole s)

  loop-suc :
      (n : ℕ) (f g : Frame V) (rest gs : List (Frame V)) (old now : List ℕ)
      → drive_root cx (between (f ∷ g ∷ rest) cx.addr old)
        ≡ ok (ready false) (between gs cx.addr now)
      → loop (suc n) (between (f ∷ g ∷ rest) cx.addr old) ≡ loop n (between gs cx.addr now)
  unfolding finish_loop try_get_result
  loop-suc n f g rest gs old now e = ground (arith, drive_top_task-root _ _ e)

  -- The state between two runs
  abbrev pub idle : TreeStack V F
  idle = whole (between [] addr woken)

  loop-result :
      (n : ℕ) (v : V)
      → loop (suc n) (between (result_place (some v) ∷ []) cx.addr woken) ≡ ok (ready v) idle
  unfolding finish_loop try_get_result
  loop-result n v = ground arith

  -- Without tasks in the scheduler, a function that waits for nothing outside of the crate runs on
  -- the tree runtime to its recursive value in one poll, and all is as it was.
  pub tree_finish-eval :
      (f : Fut V)
      → NeverWaits f
      → (n : ℕ) → polls f < n
      → (do enter f; poll_finish run_task fuel n cx) idle ≡ ok (ready (eval f)) idle
  unfolding enter enter_future poll_finish
  tree_finish-eval f plain n enough =
      let spare : ℕ = n - polls f - 1 in
      let quiet = ap (λ w. log w f woken) (outer-known cx) ∙ log-none f woken in
      loop-task cx cx.addr loop loop-suc f plain (start f) (start-ResumesAs f) none
        (result_place none) _ [] woken refl (suc spare) n (omega arith)
      ∙ ap (λ ws. loop (suc spare) (between (result_place (some (eval f)) ∷ []) cx.addr ws)) quiet
      ∙ loop-result spare (eval f)

  -- The first step of a function that was entered
  first-step :
      (f : Fut V)
      → NeverWaits f
      → (c : Coro V) → ResumesAs c f
      → (gs : List (Frame V)) × (drive_root cx
            (between (guest none c [] ∷ result_place none ∷ []) cx.addr woken)
          ≡ ok (ready false) (between gs cx.addr woken))
  first-step (ret v) plain c resumes =
      (_, drive-ret cx cx.addr v c resumes none (result_place none) _ [] woken refl)
  first-step (run child k) plain c resumes =
      (_, drive-run cx cx.addr child k c resumes none (result_place none) [] woken)
  first-step (yield_now f) plain c resumes = first-step f plain c (ResumesAs-yield_now c f resumes)
  first-step (wait f) plain c resumes = absurd plain

  entered-step :
      (fs gs : List (Frame V)) (f g : Frame V)
      → drive_root cx (between (f ∷ g ∷ fs) cx.addr woken)
        ≡ ok (ready false) (between gs cx.addr woken)
      → poll_step run_task fuel cx (whole (between (f ∷ g ∷ fs) addr woken))
        ≡ ok (ready none) (whole (between gs cx.addr woken))
  unfolding poll_step try_get_result
  entered-step fs gs f g e = ground (arith, drive_top_task-root _ _ e)

  -- A step that is ready does not set the context of the stack back: it stays the one of the step,
  -- whatever it was before.
  poll_step-async_context :
      (f : Fut V)
      → NeverWaits f
      → (after : TreeStack V F) × ((do enter f; poll_step run_task fuel cx) idle
          ≡ ok (ready none) after)
        × (after.root.async_context ≡ cx.addr)
  unfolding enter enter_future
  poll_step-async_context f plain =
      let (gs, e) = first-step f plain (start f) (start-ResumesAs f) in
      (
        whole (between gs cx.addr woken),
        entered-step [] gs (guest none (start f) []) (result_place none) e,
        refl,
      )
