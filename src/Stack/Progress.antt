-- ===== src/Stack/Progress.antt =====
-- src/stack/mod.rs and src/stack/runner.rs: the steps of a runner.
use reblessive.Base.{
  not, ◌&&◌, if◌then◌else◌, ℕ, ◌<◌, ◌≡◌, ◌≢◌, refl, Bool, Option, none, some, List, [], ◌∷◌, arith,
  length, ok, panicked, assertion,
}
use reblessive.Stack.Defs.{
  Fut, Frame, result_place, task, Stack, Context, Poll, ready, pending, start,
}
use reblessive.Stack.Future.{is_yield, poll_yield}
use reblessive.Stack.Drive.{enter_future, drive_top_task, take_result}
use reblessive.Stack.Runner.{poll_step}
use reblessive.Stack.Finish.{between}
use native.Mathlib.Decide.{ℕ_discrete}
use reblessive.Stack.Order.{IsInOrder, IsSound, drive_top_task-IsSound}

module _ {V : Type 0} where
  -- An empty stack is entered with the result place and one task, in stack order.
  pub enter_future-IsSound :
      (f : Fut V) (addr : ℕ) (woken : List ℕ)
      → (s : Stack V) × (enter_future f (between [] addr woken) ≡ ok tt s) × IsSound s × (s.len ≡ 2)
  unfolding enter_future
  enter_future-IsSound f addr woken = (
    between (task (record { future = start f; place = 0; waker = none }) ∷ result_place none ∷ [])
        addr woken,
    refl,
    record { in_order = (tt, refl, refl); counts = refl; at_base = refl },
    refl,
  )

  -- What holds behind a step: with a result the stack is empty, else it is in stack order. The
  -- context is that from before.
  abbrev pub AfterStep : Stack V → Poll (Option V) → Stack V → Type 0
  AfterStep s (ready (some v)) s' = s' ≡ between [] s.async_context s.woken
  AfterStep s (ready none) s' = IsSound s' × (s'.async_context ≡ s.async_context)
  AfterStep s pending s' = IsSound s' × (s'.async_context ≡ s.async_context)

  take_result-frames :
      (fs : List (Frame V)) (addr : ℕ) (woken : List ℕ)
      → IsInOrder fs
      → length fs ≡ 1
      → (v : V) × (take_result (between fs addr woken) ≡ ok (some v) (between [] addr woken))
  unfolding take_result
  take_result-frames [] addr woken o l = absurd o
  take_result-frames (task t ∷ []) addr woken o l = absurd (o.2)
  take_result-frames (task t ∷ f ∷ fs) addr woken o l = absurd (omega arith)
  take_result-frames (result_place r ∷ []) addr woken o l = (o.0, rw (o.1) (ground arith))
  take_result-frames (result_place r ∷ f ∷ fs) addr woken o l = absurd o

  IsInOrder-pos : (fs : List (Frame V)) → IsInOrder fs → 0 < length fs
  IsInOrder-pos [] o = absurd o
  IsInOrder-pos (f ∷ fs) o = omega arith

  abbrev step_of : Poll Bool → Poll (Option V)
  step_of (ready _) = ready none
  step_of pending = pending

  poll_step-drive :
      (cx : Context) (s t : Stack V) (r : Poll Bool)
      → s.len ≢ 1
      → drive_top_task cx (record s { async_context = cx.addr }) ≡ ok r t
      → poll_step cx s ≡ ok (step_of r) (record t { async_context = s.async_context })
  unfolding poll_step
  poll_step-drive cx s t (ready b) more e = ground (arith, e)
  poll_step-drive cx s t pending more e = ground (arith, e)

  poll_step-result :
      (cx : Context) (s t : Stack V) (v : V)
      → s.len ≡ 1
      → take_result s ≡ ok (some v) t
      → poll_step cx s ≡ ok (ready (some v)) t
  unfolding poll_step
  poll_step-result cx s t v one e = ground (arith, e)

  AfterStep-drive :
      (s t : Stack V) (r : Poll Bool)
      → IsSound t
      → AfterStep s (step_of r) (record t { async_context = s.async_context })
  AfterStep-drive s t (ready b) sound =
      (record { in_order = sound.in_order; counts = sound.counts; at_base = sound.at_base }, refl)
  AfterStep-drive s t pending sound =
      (record { in_order = sound.in_order; counts = sound.counts; at_base = sound.at_base }, refl)

  -- A step of a runner neither panics nor is undefined, and keeps the stack in stack order until it
  -- returns the result.
  pub poll_step-AfterStep :
      (cx : Context) (s : Stack V)
      → IsSound s
      → (r : Poll (Option V)) × (s' : Stack V) × (poll_step cx s ≡ ok r s') × AfterStep s r s'
  poll_step-AfterStep cx s sound = elim (ℕ_discrete s.len 1) [
    | yes one ↦
        let (v, p) =
          take_result-frames s.frames s.async_context s.woken sound.in_order
            (omega (arith, sound.counts)) in
        (
          ready (some v),
          between [] s.async_context s.woken,
          poll_step-result cx s _ v one (ground (arith, p, sound.counts, sound.at_base)),
          refl,
        )
    | no more ↦
        let s₁ : Stack V = record s { async_context = cx.addr } in
        let sound₁ : IsSound s₁ = record {
          in_order = sound.in_order;
          counts = sound.counts;
          at_base = sound.at_base;
        } in
        let (r, t, p, sound₂) =
          drive_top_task-IsSound cx s₁ sound₁
            (omega (arith, IsInOrder-pos s.frames sound.in_order, sound.counts)) in
        (
          step_of r,
          record t { async_context = s.async_context },
          poll_step-drive cx s t r more p,
          AfterStep-drive s t r sound₂,
        )
  ]

  -- `YieldFuture::poll` is never pending: it is ready at once, so awaiting `yield_now` does not end
  -- the step, and in the state `Yield` its first poll panics.
  poll_yield-lem :
      (cx : Context) (flag : Bool) (s : Stack V)
      → poll_yield cx flag s
        ≡ (if not flag && is_yield s.state then panicked assertion else ok (ready tt, flag) s)
  unfolding poll_yield
  poll_yield-lem cx flag s = ground arith
