-- ===== src/Tree/Nested.antt =====
-- src/tree/future.rs: `ScopeStkFuture`, a future inside of a scope with a stack of its own.
use reblessive.Base.{
  refl, ap, ◌∙◌, ℕ, zero, suc, ◌-◌, ◌<◌, ◌≡◌, ◌≢◌, true, false, none, some, List, [], ◌∷◌, arith,
  Outcome, ok, out_of_fuel, Cmd, pure, ◌>>=◌, ◌>>◌, if◌then◌else◌,
}
use reblessive.Stack.Defs.{
  Fut, yield, Frame, start, result_place, Stack, Context, Poll, ready, pending,
}
use reblessive.Stack.Frames.{new, set_state, wake}
use reblessive.Stack.Future.{is_yield}
use reblessive.Stack.Drive.{enter_future, try_get_result, drive_top_task}
use reblessive.Stack.Eval.{eval, polls, NeverWaits}
use reblessive.Stack.Finish.{between, start-ResumesAs}
use reblessive.Stack.Loops.{log, calls, repeat, log-some, repeat-[], outer-foreign, loop-task}
use reblessive.Tree.Runner.{map_outcome}

-- The stack of a `ScopeStkFuture`, and the stack that runs the scope
pub record Nested (V W : Type 0) : Type 0 where
  pub own : Stack V
  pub parent : Stack W

module _ {V W : Type 0} where
  abbrev on_own : {A : Type 0} → Cmd (Stack V) A → Cmd (Nested V W) A
  on_own m s = map_outcome (λ r. record s { own = r }) (m s.own)

  abbrev on_parent : {A : Type 0} → Cmd (Stack W) A → Cmd (Nested V W) A
  on_parent m s = map_outcome (λ r. record s { parent = r }) (m s.parent)

  -- `ScopeStk::run` and `ScopeStkFuture::new`
  unfoldable pub scope_run : Fut V → Cmd (Nested V W) (Unit {0})
  scope_run fut s = on_own (enter_future fut) (record s { own = new })

  -- The loop of `ScopeStkFuture::poll`, for at most so many rounds. The wakers that it calls itself
  -- are noted with those that its own stack calls.
  unfoldable pub nested_loop : ℕ → Context → Cmd (Nested V W) (Poll V)
  unfolding wake
  nested_loop zero cx s = out_of_fuel
  nested_loop (suc n) cx s =
      (do
        r ← on_own try_get_result
        elim r [
          | some x ↦ pure (ready x)
          | none ↦ do
            p ← on_own (drive_top_task cx)
            elim p [
              | pending ↦ pure pending
              | ready true ↦ do on_parent (set_state yield); on_own (wake cx.waker); pure pending
              | ready false ↦ nested_loop n cx
            ]
        ])
        s

  -- `ScopeStkFuture::poll`
  unfoldable pub poll_scope_stk : ℕ → Context → Cmd (Nested V W) (Poll V)
  unfolding wake nested_loop
  poll_scope_stk n cx s =
      if is_yield s.parent.state
      then (do on_own (wake cx.waker); pure pending) s
      else nested_loop n cx s

  module _ (cx : Context) (parent : Stack W) where
    abbrev beside : Stack V → Nested V W
    beside s = record { own = s; parent = parent }

    -- The loop, as a function of the own stack
    abbrev loop : ℕ → Stack V → Outcome (Nested V W) (Poll V)
    loop n s = nested_loop n cx (beside s)

    loop-suc :
        (n : ℕ) (f g : Frame V) (rest gs : List (Frame V)) (old now : List ℕ)
        → drive_top_task cx (between (f ∷ g ∷ rest) 1 old) ≡ ok (ready false) (between gs 1 now)
        → loop (suc n) (between (f ∷ g ∷ rest) 1 old) ≡ loop n (between gs 1 now)
    unfolding nested_loop try_get_result
    loop-suc n f g rest gs old now e = ground (arith, e)

    loop-result :
        (n : ℕ) (v : V) (woken : List ℕ)
        → loop (suc n) (between (result_place (some v) ∷ []) 1 woken)
          ≡ ok (ready v) (beside (between [] 1 woken))
    unfolding nested_loop try_get_result
    loop-result n v woken = ground arith

    poll_scope_stk-loop :
        (n : ℕ) (s : Stack V)
        → is_yield parent.state ≡ false
        → poll_scope_stk n cx (beside s) ≡ loop n s
    unfolding poll_scope_stk
    poll_scope_stk-loop n s calm = ground (arith, calm)

  -- A function in a scope that waits for nothing outside of the crate runs in one poll to its
  -- recursive value if the stack of the scope does not yield, which is as it was. Its own stack,
  -- which never learns the context, is empty again, and the waker was called once for each call.
  pub poll_scope_stk-eval :
      (f : Fut V)
      → NeverWaits f
      → (cx : Context) → 1 ≢ cx.addr
      → (s : Nested V W) → is_yield s.parent.state ≡ false
      → (n : ℕ) → polls f < n
      → (do scope_run f; poll_scope_stk n cx) s
        ≡ ok (ready (eval f)) (record s { own = between [] 1 (repeat (calls f) cx.waker) })
  unfolding scope_run enter_future
  poll_scope_stk-eval f plain cx other s calm n enough =
      let spare : ℕ = n - polls f - 1 in
      let told =
        ap (λ w. log w f []) (outer-foreign cx 1 other)
        ∙ log-some cx.waker f []
        ∙ repeat-[] (calls f) cx.waker in
      poll_scope_stk-loop cx s.parent n _ calm
      ∙ loop-task cx 1 (loop cx s.parent) (loop-suc cx s.parent) f plain (start f)
          (start-ResumesAs f) none (result_place none) _ [] [] refl (suc spare) n (omega arith)
      ∙ ap (λ ws. loop cx s.parent (suc spare) (between (result_place (some (eval f)) ∷ []) 1 ws))
          told
      ∙ loop-result cx s.parent spare (eval f) _
