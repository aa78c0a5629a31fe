-- ===== src/Stack/Eval.antt =====
-- The recursive meaning of an async function, with no runtime at all.
use reblessive.Base.{ℕ, suc, ◌+◌, ◌<◌, arith}
use reblessive.Stack.Defs.{Fut, ret, run, yield_now, wait}

module _ {V : Type 0} where
  -- What the function returns if `ctx.run(child).await` is a plain call of `child`.
  unfoldable pub eval : Fut V → V
  eval (ret v) = v
  eval (run child k) = eval (k (eval child))
  eval (yield_now f) = eval f
  eval (wait f) = eval f

  -- How often the tasks of the function are polled until it returns: once for each call and once
  -- for each return.
  unfoldable pub polls : Fut V → ℕ
  unfolding eval
  polls (ret v) = 1
  polls (run child k) = suc (polls child + polls (k (eval child)))
  polls (yield_now f) = polls f
  polls (wait f) = suc (polls f)

  pub polls_pos : (f : Fut V) → 0 < polls f
  unfolding polls
  polls_pos (ret v) = omega arith
  polls_pos (run child k) = omega arith
  polls_pos (yield_now f) = polls_pos f
  polls_pos (wait f) = omega arith

  -- How often the function waits for something outside of the crate.
  unfoldable pub waits : Fut V → ℕ
  unfolding eval
  waits (ret v) = 0
  waits (run child k) = waits child + waits (k (eval child))
  waits (yield_now f) = waits f
  waits (wait f) = suc (waits f)

  -- The function awaits nothing but what the crate provides.
  abbrev pub NeverWaits : Fut V → Type 0
  NeverWaits (ret v) = Unit
  NeverWaits (run child k) = NeverWaits child × ((v : V) → NeverWaits (k v))
  NeverWaits (yield_now f) = NeverWaits f
  NeverWaits (wait f) = ⊥
