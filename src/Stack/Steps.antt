-- ===== src/Stack/Steps.antt =====
-- src/stack/mod.rs: an async function that comes to what another one does, in so many polls.
use reblessive.Base.{ap, ◌∙◌, ℕ, ◌+◌, ◌≡◌, arith}
use reblessive.Stack.Defs.{Fut, ret, run}
use reblessive.Stack.Eval.{eval, polls}

pub record Steps {V : Type 0} (k : ℕ) (f g : Fut V) : Type 0 where
  pub same : eval f ≡ eval g
  pub cost : polls f ≡ k + polls g

module _ {V : Type 0} where
  pub Steps-refl : (f g : Fut V) → f ≡ g → Steps 0 f g
  Steps-refl f g e = record { same = ap eval e; cost = omega (arith, ap polls e) }

  pub Steps-trans : (j k : ℕ) (f g h : Fut V) → Steps j f g → Steps k g h → Steps (j + k) f h
  Steps-trans j k f g h a b = record {
    same = a.same ∙ b.same;
    cost = omega (arith, a.cost, b.cost);
  }

  -- A call of a function that comes to a value, and its return
  pub Steps-run :
      (k : ℕ) (child : Fut V) (v : V) (after : V → Fut V)
      → Steps k child (ret v)
      → Steps (k + 2) (run child after) (after v)
  unfolding eval polls
  Steps-run k child v after a = record {
    same = ap (λ x. eval (after x)) a.same;
    cost = omega (arith, a.cost, ap (λ x. polls (after x)) a.same);
  }

  pub recount : (j k : ℕ) (f g : Fut V) → j ≡ k → Steps j f g → Steps k f g
  recount j k f g e a = record { same = a.same; cost = omega (arith, a.cost, e) }
