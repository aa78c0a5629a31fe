-- ===== src/Examples/Fibbo.antt =====
-- src/examples/heavy_fibbo.rs and src/benches/fibbo.rs: the Fibonacci numbers by recursion.
use reblessive.Base.{ℕ, zero, suc, ◌+◌, ◌%◌, ◌^◌, ◌*◌, ◌≡◌, refl, arith, [], List, ok}
use reblessive.Stack.Defs.{Fut, ret, run, Context}
use reblessive.Stack.Runner.{enter_finish}
use reblessive.Stack.Eval.{eval, polls, NeverWaits}
use reblessive.Stack.Finish.{between, enter_finish-eval}

-- `heavy_fibbo`; `usize` has 64 bits and `+` wraps, as it does in a release build.
unfoldable pub heavy_fibbo : ℕ → Fut ℕ
heavy_fibbo zero = ret 1
heavy_fibbo (suc zero) = ret 1
heavy_fibbo (suc (suc n)) =
    run (heavy_fibbo (suc n)) (λ a. run (heavy_fibbo n) (λ b. ret ((a + b) % 2 ^ 64)))

-- The Fibonacci numbers, from 1 and 1
abbrev pub fibonacci : ℕ → ℕ
fibonacci zero = 1
fibonacci (suc zero) = 1
fibonacci (suc (suc n)) = fibonacci (suc n) + fibonacci n

eval-heavy_fibbo : (n : ℕ) → eval (heavy_fibbo n) ≡ fibonacci n % 2 ^ 64
unfolding eval heavy_fibbo
eval-heavy_fibbo zero = refl
eval-heavy_fibbo (suc zero) = refl
eval-heavy_fibbo (suc (suc n)) = omega (arith, eval-heavy_fibbo (suc n), eval-heavy_fibbo n)

-- A call that makes two others is polled three times, one that makes none once.
polls-heavy_fibbo : (n : ℕ) → polls (heavy_fibbo n) + 3 ≡ 4 * fibonacci n
unfolding eval polls heavy_fibbo
polls-heavy_fibbo zero = refl
polls-heavy_fibbo (suc zero) = refl
polls-heavy_fibbo (suc (suc n)) = omega (arith, polls-heavy_fibbo (suc n), polls-heavy_fibbo n)

heavy_fibbo-NeverWaits : (n : ℕ) → NeverWaits (heavy_fibbo n)
unfolding heavy_fibbo
heavy_fibbo-NeverWaits zero = tt
heavy_fibbo-NeverWaits (suc zero) = tt
heavy_fibbo-NeverWaits (suc (suc n)) =
    (heavy_fibbo-NeverWaits (suc n), λ a. (heavy_fibbo-NeverWaits n, λ b. tt))

-- For every `n` the stack computes the Fibonacci number, modulo 2 ^ 64, in at most four steps for
-- each unit of that number, and is empty afterwards.
pub finish-heavy_fibbo :
    (n : ℕ) (cx : Context) (addr : ℕ) (woken : List ℕ)
    → enter_finish (4 * fibonacci n) cx (heavy_fibbo n) (between [] addr woken)
      ≡ ok (fibonacci n % 2 ^ 64) (between [] addr woken)
finish-heavy_fibbo n cx addr woken = rw (← eval-heavy_fibbo n) (
    enter_finish-eval (heavy_fibbo n) (heavy_fibbo-NeverWaits n) cx addr woken (4 * fibonacci n)
      (omega (arith, polls-heavy_fibbo n)))
