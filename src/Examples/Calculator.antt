-- ===== src/Examples/Calculator.antt =====
-- src/examples/calculator.rs and src/benches/calc.rs: the evaluation of expressions. The floating
-- point numbers and their operations are a parameter.
use reblessive.Base.{ℕ, suc, ◌+◌, ◌*◌, ◌≡◌, refl, arith, [], List, ok, ap, ◌∙◌}
use reblessive.Stack.Defs.{Fut, ret, run, Context}
use reblessive.Stack.Runner.{enter_finish}
use reblessive.Stack.Eval.{polls, NeverWaits}
use reblessive.Stack.Eval.{eval as result}
use reblessive.Stack.Finish.{between, enter_finish-eval}

pub data UnaryOperator : Type 0 where
  neg : UnaryOperator
  pos : UnaryOperator

pub data BinaryOperator : Type 0 where
  pow : BinaryOperator
  mul : BinaryOperator
  div : BinaryOperator
  add : BinaryOperator
  sub : BinaryOperator

pub data Expression (F : Type 0) : Type 0 where
  number : F → Expression F
  covered : Expression F → Expression F
  binary : Expression F → BinaryOperator → Expression F → Expression F
  unary : UnaryOperator → Expression F → Expression F

-- The number of the numbers, operators and parentheses
abbrev pub nodes : {F : Type 0} → Expression F → ℕ
nodes (number x) = 1
nodes (covered x) = suc (nodes x)
nodes (binary left op right) = suc (nodes left + nodes right)
nodes (unary op expr) = suc (nodes expr)

-- The calls and operators of `f64`
pub record Arithmetic (F : Type 0) : Type 0 where
  pub negate : F → F
  pub powf : F → F → F
  pub times : F → F → F
  pub over : F → F → F
  pub plus : F → F → F
  pub minus : F → F → F

module _ {F : Type 0} (f64 : Arithmetic F) where
  abbrev pub apply : BinaryOperator → F → F → F
  apply pow left right = f64.powf left right
  apply mul left right = f64.times left right
  apply div left right = f64.over left right
  apply add left right = f64.plus left right
  apply sub left right = f64.minus left right

  abbrev pub apply_unary : UnaryOperator → F → F
  apply_unary neg x = f64.negate x
  apply_unary pos x = x

  -- `eval`
  unfoldable pub eval : Expression F → Fut F
  eval (number x) = ret x
  eval (covered x) = run (eval x) (λ v. ret v)
  eval (binary left op right) = run (eval left) (λ l. run (eval right) (λ r. ret (apply op l r)))
  eval (unary op expr) = run (eval expr) (λ v. ret (apply_unary op v))

  -- The value of an expression by plain recursion
  abbrev pub denote : Expression F → F
  denote (number x) = x
  denote (covered x) = denote x
  denote (binary left op right) = apply op (denote left) (denote right)
  denote (unary op expr) = apply_unary op (denote expr)

  result-eval : (e : Expression F) → result (eval e) ≡ denote e
  unfolding result eval
  result-eval (number x) = refl
  result-eval (covered x) = result-eval x
  result-eval (binary left op right) =
      ap (λ l. apply op l (result (eval right))) (result-eval left)
      ∙ ap (apply op (denote left)) (result-eval right)
  result-eval (unary op expr) = ap (apply_unary op) (result-eval expr)

  -- A call for each node, and a return for each but the outermost one
  polls-eval : (e : Expression F) → polls (eval e) + 1 ≡ 2 * nodes e
  unfolding polls eval
  polls-eval (number x) = refl
  polls-eval (covered x) = omega (arith, polls-eval x)
  polls-eval (binary left op right) = omega (arith, polls-eval left, polls-eval right)
  polls-eval (unary op expr) = omega (arith, polls-eval expr)

  eval-NeverWaits : (e : Expression F) → NeverWaits (eval e)
  unfolding eval
  eval-NeverWaits (number x) = tt
  eval-NeverWaits (covered x) = (eval-NeverWaits x, λ v. tt)
  eval-NeverWaits (binary left op right) =
      (eval-NeverWaits left, λ l. (eval-NeverWaits right, λ r. tt))
  eval-NeverWaits (unary op expr) = (eval-NeverWaits expr, λ v. tt)

  -- The stack evaluates every expression, however deep, to the value that plain recursion gives, in
  -- at most two steps for each of its nodes, and is empty afterwards.
  pub enter_finish-denote :
      (e : Expression F) (cx : Context) (addr : ℕ) (woken : List ℕ)
      → enter_finish (2 * nodes e) cx (eval e) (between [] addr woken)
        ≡ ok (denote e) (between [] addr woken)
  enter_finish-denote e cx addr woken =
      enter_finish-eval (eval e) (eval-NeverWaits e) cx addr woken (2 * nodes e)
        (omega (arith, polls-eval e))
      ∙ ap (λ v. ok v (between [] addr woken)) (result-eval e)
