-- ===== src/Tests/CalculatorRuns.antt =====
-- The calculator at a concrete expression, with natural numbers for the floating point ones.
use reblessive.Base.{
  refl, arith, Option, none, some, List, ◌∷◌, ℕ, ◌+◌, ◌-◌, ◌*◌, ◌/◌, ◌^◌, ◌≡◌, [], ok,
}
use reblessive.Stack.Defs.{Context}
use reblessive.Stack.Runner.{enter_finish}
use reblessive.Stack.Eval.{eval as result}
use reblessive.Stack.Finish.{between}
use reblessive.Examples.Parser.{parsed, failed, endless, parse}
use reblessive.Examples.Parser.Ending.{Settles, parse-Settles}
use reblessive.Examples.Parser.Runs.{enter_finish-print, parse-endless}
use reblessive.Examples.Calculator.{
  Arithmetic, Expression, number, covered, binary, unary, pos, add, sub, mul, pow,
}

abbrev naturals : Arithmetic ℕ
naturals = record {
  negate = λ x. 0;
  powf = λ x y. x ^ y;
  times = λ x y. x * y;
  over = λ x y. x / y;
  plus = λ x y. x + y;
  minus = λ x y. x - y;
}

abbrev cx : Context
cx = record { addr = 100; waker = 7 }

-- (1 + 2) * +3
abbrev product : Expression ℕ
product = binary (covered (binary (number 1) add (number 2))) mul (unary pos (number 3))

-- Numbers of one digit
abbrev parse_digit : List ℕ → Option ℕ
parse_digit [] = none
parse_digit (c ∷ []) = some (c - 48)
parse_digit (c ∷ d ∷ cs) = none

abbrev show_digit : ℕ → List ℕ
show_digit x = (48 + x) ∷ []

-- "1-2**3"
minus_power_runs :
    result (parse parse_digit 9 (49 ∷ 45 ∷ 50 ∷ 42 ∷ 42 ∷ 51 ∷ []) 0)
    ≡ parsed (binary (number 1) sub (binary (number 2) pow (number 3))) []
unfolding result parse
minus_power_runs = refl

-- "(1" fails.
unclosed_runs : result (parse parse_digit 9 (40 ∷ 49 ∷ []) 0) ≡ failed
unfolding result parse
unclosed_runs = refl

enter_finish-print_example :
    enter_finish 14 cx
      (parse parse_digit 10 (40 ∷ 49 ∷ 43 ∷ 50 ∷ 41 ∷ 42 ∷ 43 ∷ 51 ∷ []) 0)
      (between [] 1 [])
    ≡ ok (parsed product []) (between [] 1 [])
enter_finish-print_example =
    enter_finish-print parse_digit show_digit product
      (
        omega arith,
        (omega arith, (((refl, refl), tt), refl), (((refl, refl), tt), refl)),
        (((refl, refl), tt), refl),
      )
      9 (omega arith) cx 1 []

parse-endless_example : result (parse parse_digit 50 (32 ∷ 49 ∷ []) 0) ≡ endless
parse-endless_example = parse-endless parse_digit 32 refl 50 (49 ∷ []) 0

-- "2*)"
parse-Settles_example : Settles 3 (result (parse parse_digit 4 (50 ∷ 42 ∷ 41 ∷ []) 0))
parse-Settles_example =
    parse-Settles parse_digit 4 (50 ∷ 42 ∷ 41 ∷ []) 0 (refl, (refl, (refl, tt))) (omega arith)
