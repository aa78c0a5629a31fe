-- ===== src/Tests/BenchRuns.antt =====
-- The parser of the benchmark on small texts, with natural numbers of one digit.
use reblessive.Base.{
  refl, Option, none, some, List, [], ◌∷◌, ℕ, ◌-◌, ◌≡◌, arith, ◌+◌, ◌*◌, ◌/◌, ◌%◌, ◌<◌, true, false,
}
use reblessive.Stack.Defs.{ret}
use reblessive.Stack.Eval.{eval as result}
use reblessive.Examples.Calculator.{Expression, number, binary, add}
use reblessive.Examples.Parser.{is_number_char, is_exponent, digit, head, parsed, failed, parse}
use reblessive.Examples.Parser.Ending.{Settles}
use reblessive.Examples.Bench.{parse_spaced}
use reblessive.Examples.Bench.Numbers.{RejectsTwo, parse_spaced-exponent}
use reblessive.Examples.Bench.Agrees.{IsOrdinary, parse_spaced-parse}
use reblessive.Examples.Bench.Generated.{generate_expression}
use reblessive.Examples.Bench.Reading.{IsNumeral}
use reblessive.Examples.Bench.Runs.{generate_expression-parsed}

-- Numbers of one digit
abbrev parse_digit : List ℕ → Option ℕ
parse_digit [] = none
parse_digit (c ∷ []) = some (c - 48)
parse_digit (c ∷ d ∷ cs) = none

parse_digit-RejectsTwo : RejectsTwo parse_digit
parse_digit-RejectsTwo [] after e exponent = refl
parse_digit-RejectsTwo (c ∷ []) after e exponent = refl
parse_digit-RejectsTwo (c ∷ d ∷ before) after e exponent = refl

-- " 1 +\n2 " is read up to its end.
spaced_runs :
    result (parse_spaced parse_digit 9 (32 ∷ 49 ∷ 32 ∷ 43 ∷ 10 ∷ 50 ∷ 32 ∷ []) 0)
    ≡ parsed (binary (number 1) add (number 2)) []
unfolding result parse_spaced
spaced_runs = refl

-- "12e5+1"
parse_spaced-exponent_example :
    parse_spaced parse_digit 9 (49 ∷ 50 ∷ 101 ∷ 53 ∷ 43 ∷ 49 ∷ []) 0 ≡ ret failed
parse_spaced-exponent_example =
    parse_spaced-exponent parse_digit parse_digit-RejectsTwo 8 0 49 [] 50 101 (53 ∷ 43 ∷ 49 ∷ [])
      refl tt (refl, refl) refl

-- "(1+2)*3"
abbrev product_text : List ℕ
product_text = 40 ∷ 49 ∷ 43 ∷ 50 ∷ 41 ∷ 42 ∷ 51 ∷ []

product_text-IsOrdinary : IsOrdinary product_text
product_text-IsOrdinary = (
  refl,
  refl,
  (refl, refl, (refl, refl, (refl, refl, (refl, refl, (refl, refl, (refl, refl, tt)))))),
)

parse_spaced-parse_example :
    (result (parse_spaced parse_digit 8 product_text 0)
      ≡ result (parse parse_digit 8 product_text 0))
    × Settles 7 (result (parse_spaced parse_digit 8 product_text 0))
parse_spaced-parse_example =
    parse_spaced-parse parse_digit 8 product_text 0 product_text-IsOrdinary (omega arith)

-- Numbers such as 1.23
abbrev parse_hundredths : List ℕ → Option ℕ
parse_hundredths [] = none
parse_hundredths (a ∷ []) = none
parse_hundredths (a ∷ p ∷ []) = none
parse_hundredths (a ∷ p ∷ b ∷ []) = none
parse_hundredths (a ∷ p ∷ b ∷ c ∷ cs) = some ((a - 48) * 100 + (b - 48) * 10 + (c - 48))

abbrev show_hundredths : ℕ → List ℕ
show_hundredths n = (48 + n / 100) ∷ 46 ∷ (48 + n / 10 % 10) ∷ (48 + n % 10) ∷ []

digit_head : (d : ℕ) → d < 10 → head (48 + d) ≡ digit
digit_head d h = ground (arith, h)

digit_char : (d : ℕ) → d < 10 → is_number_char (48 + d) ≡ true
digit_char d h = ground (arith, h)

digit_plain : (d : ℕ) → d < 10 → is_exponent (48 + d) ≡ false
digit_plain d h = ground (arith, h)

shows_hundredths : (n : ℕ) → n < 1000 → IsNumeral parse_hundredths (show_hundredths n)
shows_hundredths n h = (
  digit_head (n / 100) (omega arith),
  (
    refl,
    refl,
    (
      digit_char (n / 10 % 10) (omega arith),
      digit_plain (n / 10 % 10) (omega arith),
      (digit_char (n % 10) (omega arith), digit_plain (n % 10) (omega arith), tt),
    ),
  ),
  (_, refl),
)

generate_expression-parsed_example :
    (text : List ℕ) × (e : Expression ℕ) × (generate_expression show_hundredths 100 ≡ some text)
    × (result (parse_spaced parse_hundredths 103 text 0) ≡ parsed e [])
generate_expression-parsed_example =
    generate_expression-parsed parse_hundredths show_hundredths shows_hundredths 100 103
      (omega arith)
