-- ===== src/Examples/Parser.antt =====
-- src/examples/calculator.rs: the parser of expressions, an async function that calls itself for
-- operands. It has the only reference to the buffer, so each call takes the bytes and returns what
-- is left of them. The reading of a number from its characters is a parameter.
pub mod Printer
pub mod Operands
pub mod RoundTrip
pub mod Runs
pub mod Spaces
pub mod Ending
use reblessive.Base.{
  ℕ, zero, suc, Bool, true, false, ◌||◌, ◌&&◌, Option, none, some, List, [], ◌∷◌, ◌==◌, leb, ltb,
  if◌then◌else◌,
}
use reblessive.Stack.Defs.{Fut, ret, run}
use reblessive.Examples.Calculator.{
  UnaryOperator, neg, pos, BinaryOperator, pow, mul, div, add, sub, Expression, number, covered,
  binary, unary,
}

-- `u8::is_ascii_whitespace`: space, tab, line feed, form feed and carriage return
abbrev pub is_space : ℕ → Bool
is_space c = c == 32 || c == 9 || c == 10 || c == 12 || c == 13

-- `b'e' | b'E'`
abbrev pub is_exponent : ℕ → Bool
is_exponent c = c == 101 || c == 69

abbrev pub is_sign : ℕ → Bool
is_sign c = c == 43 || c == 45

-- `is_number_char`
abbrev pub is_number_char : ℕ → Bool
is_number_char c = leb 48 c && leb c 57 || c == 46 || is_exponent c

-- The loop that collects the characters of a number: the ones that it takes, and what is left. The
-- flag tells that the last one was an exponent, which may have a sign.
abbrev pub number_chars : Bool → List ℕ → List ℕ × List ℕ
number_chars exponent [] = ([], [])
number_chars exponent (c ∷ cs) =
    let (taken, left) = number_chars (is_exponent c) cs in
    if is_number_char c || exponent && is_sign c then (c ∷ taken, left) else ([], c ∷ cs)

-- What stands in front of an operand
pub data Head : Type 0 where
  sign : UnaryOperator → Head  -- `b'+'` or `b'-'`
  parenthesis : Head  -- `b'('`
  space : Head
  digit : Head  -- the first character of a number
  other : Head

abbrev pub head : ℕ → Head
head c =
    if c == 43
    then sign pos
    else if c == 45
    then sign neg
    else if c == 40
    then parenthesis
    else if is_space c
    then space
    else if is_number_char c
    then digit
    else other

-- What stands behind an operand
pub data Next : Type 0 where
  operator : BinaryOperator → Next
  space : Next
  stop : Next

abbrev pub times_or_power : List ℕ → Next
times_or_power [] = operator mul
times_or_power (c ∷ cs) = if c == 42 then operator pow else operator mul

abbrev pub next : List ℕ → Next
next [] = stop
next (c ∷ cs) =
    if c == 42
    then times_or_power cs
    else if c == 47
    then operator div
    else if c == 43
    then operator add
    else if c == 45
    then operator sub
    else if is_space c
    then space
    else stop

-- The binding powers, to the left and to the right
abbrev pub left_power : BinaryOperator → ℕ
left_power pow = 5
left_power mul = 3
left_power div = 3
left_power add = 1
left_power sub = 1

abbrev pub right_power : BinaryOperator → ℕ
right_power op = suc (left_power op)

-- `bytes.next()`
abbrev pub skip : List ℕ → List ℕ
skip [] = []
skip (c ∷ cs) = cs

-- Behind an operator
abbrev pub behind : BinaryOperator → List ℕ → List ℕ
behind pow bytes = skip (skip bytes)
behind mul bytes = skip bytes
behind div bytes = skip bytes
behind add bytes = skip bytes
behind sub bytes = skip bytes

-- `Result<Expression, Error>` with what is left in the buffer
pub data Parsed (F : Type 0) : Type 0 where
  parsed : Expression F → List ℕ → Parsed F
  failed : Parsed F  -- `Error::Parse`
  endless : Parsed F  -- more rounds than the fuel allows

module _ {F : Type 0} where
  -- Behind the operand of a sign
  abbrev pub signed :
      (Expression F → List ℕ → Fut (Parsed F)) → UnaryOperator → Parsed F → Fut (Parsed F)
  signed go op (parsed expr left) = go (unary op expr) left
  signed go op failed = ret failed
  signed go op endless = ret endless

  -- Behind the expression in parentheses
  abbrev pub closed : (Expression F → List ℕ → Fut (Parsed F)) → Parsed F → Fut (Parsed F)
  closed go (parsed expr []) = ret failed
  closed go (parsed expr (c ∷ left)) = if c == 41 then go (covered expr) left else ret failed
  closed go failed = ret failed
  closed go endless = ret endless

  -- Behind the characters of a number
  abbrev pub numeral : (Expression F → List ℕ → Fut (Parsed F)) → Option F → List ℕ → Fut (Parsed F)
  numeral go none left = ret failed
  numeral go (some x) left = go (number x) left

  -- Behind the right operand of an operator
  abbrev pub joined :
      (Expression F → List ℕ → Fut (Parsed F))
      → Expression F
      → BinaryOperator
      → Parsed F
      → Fut (Parsed F)
  joined go lhs op (parsed rhs left) = go (binary lhs op rhs) left
  joined go lhs op failed = ret failed
  joined go lhs op endless = ret endless

  -- The loop over the operators; `operand` parses with a binding power.
  unfoldable pub operators :
      ℕ → (List ℕ → ℕ → Fut (Parsed F)) → ℕ → Expression F → List ℕ → Fut (Parsed F)
  operators zero operand binding_power lhs bytes = ret endless
  operators (suc n) operand binding_power lhs bytes = elim (next bytes) [
    | stop ↦ ret (parsed lhs bytes)
    | space ↦ operators n operand binding_power lhs bytes
    | operator op ↦ elim (ltb (left_power op) binding_power) [
      | true ↦ ret (parsed lhs bytes)
      | false ↦ run (operand (behind op bytes) (right_power op)) (λ r. elim r [
        | parsed rhs left ↦ operators n operand binding_power (binary lhs op rhs) left
        | failed ↦ ret failed
        | endless ↦ ret endless
      ])
    ]
  ]

module _ {F : Type 0} (parse_f64 : List ℕ → Option F) where
  -- `parse`, for calls nested at most so deep, each with at most so many rounds of its loops
  unfoldable pub parse : ℕ → List ℕ → ℕ → Fut (Parsed F)
  unfolding operators
  parse zero bytes binding_power = ret endless
  parse (suc n) [] binding_power = ret failed
  parse (suc n) (c ∷ cs) binding_power =
      let go = operators n (parse n) binding_power in
      elim (head c) [
        | sign op ↦ run (parse n cs 7) (signed go op)
        | parenthesis ↦ run (parse n cs 0) (closed go)
        | space ↦ parse n (c ∷ cs) binding_power
        | digit ↦
            let (taken, left) = number_chars false cs in numeral go (parse_f64 (c ∷ taken)) left
        | other ↦ ret failed
      ]
