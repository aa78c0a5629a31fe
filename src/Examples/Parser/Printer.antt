-- ===== src/Examples/Parser/Printer.antt =====
-- The texts that src/examples/calculator.rs parses, and which expressions are read back from them.
-- How a number is written is a parameter.
use reblessive.Base.{
  refl, ℕ, ◌≤◌, ◌<◌, ◌≡◌, Bool, true, false, Option, some, List, [], ◌∷◌, ◌++◌, arith, ltb,
}
use reblessive.Examples.Calculator.{
  UnaryOperator, neg, pos, BinaryOperator, pow, mul, div, add, sub, Expression, number, covered,
  binary, unary,
}
use reblessive.Examples.Parser.{
  is_exponent, is_number_char, number_chars, digit, head, Next, operator, space, stop, next,
  left_power, right_power, behind,
}

abbrev pub symbol : BinaryOperator → List ℕ → List ℕ
symbol pow rest = 42 ∷ 42 ∷ rest
symbol mul rest = 42 ∷ rest
symbol div rest = 47 ∷ rest
symbol add rest = 43 ∷ rest
symbol sub rest = 45 ∷ rest

abbrev pub sign_char : UnaryOperator → ℕ
sign_char pos = 43
sign_char neg = 45

-- A character of a number that is no exponent
abbrev pub IsPlain : ℕ → Type 0
IsPlain c = (is_number_char c ≡ true) × (is_exponent c ≡ false)

abbrev pub ArePlain : List ℕ → Type 0
ArePlain [] = Unit
ArePlain (c ∷ cs) = IsPlain c × ArePlain cs

abbrev pub IsNumeral : List ℕ → Type 0
IsNumeral [] = ⊥
IsNumeral (c ∷ cs) = IsPlain c × ArePlain cs

-- Whether what follows ends an operand that is read with a binding power
abbrev pub ends : ℕ → Next → Bool
ends power (operator op) = ltb (left_power op) power
ends power space = false
ends power stop = true

abbrev pub starts_number : List ℕ → Bool
starts_number [] = false
starts_number (c ∷ cs) = is_number_char c

abbrev pub Ends : ℕ → List ℕ → Type 0
Ends power rest = (ends power (next rest) ≡ true) × (starts_number rest ≡ false)

pub Ends-mono : (p q : ℕ) (rest : List ℕ) → p ≤ q → Ends p rest → Ends q rest
Ends-mono p q rest h e = (later (next rest) e.0, e.1)
  where
    later : (t : Next) → ends p t ≡ true → ends q t ≡ true
    later (operator op) e = ground (arith, e)
    later space e = e
    later stop e = refl

pub number_chars-plain :
    (cs rest : List ℕ)
    → ArePlain cs
    → starts_number rest ≡ false
    → number_chars false (cs ++ rest) ≡ (cs, rest)
number_chars-plain [] [] plain e = refl
number_chars-plain [] (c ∷ rest) plain e = ground (arith, e)
number_chars-plain (c ∷ cs) rest plain e =
    ground (arith, plain.0.0, plain.0.1, number_chars-plain cs rest plain.1 e)

pub head-plain : (c : ℕ) → is_number_char c ≡ true → head c ≡ digit
head-plain c e = ground (arith, e)

module _ {F : Type 0} (parse_f64 : List ℕ → Option F) (show_f64 : F → List ℕ) where
  -- An expression in front of a text
  abbrev pub print : Expression F → List ℕ → List ℕ
  print (number x) rest = show_f64 x ++ rest
  print (covered x) rest = 40 ∷ print x (41 ∷ rest)
  print (binary left op right) rest = print left (symbol op (print right rest))
  print (unary op x) rest = sign_char op ∷ print x rest

  -- An expression that can be read with a binding power: the number texts are read back, and where
  -- an operand binds weaker than its operator there are parentheses.
  abbrev pub Fits : ℕ → Expression F → Type 0
  Fits p (number x) = IsNumeral (show_f64 x) × (parse_f64 (show_f64 x) ≡ some x)
  Fits p (covered x) = Fits 0 x
  Fits p (binary left op right) =
      (p ≤ left_power op) × Fits (left_power op) left × Fits (right_power op) right
  Fits p (unary op x) = Fits 7 x

  -- The binding power that what follows the expression must be below of
  abbrev pub level : Expression F → ℕ
  level (number x) = 7
  level (covered x) = 7
  level (binary left op right) = right_power op
  level (unary op x) = 7

  pub level-Fits : (p : ℕ) (e : Expression F) → p ≤ 6 → Fits p e → p < level e
  level-Fits p (number x) h f = omega (arith, h)
  level-Fits p (covered x) h f = omega (arith, h)
  level-Fits p (binary left op right) h f = omega (arith, f.0)
  level-Fits p (unary op x) h f = omega (arith, h)

  pub left_power_small : (op : BinaryOperator) → left_power op ≤ 5
  left_power_small pow = omega arith
  left_power_small mul = omega arith
  left_power_small div = omega arith
  left_power_small add = omega arith
  left_power_small sub = omega arith

  pub level-seven : (e : Expression F) → Fits 7 e → level e ≡ 7
  level-seven (number x) f = refl
  level-seven (covered x) f = refl
  level-seven (binary left op right) f = absurd (omega (arith, left_power_small op, f.0))
  level-seven (unary op x) f = refl

  pub Fits-mono : (p q : ℕ) (e : Expression F) → p ≤ q → Fits q e → Fits p e
  Fits-mono p q (number x) h f = f
  Fits-mono p q (covered x) h f = f
  Fits-mono p q (binary left op right) h f = (omega (arith, h, f.0), f.1, f.2)
  Fits-mono p q (unary op x) h f = f

  -- No expression starts with an asterisk.
  pub next-mul :
      (p : ℕ) (e : Expression F) (rest : List ℕ)
      → Fits p e
      → next (42 ∷ print e rest) ≡ operator mul
  next-mul p (number x) rest f = starts (show_f64 x) f.0
    where
      starts : (cs : List ℕ) → IsNumeral cs → next (42 ∷ cs ++ rest) ≡ operator mul
      starts [] h = absurd h
      starts (c ∷ cs) h = ground (arith, h.0.0)
  next-mul p (covered x) rest f = refl
  next-mul p (binary left op right) rest f = next-mul (left_power op) left _ f.1
  next-mul p (unary pos x) rest f = refl
  next-mul p (unary neg x) rest f = refl

  pub next-symbol :
      (op : BinaryOperator) (p : ℕ) (e : Expression F) (rest : List ℕ)
      → Fits p e
      → next (symbol op (print e rest)) ≡ operator op
  next-symbol pow p e rest f = refl
  next-symbol mul p e rest f = next-mul p e rest f
  next-symbol div p e rest f = refl
  next-symbol add p e rest f = refl
  next-symbol sub p e rest f = refl

pub behind-symbol : (op : BinaryOperator) (rest : List ℕ) → behind op (symbol op rest) ≡ rest
behind-symbol pow rest = refl
behind-symbol mul rest = refl
behind-symbol div rest = refl
behind-symbol add rest = refl
behind-symbol sub rest = refl

pub starts_number-symbol :
    (op : BinaryOperator) (rest : List ℕ) → starts_number (symbol op rest) ≡ false
starts_number-symbol pow rest = refl
starts_number-symbol mul rest = refl
starts_number-symbol div rest = refl
starts_number-symbol add rest = refl
starts_number-symbol sub rest = refl
