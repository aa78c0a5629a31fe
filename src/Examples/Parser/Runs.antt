-- ===== src/Examples/Parser/Runs.antt =====
-- src/examples/calculator.rs: the parser on the stack.
use mathlib.Core.Path.{subst, sym}
use reblessive.Base.{
  ◌*◌, refl, ap, ◌∙◌, ℕ, zero, suc, ◌≤◌, ◌≡◌, true, false, Bool-cases, inl, inr, Option, none, some,
  List, [], ◌∷◌, arith, ◌==◌, ltb, ok,
}
use reblessive.Stack.Defs.{Fut, ret, run, Context}
use reblessive.Stack.Eval.{NeverWaits}
use reblessive.Stack.Eval.{eval as result}
use reblessive.Stack.Runner.{enter_finish}
use reblessive.Stack.Finish.{between, enter_finish-eval}
use reblessive.Examples.Calculator.{UnaryOperator, BinaryOperator, Expression, nodes}
use reblessive.Examples.Parser.{
  is_space, number_chars, Head, sign, parenthesis, space, digit, other, head, Next, operator, stop,
  next, left_power, right_power, behind, Parsed, parsed, failed, endless, operators, signed, closed,
  numeral, joined, parse,
}
use reblessive.Examples.Parser.Printer.{print, Fits}
use reblessive.Examples.Parser.RoundTrip.{parse-print}

module _ {F : Type 0} where
  as_quiet : (f g : Fut (Parsed F)) → f ≡ g → NeverWaits g → NeverWaits f
  as_quiet f g e h = subst (λ f. NeverWaits f) (sym e) h

  -- What comes behind an operand, if the rest of the parser never waits
  module _ (go : Expression F → List ℕ → Fut (Parsed F))
      (quiet : (e : Expression F) (left : List ℕ) → NeverWaits (go e left)) where
    joined-NeverWaits :
        (lhs : Expression F) (op : BinaryOperator) (r : Parsed F) → NeverWaits (joined go lhs op r)
    joined-NeverWaits lhs op (parsed rhs left) = quiet _ left
    joined-NeverWaits lhs op failed = tt
    joined-NeverWaits lhs op endless = tt

    signed-NeverWaits : (op : UnaryOperator) (r : Parsed F) → NeverWaits (signed go op r)
    signed-NeverWaits op (parsed e left) = quiet _ left
    signed-NeverWaits op failed = tt
    signed-NeverWaits op endless = tt

    closed-NeverWaits : (r : Parsed F) → NeverWaits (closed go r)
    closed-NeverWaits (parsed e []) = tt
    closed-NeverWaits (parsed e (c ∷ left)) = elim (Bool-cases (c == 41)) [
      | inl h ↦ rw h (quiet _ left)
      | inr h ↦ rw h tt
    ]
    closed-NeverWaits failed = tt
    closed-NeverWaits endless = tt

    numeral-NeverWaits : (o : Option F) (left : List ℕ) → NeverWaits (numeral go o left)
    numeral-NeverWaits none left = tt
    numeral-NeverWaits (some x) left = quiet _ left

  operators-NeverWaits :
      (m : ℕ) (operand : List ℕ → ℕ → Fut (Parsed F))
      → ((text : List ℕ) (p : ℕ) → NeverWaits (operand text p))
      → (p : ℕ) (lhs : Expression F) (text : List ℕ) → NeverWaits (operators m operand p lhs text)
  unfolding operators
  operators-NeverWaits zero operand h p lhs text = tt
  operators-NeverWaits (suc m) operand h p lhs text =
      seen (operators-NeverWaits m operand h p) (next text) refl
    where
      seen :
          ((e : Expression F) (left : List ℕ) → NeverWaits (operators m operand p e left))
          → (t : Next) → next text ≡ t
          → NeverWaits (operators (suc m) operand p lhs text)
      seen quiet stop at =
          as_quiet (operators (suc m) operand p lhs text) (ret (parsed lhs text))
            (ground (arith, at)) tt
      seen quiet space at =
          as_quiet (operators (suc m) operand p lhs text) (operators m operand p lhs text)
            (ground (arith, at)) (quiet lhs text)
      seen quiet (operator op) at = elim (Bool-cases (ltb (left_power op) p)) [
        | inl weak ↦
            as_quiet (operators (suc m) operand p lhs text) (ret (parsed lhs text))
              (ground (arith, at, weak)) tt
        | inr strong ↦
            as_quiet (operators (suc m) operand p lhs text)
              (run (operand (behind op text) (right_power op))
                (joined (operators m operand p) lhs op))
              (ground (arith, at, strong))
              (h _ _, joined-NeverWaits (operators m operand p) quiet lhs op)
      ]

  module _ (parse_f64 : List ℕ → Option F) where
    parse-NeverWaits : (n : ℕ) (text : List ℕ) (p : ℕ) → NeverWaits (parse parse_f64 n text p)
    unfolding parse
    parse-NeverWaits zero text p = tt
    parse-NeverWaits (suc n) [] p = tt
    parse-NeverWaits (suc n) (c ∷ cs) p = seen (parse-NeverWaits n) (head c) refl
      where
        seen :
            ((text : List ℕ) (q : ℕ) → NeverWaits (parse parse_f64 n text q))
            → (k : Head) → head c ≡ k
            → NeverWaits (parse parse_f64 (suc n) (c ∷ cs) p)
        seen inner (sign op) at =
            as_quiet (parse parse_f64 (suc n) (c ∷ cs) p)
              (run (parse parse_f64 n cs 7) (signed (operators n (parse parse_f64 n) p) op))
              (ground (arith, at))
              (
                inner cs 7,
                signed-NeverWaits (operators n (parse parse_f64 n) p)
                    (operators-NeverWaits n (parse parse_f64 n) inner p) op,
              )
        seen inner parenthesis at =
            as_quiet (parse parse_f64 (suc n) (c ∷ cs) p)
              (run (parse parse_f64 n cs 0) (closed (operators n (parse parse_f64 n) p)))
              (ground (arith, at))
              (
                inner cs 0,
                closed-NeverWaits (operators n (parse parse_f64 n) p)
                    (operators-NeverWaits n (parse parse_f64 n) inner p),
              )
        seen inner space at =
            as_quiet (parse parse_f64 (suc n) (c ∷ cs) p) (parse parse_f64 n (c ∷ cs) p)
              (ground (arith, at)) (inner _ p)
        seen inner digit at =
            let (taken, left) = number_chars false cs in
            as_quiet (parse parse_f64 (suc n) (c ∷ cs) p)
              (numeral (operators n (parse parse_f64 n) p) (parse_f64 (c ∷ taken)) left)
              (ground (arith, at))
              (numeral-NeverWaits (operators n (parse parse_f64 n) p)
                (operators-NeverWaits n (parse parse_f64 n) inner p) _ left)
        seen inner other at =
            as_quiet (parse parse_f64 (suc n) (c ∷ cs) p) (ret failed) (ground (arith, at)) tt

    head-space : (c : ℕ) → is_space c ≡ true → head c ≡ space
    head-space c white = ground (arith, white)

    -- An expression is read back from its text, in at most two steps for each of its nodes, if the
    -- texts of its numbers are digits and dots, without a sign or an exponent, and are read back, and
    -- if operands that bind weaker than their operator are in parentheses.
    pub enter_finish-print :
        (show_f64 : F → List ℕ) (e : Expression F)
        → Fits parse_f64 show_f64 0 e
        → (n : ℕ) → nodes e ≤ n
        → (cx : Context) (addr : ℕ) (woken : List ℕ)
        → enter_finish
            (2 * nodes e)
            cx
            (parse parse_f64 (suc n) (print parse_f64 show_f64 e []) 0)
            (between [] addr woken)
          ≡ ok (parsed e []) (between [] addr woken)
    enter_finish-print show_f64 e f n deep cx addr woken =
        let (same, enough) = parse-print parse_f64 show_f64 e f n deep in
        enter_finish-eval _ (parse-NeverWaits (suc n) _ 0) cx addr woken (2 * nodes e) enough
        ∙ ap (λ r. ok r (between [] addr woken)) same

    -- On white space in front of an operand the parser makes no progress, for however many rounds.
    pub parse-endless :
        (c : ℕ)
        → is_space c ≡ true
        → (n : ℕ) (cs : List ℕ) (p : ℕ) → result (parse parse_f64 n (c ∷ cs) p) ≡ endless
    unfolding parse result
    parse-endless c white zero cs p = refl
    parse-endless c white (suc n) cs p =
        ground (arith, head-space c white, parse-endless c white n cs p)
