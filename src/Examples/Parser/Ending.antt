-- ===== src/Examples/Parser/Ending.antt =====
-- src/examples/calculator.rs: the parser on any text without white space.
use mathlib.Core.Path.{subst, sym}
use reblessive.Base.{
  refl, ℕ, zero, suc, ◌≤◌, ◌<◌, ◌≡◌, false, Bool-cases, inl, inr, Option, none, some, List, [], ◌∷◌,
  arith, length, ◌==◌, ltb,
}
use reblessive.Stack.Defs.{Fut, ret, run}
use reblessive.Stack.Eval.{eval as result}
use reblessive.Examples.Calculator.{UnaryOperator, BinaryOperator, Expression}
use reblessive.Examples.Parser.{
  number_chars, Head, sign, parenthesis, space, digit, other, head, Next, operator, stop, next,
  left_power, right_power, behind, Parsed, parsed, failed, endless, operators, joined, signed,
  closed, numeral, parse,
}
use reblessive.Examples.Parser.Spaces.{
  HasNoSpace, behind-HasNoSpace, behind-shorter, number_chars-left, next-some, next-no_space,
  head-no_space,
}

module _ {F : Type 0} where
  -- The parser returned, with at most so many bytes left, or with an error.
  abbrev pub Settles : ℕ → Parsed F → Type 0
  Settles most (parsed e left) = (length left ≤ most) × HasNoSpace left
  Settles most failed = Unit
  Settles most endless = ⊥

  as_settled :
      (most : ℕ) (f g : Fut (Parsed F)) → f ≡ g → Settles most (result g) → Settles most (result f)
  as_settled most f g e h = subst (λ f. Settles most (result f)) (sym e) h

  -- What comes behind an operand, if the rest of the parser returns
  module _ (go : Expression F → List ℕ → Fut (Parsed F)) (k most : ℕ)
      (settled : (e : Expression F) (left : List ℕ)
        → length left ≤ k
        → HasNoSpace left
        → Settles most (result (go e left))) where
    joined-Settles :
        (lhs : Expression F) (op : BinaryOperator) (r : Parsed F)
        → Settles k r
        → Settles most (result (joined go lhs op r))
    unfolding result
    joined-Settles lhs op (parsed rhs left) h = settled _ left h.0 h.1
    joined-Settles lhs op failed h = tt
    joined-Settles lhs op endless h = absurd h

    signed-Settles :
        (op : UnaryOperator) (r : Parsed F) → Settles k r → Settles most (result (signed go op r))
    unfolding result
    signed-Settles op (parsed e left) h = settled _ left h.0 h.1
    signed-Settles op failed h = tt
    signed-Settles op endless h = absurd h

    closed-Settles : (r : Parsed F) → Settles k r → Settles most (result (closed go r))
    unfolding result
    closed-Settles (parsed e []) h = tt
    closed-Settles (parsed e (c ∷ left)) h = elim (Bool-cases (c == 41)) [
      | inl at ↦ rw at (settled _ left (omega (arith, h.0)) h.1.1)
      | inr at ↦ rw at tt
    ]
    closed-Settles failed h = tt
    closed-Settles endless h = absurd h

    numeral-Settles :
        (o : Option F) (left : List ℕ)
        → length left ≤ k
        → HasNoSpace left
        → Settles most (result (numeral go o left))
    unfolding result
    numeral-Settles none left h clear = tt
    numeral-Settles (some x) left h clear = settled _ left h clear

  -- The parser of the operands, on texts shorter than `n`
  abbrev Operand : ℕ → (List ℕ → ℕ → Fut (Parsed F)) → Type 0
  Operand n operand =
      (text : List ℕ) (p : ℕ)
      → HasNoSpace text
      → length text < n
      → Settles (length text) (result (operand text p))

  operators-Settles :
      (m n : ℕ) (operand : List ℕ → ℕ → Fut (Parsed F))
      → Operand n operand
      → (p most : ℕ) (lhs : Expression F) (text : List ℕ) → HasNoSpace text
      → length text < n
      → length text < m
      → length text ≤ most
      → Settles most (result (operators m operand p lhs text))
  unfolding operators result
  operators-Settles zero n operand inner p most lhs text clear h₁ h₂ h = absurd (omega (arith, h₂))
  operators-Settles (suc m) n operand inner p most lhs text clear h₁ h₂ h =
      seen (operators-Settles m n operand inner p most) (next text) refl
    where
      seen :
          ((e : Expression F) (left : List ℕ)
            → HasNoSpace left
            → length left < n
            → length left < m
            → length left ≤ most
            → Settles most (result (operators m operand p e left)))
          → (t : Next) → next text ≡ t
          → Settles most (result (operators (suc m) operand p lhs text))
      seen go stop at =
          as_settled most (operators (suc m) operand p lhs text) (ret (parsed lhs text))
            (ground (arith, at)) (h, clear)
      seen go space at = absurd (next-no_space text clear at)
      seen go (operator op) at = elim (Bool-cases (ltb (left_power op) p)) [
        | inl weak ↦
            as_settled most (operators (suc m) operand p lhs text) (ret (parsed lhs text))
              (ground (arith, at, weak)) (h, clear)
        | inr strong ↦
            let shorter : length (behind op text) < length text =
              behind-shorter op text (next-some text op at) in
            as_settled most (operators (suc m) operand p lhs text)
              (run (operand (behind op text) (right_power op))
                (joined (operators m operand p) lhs op))
              (ground (arith, at, strong))
              (joined-Settles (operators m operand p) (length (behind op text)) most
                (λ e left short fine.
                  go e left fine (omega (arith, short, shorter, h₁))
                    (omega (arith, short, shorter, h₂)) (omega (arith, short, shorter, h)))
                lhs op (result (operand (behind op text) (right_power op)))
                (inner (behind op text) (right_power op) (behind-HasNoSpace op text clear)
                  (omega (arith, shorter, h₁))))
      ]

  module _ (parse_f64 : List ℕ → Option F) where
    -- On a text without white space the parser returns, with an expression and what is left of the
    -- text or with an error, if it may call itself once more than the text has bytes.
    pub parse-Settles :
        (n : ℕ) (text : List ℕ) (p : ℕ)
        → HasNoSpace text
        → length text < n
        → Settles (length text) (result (parse parse_f64 n text p))
    unfolding parse result
    parse-Settles zero text p clear h = absurd (omega (arith, h))
    parse-Settles (suc n) [] p clear h = tt
    parse-Settles (suc n) (c ∷ cs) p clear h = seen (parse-Settles n) (head c) refl
      where
        go : Expression F → List ℕ → Fut (Parsed F)
        go = operators n (parse parse_f64 n) p

        settled :
            Operand n (parse parse_f64 n)
            → (e : Expression F) (left : List ℕ) → length left ≤ length cs
            → HasNoSpace left
            → Settles (suc (length cs)) (result (go e left))
        settled inner e left short fine =
            operators-Settles n n (parse parse_f64 n) inner p (suc (length cs)) e left fine
              (omega (arith, short, h)) (omega (arith, short, h)) (omega (arith, short))

        from :
            (f : Fut (Parsed F))
            → parse parse_f64 (suc n) (c ∷ cs) p ≡ f
            → Settles (suc (length cs)) (result f)
            → Settles (suc (length cs)) (result (parse parse_f64 (suc n) (c ∷ cs) p))
        from f e = as_settled (suc (length cs)) (parse parse_f64 (suc n) (c ∷ cs) p) f e

        seen :
            Operand n (parse parse_f64 n)
            → (k : Head) → head c ≡ k
            → Settles (suc (length cs)) (result (parse parse_f64 (suc n) (c ∷ cs) p))
        seen inner (sign op) at =
            from (run (parse parse_f64 n cs 7) (signed go op)) (ground (arith, at)) (
              signed-Settles go (length cs) (suc (length cs)) (settled inner) op
                (result (parse parse_f64 n cs 7)) (inner cs 7 clear.1 (omega (arith, h))))
        seen inner parenthesis at =
            from (run (parse parse_f64 n cs 0) (closed go)) (ground (arith, at)) (
              closed-Settles go (length cs) (suc (length cs)) (settled inner)
                (result (parse parse_f64 n cs 0)) (inner cs 0 clear.1 (omega (arith, h))))
        seen inner space at = absurd (head-no_space c clear.0 at)
        seen inner digit at =
            let (taken, left) = number_chars false cs in
            let fine = number_chars-left false cs clear.1 in
            from (numeral go (parse_f64 (c ∷ taken)) left) (ground (arith, at)) (
              numeral-Settles go (length cs) (suc (length cs)) (settled inner)
                (parse_f64 (c ∷ taken)) left fine.0 fine.1)
        seen inner other at = from (ret failed) (ground (arith, at)) tt
