-- ===== src/Examples/Parser/Operands.antt =====
-- src/examples/calculator.rs: the parser at an operand, for each shape of it.
use mathlib.Core.Path.{subst, sym}
use reblessive.Base.{
  refl, ◌∙◌, ℕ, suc, ◌+◌, ◌*◌, ◌≤◌, ◌<◌, ◌≡◌, true, Option, some, List, [], ◌∷◌, ◌++◌, arith,
}
use reblessive.Stack.Defs.{Fut, ret, run}
use reblessive.Stack.Steps.{Steps, Steps-refl, Steps-trans, Steps-run, recount}
use reblessive.Examples.Calculator.{
  UnaryOperator, BinaryOperator, Expression, number, covered, binary, unary, nodes, pos, neg,
}
use reblessive.Examples.Parser.{
  Next, operator, space, stop, next, left_power, right_power, behind, Parsed, parsed, operators,
  joined, signed, closed, parse,
}
use reblessive.Examples.Parser.Printer.{
  symbol, Ends, number_chars-plain, head-plain, IsNumeral, print, Fits, next-symbol, behind-symbol,
  ends,
}

module _ {F : Type 0} (parse_f64 : List ℕ → Option F) (show_f64 : F → List ℕ) where
  -- The rounds of the outermost loop that an expression takes, and one for its first operand
  abbrev pub spine : Expression F → ℕ
  spine (number x) = 1
  spine (covered x) = 1
  spine (binary left op right) = suc (spine left)
  spine (unary op x) = 1

  pub spine-nodes : (e : Expression F) → (spine e ≤ nodes e) × (0 < spine e)
  spine-nodes (number x) = (omega arith, omega arith)
  spine-nodes (covered x) = (omega arith, omega arith)
  spine-nodes (binary left op right) = (omega (arith, spine-nodes left), omega arith)
  spine-nodes (unary op x) = (omega arith, omega arith)

  -- The calls that the parser makes for an expression
  abbrev pub asks : Expression F → ℕ
  asks (number x) = 0
  asks (covered x) = suc (asks x)
  asks (binary left op right) = asks left + suc (asks right)
  asks (unary op x) = suc (asks x)

  pub asks-nodes : (e : Expression F) → asks e < nodes e
  asks-nodes (number x) = omega arith
  asks-nodes (covered x) = omega (arith, asks-nodes x)
  asks-nodes (binary left op right) = omega (arith, asks-nodes left, asks-nodes right)
  asks-nodes (unary op x) = omega (arith, asks-nodes x)

  module _ (operand : List ℕ → ℕ → Fut (Parsed F)) where
    operators-stop :
        (m p : ℕ) (lhs : Expression F) (rest : List ℕ)
        → Ends p rest
        → operators (suc m) operand p lhs rest ≡ ret (parsed lhs rest)
    unfolding operators
    operators-stop m p lhs rest e = ends-at (next rest) refl e.0
      where
        ends-at :
            (t : Next)
            → next rest ≡ t
            → ends p t ≡ true
            → operators (suc m) operand p lhs rest ≡ ret (parsed lhs rest)
        ends-at (operator op) at h = ground (arith, at, h)
        ends-at space at h = absurd (ground (arith, h))
        ends-at stop at h = ground (arith, at)

    operators-run :
        (m p : ℕ) (lhs : Expression F) (op : BinaryOperator) (text : List ℕ)
        → next text ≡ operator op
        → p ≤ left_power op
        → operators (suc m) operand p lhs text
          ≡ run (operand (behind op text) (right_power op)) (joined (operators m operand p) lhs op)
    unfolding operators
    operators-run m p lhs op text at h = ground (arith, at, h)

    operators-step :
        (k m p : ℕ) (lhs rhs : Expression F) (op : BinaryOperator) (text left : List ℕ)
        → next text ≡ operator op
        → p ≤ left_power op
        → Steps k (operand (behind op text) (right_power op)) (ret (parsed rhs left))
        → Steps
            (k + 2)
            (operators (suc m) operand p lhs text)
            (operators m operand p (binary lhs op rhs) left)
    operators-step k m p lhs rhs op text left at h e =
        recount (0 + (k + 2)) (k + 2) _ _ (omega arith) (
          Steps-trans 0 (k + 2) _ _ _ (Steps-refl _ _ (operators-run m p lhs op text at h)) (
            Steps-run k (operand (behind op text) (right_power op)) (parsed rhs left)
              (joined (operators m operand p) lhs op) e))

  -- An operand in front of a text that ends it
  abbrev pub Reads : ℕ → ℕ → Expression F → List ℕ → Type 0
  Reads n p e rest =
      Steps (2 * asks e) (parse parse_f64 n (print parse_f64 show_f64 e rest) p)
        (ret (parsed e rest))

  -- The parser comes to the loop over the operators with the expression as its operand.
  abbrev pub Arrives : ℕ → ℕ → ℕ → Expression F → List ℕ → Type 0
  Arrives n m p e rest =
      Steps (2 * asks e) (parse parse_f64 (suc n) (print parse_f64 show_f64 e rest) p)
        (operators m (parse parse_f64 n) p e rest)

  pub parse-number :
      (n p : ℕ) (x : F) (rest : List ℕ)
      → Fits parse_f64 show_f64 p (number x)
      → Ends 7 rest
      → Arrives n n p (number x) rest
  unfolding parse
  parse-number n p x rest f e = Steps-refl _ _ (text (show_f64 x) f.0 f.1)
    where
      text :
          (cs : List ℕ)
          → IsNumeral cs
          → parse_f64 cs ≡ some x
          → parse parse_f64 (suc n) (cs ++ rest) p
            ≡ operators n (parse parse_f64 n) p (number x) rest
      text [] h reads = absurd h
      text (c ∷ cs) h reads =
          ground (arith, head-plain c h.0.0, number_chars-plain cs rest h.1 e.1, reads)

  pub parse-covered :
      (n p : ℕ) (x : Expression F) (rest : List ℕ)
      → Reads n 0 x (41 ∷ rest)
      → Arrives n n p (covered x) rest
  unfolding parse
  parse-covered n p x rest r = recount (2 * asks x + 2) (2 * suc (asks x)) _ _ (omega arith) (
      Steps-run (2 * asks x) _ (parsed x (41 ∷ rest)) (closed (operators n (parse parse_f64 n) p))
        r)

  pub parse-unary :
      (n p : ℕ) (op : UnaryOperator) (x : Expression F) (rest : List ℕ)
      → Reads n 7 x rest
      → Arrives n n p (unary op x) rest
  unfolding parse
  parse-unary n p pos x rest r =
      recount (2 * asks x + 2) (2 * suc (asks x)) _ _ (omega arith) (
        Steps-run (2 * asks x) _ (parsed x rest) (signed (operators n (parse parse_f64 n) p) pos) r)
  parse-unary n p neg x rest r =
      recount (2 * asks x + 2) (2 * suc (asks x)) _ _ (omega arith) (
        Steps-run (2 * asks x) _ (parsed x rest) (signed (operators n (parse parse_f64 n) p) neg) r)

  pub parse-binary :
      (n m p : ℕ) (left right : Expression F) (op : BinaryOperator) (rest : List ℕ)
      → Fits parse_f64 show_f64 p (binary left op right)
      → Arrives n (suc m) p left (symbol op (print parse_f64 show_f64 right rest))
      → Reads n (right_power op) right rest
      → Arrives n m p (binary left op right) rest
  parse-binary n m p left right op rest f a r =
      let text : List ℕ = symbol op (print parse_f64 show_f64 right rest) in
      let taken =
        subst
          (λ bytes.
            Steps (2 * asks right) (parse parse_f64 n bytes (right_power op))
              (ret (parsed right rest)))
          (sym (behind-symbol op (print parse_f64 show_f64 right rest))) r in
      let later =
        operators-step (parse parse_f64 n) (2 * asks right) m p left right op text rest
          (next-symbol parse_f64 show_f64 op (right_power op) right rest f.2) f.0 taken in
      let all = Steps-trans (2 * asks left) (2 * asks right + 2) _ _ _ a later in
      record { same = all.same; cost = omega (arith, all.cost) }

  pub Arrives-Reads :
      (n m p : ℕ) (e : Expression F) (rest : List ℕ)
      → Arrives n (suc m) p e rest
      → Ends p rest
      → Reads (suc n) p e rest
  Arrives-Reads n m p e rest a end =
      let last = Steps-refl _ _ (operators-stop (parse parse_f64 n) m p e rest end) in
      record { same = a.same ∙ last.same; cost = omega (arith, a.cost, last.cost) }
