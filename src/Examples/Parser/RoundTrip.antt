-- ===== src/Examples/Parser/RoundTrip.antt =====
-- src/examples/calculator.rs: the parser against the printer, and on the stack.
use reblessive.Base.{refl, ℕ, zero, suc, ◌+◌, ◌-◌, ◌*◌, ◌≤◌, ◌<◌, ◌≡◌, Option, List, [], ◌∷◌, arith}
use reblessive.Stack.Eval.{polls}
use reblessive.Stack.Eval.{eval as result}
use reblessive.Examples.Calculator.{
  BinaryOperator, Expression, number, covered, binary, unary, nodes,
}
use reblessive.Examples.Parser.{left_power, right_power, parsed, parse}
use reblessive.Examples.Parser.Printer.{
  symbol, Ends, Ends-mono, print, Fits, level, level-Fits, level-seven, left_power_small, Fits-mono,
  next-symbol, starts_number-symbol,
}
use reblessive.Examples.Parser.Operands.{
  spine, spine-nodes, asks-nodes, Reads, Arrives, parse-number, parse-covered, parse-unary,
  parse-binary, Arrives-Reads,
}

module _ {F : Type 0} (parse_f64 : List ℕ → Option F) (show_f64 : F → List ℕ) where
  Ends-symbol :
      (p : ℕ) (op : BinaryOperator) (right : Expression F) (rest : List ℕ)
      → Fits parse_f64 show_f64 (right_power op) right
      → left_power op < p
      → Ends p (symbol op (print parse_f64 show_f64 right rest))
  Ends-symbol p op right rest f h = (
    ground (arith, next-symbol parse_f64 show_f64 op (right_power op) right rest f, h),
    starts_number-symbol op _,
  )

  Ends-closing : (p : ℕ) (rest : List ℕ) → Ends p (41 ∷ rest)
  Ends-closing p rest = (refl, refl)

  Reads-from :
      (e : Expression F) (n p : ℕ) (rest : List ℕ)
      → ((m : ℕ) → m + spine parse_f64 show_f64 e ≡ suc n → Arrives parse_f64 show_f64 n m p e rest)
      → Ends p rest
      → nodes e ≤ n
      → Reads parse_f64 show_f64 (suc n) p e rest
  Reads-from e n p rest arrives end deep =
      Arrives-Reads parse_f64 show_f64 n (n - spine parse_f64 show_f64 e) p e rest
        (arrives (suc (n - spine parse_f64 show_f64 e))
          (omega (arith, deep, spine-nodes parse_f64 show_f64 e)))
        end

  parse-Arrives :
      (e : Expression F) (n m p : ℕ) (rest : List ℕ)
      → Fits parse_f64 show_f64 p e
      → Ends (level parse_f64 show_f64 e) rest
      → nodes e ≤ n
      → m + spine parse_f64 show_f64 e ≡ suc n
      → Arrives parse_f64 show_f64 n m p e rest
  parse-Arrives (number x) n m p rest f end deep h =
      let same : m ≡ n = omega (arith, h) in
      rw same (parse-number parse_f64 show_f64 n p x rest f end)
  parse-Arrives (covered x) zero m p rest f end deep h = absurd (omega (arith, deep))
  parse-Arrives (covered x) (suc n) m p rest f end deep h =
      let same : m ≡ suc n = omega (arith, h) in
      let inner =
        Reads-from x n 0 (41 ∷ rest)
          (λ k e.
            parse-Arrives x n k 0 (41 ∷ rest) f (Ends-closing (level parse_f64 show_f64 x) rest)
              (omega (arith, deep)) e)
          (Ends-closing 0 rest) (omega (arith, deep)) in
      rw same (parse-covered parse_f64 show_f64 (suc n) p x rest inner)
  parse-Arrives (unary op x) zero m p rest f end deep h = absurd (omega (arith, deep))
  parse-Arrives (unary op x) (suc n) m p rest f end deep h =
      let same : m ≡ suc n = omega (arith, h) in
      let strong : 7 ≤ level parse_f64 show_f64 x =
        omega (arith, level-seven parse_f64 show_f64 x f) in
      let inner =
        Reads-from x n 7 rest
          (λ k e.
            parse-Arrives x n k 7 rest f (Ends-mono 7 _ rest strong end) (omega (arith, deep)) e)
          end (omega (arith, deep)) in
      rw same (parse-unary parse_f64 show_f64 (suc n) p op x rest inner)
  parse-Arrives (binary left op right) zero m p rest f end deep h = absurd (omega (arith, deep))
  parse-Arrives (binary left op right) (suc n) m p rest f end deep h =
      let small = left_power_small parse_f64 show_f64 op in
      let above : left_power op < level parse_f64 show_f64 left =
        level-Fits parse_f64 show_f64 (left_power op) left (omega (arith, small)) f.1 in
      let tighter : right_power op < level parse_f64 show_f64 right =
        level-Fits parse_f64 show_f64 (right_power op) right (omega (arith, small)) f.2 in
      let first : Arrives parse_f64 show_f64 (suc n) (suc m) p left
          (symbol op (print parse_f64 show_f64 right rest)) =
        parse-Arrives left (suc n) (suc m) p _
          (Fits-mono parse_f64 show_f64 p (left_power op) left f.0 f.1)
          (Ends-symbol _ op right rest f.2 above) (omega (arith, deep)) (omega (arith, h)) in
      let second =
        Reads-from right n (right_power op) rest
          (λ k e.
            parse-Arrives right n k (right_power op) rest f.2
              (Ends-mono _ _ rest (omega (arith, tighter)) end) (omega (arith, deep)) e)
          end (omega (arith, deep)) in
      parse-binary parse_f64 show_f64 (suc n) m p left right op rest f first second

  -- The recursive meaning of the parser on a printed expression, and the steps that it takes
  pub parse-print :
      (e : Expression F)
      → Fits parse_f64 show_f64 0 e
      → (n : ℕ) → nodes e ≤ n
      → (result (parse parse_f64 (suc n) (print parse_f64 show_f64 e []) 0) ≡ parsed e [])
        × (polls (parse parse_f64 (suc n) (print parse_f64 show_f64 e []) 0) < 2 * nodes e)
  unfolding result polls
  parse-print e f n deep =
      let all =
        Reads-from e n 0 [] (λ k h. parse-Arrives e n k 0 [] f (refl, refl) deep h) (refl, refl)
          deep in
      (all.same, omega (arith, all.cost, asks-nodes parse_f64 show_f64 e))
