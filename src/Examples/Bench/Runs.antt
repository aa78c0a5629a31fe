-- ===== src/Examples/Bench/Runs.antt =====
-- src/benches/calc.rs: the expressions that the benchmark makes up are read to their end.
use mathlib.Core.List.{append_assoc}
use mathlib.Core.Option.{bind as ◌>>=◌}
use reblessive.Base.{
  refl, ap, ◌∙◌, ℕ, zero, suc, ◌+◌, ◌%◌, ◌≤◌, ◌<◌, ◌≡◌, Option, some, List, [], ◌∷◌, ◌++◌, arith,
  length,
}
use reblessive.Stack.Eval.{eval as result}
use reblessive.Examples.Calculator.{BinaryOperator, mul, div, add, sub, Expression}
use reblessive.Examples.Parser.{Parsed, parsed}
use reblessive.Examples.Bench.{parse_spaced}
use reblessive.Examples.Bench.Generated.{
  next_rand, operator_text, generate_from, generate_expression,
}
use reblessive.Examples.Bench.Reading.{
  Items, op_text, items_text, IsNumeral, AllNumerals, Reads, parse_spaced-Reads,
}

operator_text-op_text :
    (n : ℕ) → n < 4 → (op : BinaryOperator) × (operator_text n ≡ some (op_text op ++ 32 ∷ []))
operator_text-op_text zero h = (add, refl)
operator_text-op_text (suc zero) h = (mul, refl)
operator_text-op_text (suc (suc zero)) h = (sub, refl)
operator_text-op_text (suc (suc (suc zero))) h = (div, refl)
operator_text-op_text (suc (suc (suc (suc n)))) h = absurd (omega (arith, h))

module _ {F : Type 0} (parse_f64 : List ℕ → Option F) (show : ℕ → List ℕ)
    (shows : (n : ℕ) → n < 1000 → IsNumeral parse_f64 (show n)) where
  -- What is made up is a number, and behind it so many operators with a number each.
  abbrev Generates : ℕ → Option (List ℕ) → Type 0
  Generates n o =
      (text : List ℕ) × (items : Items) × (o ≡ some (text ++ 32 ∷ items_text items))
      × IsNumeral parse_f64 text
      × AllNumerals parse_f64 items
      × (length items ≡ n)

  drawn-IsNumeral : (x : ℕ) → IsNumeral parse_f64 (show (x % 1000))
  drawn-IsNumeral x = shows (x % 1000) (omega arith)

  joined_text :
      (k : ℕ) (op : BinaryOperator) (o : Option (List ℕ))
      → o ≡ some (op_text op ++ 32 ∷ [])
      → (r : Option (List ℕ)) (text : List ℕ) → r ≡ some text
      → (do op' ← o; rest ← r; some ((show k ++ 32 ∷ []) ++ (op' ++ rest)))
        ≡ some (show k ++ 32 ∷ (op_text op ++ 32 ∷ text))
  unfolding ◌>>=◌
  joined_text k op o is_op r text at =
      rw (is_op, at)
        (ap some (
          append_assoc (show k) (32 ∷ []) ((op_text op ++ 32 ∷ []) ++ text)
          ∙ ap (λ t. show k ++ 32 ∷ t) (append_assoc (op_text op) (32 ∷ []) text)))

  generate_from-Generates : (n x : ℕ) → Generates n (generate_from show n x)
  unfolding generate_from
  generate_from-Generates zero x =
      (show (next_rand x % 1000), [], refl, drawn-IsNumeral (next_rand x), tt, refl)
  generate_from-Generates (suc n) x =
      let drawn = next_rand (next_rand x) in
      let (op, is_op) = operator_text-op_text (drawn % 4) (omega arith) in
      let (text, items, at, numeral_text, all, long) = generate_from-Generates n drawn in
      (
        show (next_rand x % 1000),
        (op, text) ∷ items,
        joined_text (next_rand x % 1000) op (operator_text (drawn % 4)) is_op
            (generate_from show n drawn) (text ++ 32 ∷ items_text items) at,
        drawn-IsNumeral (next_rand x),
        (numeral_text, all),
        ap suc long,
      )

  -- The result of a parser that no operator can end
  read_all :
      (items : Items) (r : Parsed F)
      → Reads parse_f64 0 items r
      → (e : Expression F) × (r ≡ parsed e [])
  read_all items r (e, [], at, short, all, ended) = (e, at)
  read_all items r (e, (op, text) ∷ left, at, short, all, ended) = absurd (ground (arith, ended))

  -- The random operator never is an unreachable one, and the parser reads the whole text that is
  -- made up, if it may call itself three times more than there are operators and if each number is
  -- printed as a text without sign and exponent that is read as a number.
  pub generate_expression-parsed :
      (len n : ℕ)
      → len + 3 ≤ n
      → (text : List ℕ) × (e : Expression F) × (generate_expression show len ≡ some text)
        × (result (parse_spaced parse_f64 n text 0) ≡ parsed e [])
  generate_expression-parsed len n enough =
      let (text, items, at, numeral_text, all, long) = generate_from-Generates len 26523964 in
      let (e, whole) =
        read_all items (result (parse_spaced parse_f64 n (text ++ 32 ∷ items_text items) 0)) (
          parse_spaced-Reads parse_f64 n [] text items 0 tt numeral_text all
            (omega (arith, enough, long))) in
      (text ++ 32 ∷ items_text items, e, at, whole)
