-- ===== src/Examples/Bench/Reading.antt =====
-- src/benches/calc.rs: the parser reads the expressions that the benchmark makes up.
use reblessive.Base.{
  refl, ap, ◌∙◌, ℕ, zero, suc, ◌+◌, ◌≤◌, ◌<◌, ◌≡◌, false, true, Bool-cases, inl, inr, Option, some,
  List, [], ◌∷◌, ◌++◌, arith, ltb, length,
}
use reblessive.Stack.Defs.{Fut, ret, run}
use reblessive.Stack.Eval.{eval as result}
use reblessive.Examples.Calculator.{
  BinaryOperator, mul, div, add, sub, pow, Expression, number, binary,
}
use reblessive.Examples.Parser.{
  digit, head, operator, next, left_power, right_power, behind, Parsed, parsed, joined,
}
use reblessive.Examples.Bench.{collect, operators_spaced, operand_spaced, parse_spaced}
use reblessive.Examples.Bench.Numbers.{AllSpace, AllPlain, peeked-plain, parse_spaced-space}

-- Operators, each with the text of the number behind it
abbrev pub Items : Type 0
Items = List (BinaryOperator × List ℕ)

abbrev pub op_text : BinaryOperator → List ℕ
op_text pow = 42 ∷ 42 ∷ []
op_text mul = 42 ∷ []
op_text div = 47 ∷ []
op_text add = 43 ∷ []
op_text sub = 45 ∷ []

-- A space stands behind each operator and each number.
abbrev pub items_text : Items → List ℕ
items_text [] = []
items_text ((op, text) ∷ items) = op_text op ++ (32 ∷ (text ++ (32 ∷ items_text items)))

next-op_text : (op : BinaryOperator) (t : List ℕ) → next (op_text op ++ 32 ∷ t) ≡ operator op
next-op_text pow t = refl
next-op_text mul t = refl
next-op_text div t = refl
next-op_text add t = refl
next-op_text sub t = refl

behind-op_text : (op : BinaryOperator) (t : List ℕ) → behind op (op_text op ++ 32 ∷ t) ≡ 32 ∷ t
behind-op_text pow t = refl
behind-op_text mul t = refl
behind-op_text div t = refl
behind-op_text add t = refl
behind-op_text sub t = refl

-- A number without an exponent is taken up to the space behind it.
collect-plain : (cs t : List ℕ) → AllPlain cs → collect (cs ++ 32 ∷ t) ≡ (cs, 32 ∷ t)
collect-plain [] t plain = refl
collect-plain (c ∷ cs) t plain =
    let same = collect-plain cs t plain.2 in
    let taken = plain.0 in
    let peek = peeked-plain cs 32 t cs plain.2 refl in
    rw (taken, same) (ap (λ x. (c ∷ x, 32 ∷ t)) peek)

module _ {F : Type 0} (parse_f64 : List ℕ → Option F) where
  -- The text of a number without an exponent
  abbrev pub IsNumeral : List ℕ → Type 0
  IsNumeral [] = ⊥
  IsNumeral (c ∷ cs) = (head c ≡ digit) × AllPlain cs × ((x : F) × (parse_f64 (c ∷ cs) ≡ some x))

  abbrev pub AllNumerals : Items → Type 0
  AllNumerals [] = Unit
  AllNumerals ((op, text) ∷ items) = IsNumeral text × AllNumerals items

  -- The first operator that is left is too weak for the caller.
  abbrev Ended : ℕ → Items → Type 0
  Ended p [] = Unit
  Ended p ((op, text) ∷ items) = ltb (left_power op) p ≡ true

  -- An expression was read, and no more than the items are left.
  abbrev pub Reads : ℕ → Items → Parsed F → Type 0
  Reads p items r =
      (e : Expression F) × (left : Items) × (r ≡ parsed e (items_text left))
      × (length left ≤ length items)
      × AllNumerals left
      × Ended p left

  abbrev Operand : ℕ → (List ℕ → ℕ → Fut (Parsed F)) → Type 0
  Operand n f =
      (text : List ℕ) (items : Items) (q : ℕ)
      → IsNumeral text
      → AllNumerals items
      → length items + 3 ≤ n
      → Reads q items (result (f (32 ∷ text ++ 32 ∷ items_text items) q))

  -- Behind the right operand
  joined-Reads :
      (go : Expression F → List ℕ → Fut (Parsed F)) (p k : ℕ) (items : Items) (lhs : Expression F)
      (op : BinaryOperator) (r : Parsed F)
      → Reads k items r
      → ((e : Expression F) (left : Items)
          → AllNumerals left
          → length left ≤ length items
          → Reads p left (result (go e (items_text left))))
      → Reads p items (result (joined go lhs op r))
  unfolding result
  joined-Reads go p k items lhs op r (e, left, at, short, all, ended) h =
      let (e', left', at', short', all', ended') = h (binary lhs op e) left all short in
      (e', left', rw at at', omega arith, all', ended')

  operators_spaced-Reads :
      (m n : ℕ) (f : List ℕ → ℕ → Fut (Parsed F))
      → Operand n f
      → (p : ℕ) (lhs : Expression F) (items : Items) → AllNumerals items
      → length items < m
      → length items + 2 ≤ n
      → Reads p items (result (operators_spaced m f p lhs (items_text items)))
  unfolding operators_spaced result
  operators_spaced-Reads zero n f inner p lhs items all h h' = absurd (omega (arith, h))
  operators_spaced-Reads (suc m) n f inner p lhs [] all h h' = (lhs, [], refl, omega arith, tt, tt)
  operators_spaced-Reads (suc m) n f inner p lhs ((op, text) ∷ items) all h h' =
      elim (Bool-cases (ltb (left_power op) p)) [
        | inl weak ↦ (lhs, (op, text) ∷ items, ap result (weakly weak), omega arith, all, weak)
        | inr strong ↦
            let (e, left, at, short, fine, ended) =
              joined-Reads (operators_spaced m f p) p (right_power op) items lhs op
                (result (f (32 ∷ text ++ 32 ∷ items_text items) (right_power op)))
                (inner text items (right_power op) all.0 all.1 (omega (arith, h')))
                (λ e left fine short.
                  operators_spaced-Reads m n f inner p e left fine (omega (arith, short, h))
                    (omega (arith, short, h'))) in
            (e, left, ap result (strongly strong) ∙ at, omega (arith, short), fine, ended)
      ]
    where
      bytes : List ℕ
      bytes = items_text ((op, text) ∷ items)

      weakly :
          ltb (left_power op) p ≡ true
          → operators_spaced (suc m) f p lhs bytes ≡ ret (parsed lhs bytes)
      weakly weak =
          let at = next-op_text op (text ++ 32 ∷ items_text items) in ground (arith, at, weak)

      strongly :
          ltb (left_power op) p ≡ false
          → operators_spaced (suc m) f p lhs bytes
            ≡ run
                (f (32 ∷ text ++ 32 ∷ items_text items) (right_power op))
                (joined (operators_spaced m f p) lhs op)
      strongly strong =
          let at = next-op_text op (text ++ 32 ∷ items_text items) in
          let rest = behind-op_text op (text ++ 32 ∷ items_text items) in
          ground (arith, at, strong, rest)

  -- In front of the number there may be a space, as behind an operator.
  pub parse_spaced-Reads :
      (n : ℕ) (ws text : List ℕ) (items : Items) (p : ℕ)
      → AllSpace ws
      → IsNumeral text
      → AllNumerals items
      → length items + 3 ≤ n
      → Reads p items (result (parse_spaced parse_f64 n (ws ++ (text ++ 32 ∷ items_text items)) p))
  unfolding parse_spaced operand_spaced operators_spaced result
  parse_spaced-Reads zero ws text items p white numeral_text all enough =
      absurd (omega (arith, enough))
  parse_spaced-Reads (suc n) ws [] items p white numeral_text all enough = absurd numeral_text
  parse_spaced-Reads (suc zero) ws (c ∷ cs) items p white numeral_text all enough =
      absurd (omega (arith, enough))
  parse_spaced-Reads (suc (suc n)) ws (c ∷ cs) items p white (front, plain, (x, at)) all enough =
      let (e, left, read, short, fine, ended) =
        operators_spaced-Reads n (suc n) (parse_spaced parse_f64 (suc n))
          (λ text items q numeral_text all enough.
            parse_spaced-Reads (suc n) (32 ∷ []) text items q (refl, tt) numeral_text all enough)
          p (number x) items all (omega (arith, enough)) (omega (arith, enough)) in
      (e, left, ap result starts ∙ read, short, fine, ended)
    where
      starts :
          parse_spaced parse_f64 (suc (suc n)) (ws ++ (c ∷ cs ++ 32 ∷ items_text items)) p
          ≡ operators_spaced n (parse_spaced parse_f64 (suc n)) p (number x) (items_text items)
      starts =
          let taken = collect-plain cs (items_text items) plain in
          let spaces =
            parse_spaced-space parse_f64 (suc (suc n)) p ws (c ∷ cs ++ 32 ∷ items_text items)
              white in
          let number_read : parse_spaced parse_f64 (suc (suc n)) (c ∷ cs ++ 32 ∷ items_text items) p
              ≡ operators_spaced n (parse_spaced parse_f64 (suc n)) p (number x)
                  (items_text items) =
            ground (arith, front, taken, at) in
          spaces ∙ number_read
