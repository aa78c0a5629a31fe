-- ===== src/Examples/Bench/Agrees.antt =====
-- src/benches/calc.rs and src/examples/calculator.rs: the two parsers on the same text.
use mathlib.Core.Path.{subst, sym}
use reblessive.Base.{
  refl, ap, ◌∙◌, ℕ, zero, suc, ◌≡◌, false, Bool-cases, inl, inr, Option, none, some, List, [], ◌∷◌,
  arith, ◌==◌, ltb, length, ◌<◌,
}
use reblessive.Stack.Defs.{Fut, ret, run}
use reblessive.Stack.Eval.{eval as result}
use reblessive.Examples.Calculator.{
  UnaryOperator, BinaryOperator, mul, div, add, sub, pow, Expression,
}
use reblessive.Examples.Parser.{
  is_space, is_exponent, is_number_char, number_chars, Head, sign, parenthesis, digit, other, head,
  Next, operator, stop, next, left_power, right_power, skip, behind, Parsed, parsed, failed,
  endless, operators, joined, signed, closed, numeral, parse,
}
use reblessive.Examples.Parser.{Head, Next}
use reblessive.Examples.Parser.Spaces.{HasNoSpace, next-no_space, head-no_space}
use reblessive.Examples.Parser.Ending.{Settles, parse-Settles}
use reblessive.Examples.Bench.{collect, peeked, operators_spaced, operand_spaced, parse_spaced}

-- A text without white space and without exponents
abbrev pub IsOrdinary : List ℕ → Type 0
IsOrdinary [] = Unit
IsOrdinary (c ∷ cs) = (is_space c ≡ false) × (is_exponent c ≡ false) × IsOrdinary cs

IsOrdinary-HasNoSpace : (text : List ℕ) → IsOrdinary text → HasNoSpace text
IsOrdinary-HasNoSpace [] clear = tt
IsOrdinary-HasNoSpace (c ∷ cs) clear = (clear.0, IsOrdinary-HasNoSpace cs clear.2)

skip-IsOrdinary : (text : List ℕ) → IsOrdinary text → IsOrdinary (skip text)
skip-IsOrdinary [] clear = tt
skip-IsOrdinary (c ∷ cs) clear = clear.2

behind-IsOrdinary :
    (op : BinaryOperator) (text : List ℕ) → IsOrdinary text → IsOrdinary (behind op text)
behind-IsOrdinary pow text clear = skip-IsOrdinary (skip text) (skip-IsOrdinary text clear)
behind-IsOrdinary mul text clear = skip-IsOrdinary text clear
behind-IsOrdinary div text clear = skip-IsOrdinary text clear
behind-IsOrdinary add text clear = skip-IsOrdinary text clear
behind-IsOrdinary sub text clear = skip-IsOrdinary text clear

peeked-ordinary : (cs taken : List ℕ) → IsOrdinary cs → peeked cs taken ≡ taken
peeked-ordinary [] taken clear = refl
peeked-ordinary (c ∷ cs) taken clear = let plain = clear.1 in ground (arith, plain)

-- Without exponents both parsers take the same characters for a number.
collect-number_chars :
    (cs : List ℕ)
    → IsOrdinary cs
    → (collect cs ≡ number_chars false cs) × IsOrdinary (number_chars false cs).1
collect-number_chars [] clear = (refl, tt)
collect-number_chars (c ∷ cs) clear =
    let (same, fine) = collect-number_chars cs clear.2 in
    let plain = clear.1 in
    let peek = peeked-ordinary cs (collect cs).0 clear.2 in
    elim (Bool-cases (is_number_char c)) [
      | inl taken ↦ rw (taken, plain, peek, same) (refl, fine)
      | inr left ↦ rw left (refl, clear)
    ]

module _ {F : Type 0} where
  -- What is left of the text is ordinary too.
  abbrev Leaves : Parsed F → Type 0
  Leaves (parsed e left) = IsOrdinary left
  Leaves failed = Unit
  Leaves endless = Unit

  abbrev Same : Fut (Parsed F) → Fut (Parsed F) → Type 0
  Same f g = (result f ≡ result g) × Leaves (result g)

  moved : (f f' g g' : Fut (Parsed F)) → f ≡ f' → g ≡ g' → Same f' g' → Same f g
  moved f f' g g' e e' h = subst (λ f. Same f g) (sym e) (subst (λ g. Same f' g) (sym e') h)

  -- What comes behind an operand, if the rest of the parsers does the same
  module _ (go go' : Expression F → List ℕ → Fut (Parsed F))
      (same : (e : Expression F) (left : List ℕ)
        → IsOrdinary left
        → Same (go e left) (go' e left)) where
    joined-Same :
        (lhs : Expression F) (op : BinaryOperator) (r : Parsed F)
        → Leaves r
        → Same (joined go lhs op r) (joined go' lhs op r)
    unfolding result
    joined-Same lhs op (parsed rhs left) h = same _ left h
    joined-Same lhs op failed h = (refl, tt)
    joined-Same lhs op endless h = (refl, tt)

    signed-Same :
        (op : UnaryOperator) (r : Parsed F) → Leaves r → Same (signed go op r) (signed go' op r)
    unfolding result
    signed-Same op (parsed e left) h = same _ left h
    signed-Same op failed h = (refl, tt)
    signed-Same op endless h = (refl, tt)

    closed-Same : (r : Parsed F) → Leaves r → Same (closed go r) (closed go' r)
    unfolding result
    closed-Same (parsed e []) h = (refl, tt)
    closed-Same (parsed e (c ∷ left)) h = elim (Bool-cases (c == 41)) [
      | inl at ↦ rw at (same _ left h.2)
      | inr at ↦ rw at (refl, tt)
    ]
    closed-Same failed h = (refl, tt)
    closed-Same endless h = (refl, tt)

    numeral-Same :
        (o : Option F) (left : List ℕ)
        → IsOrdinary left
        → Same (numeral go o left) (numeral go' o left)
    unfolding result
    numeral-Same none left h = (refl, tt)
    numeral-Same (some x) left h = same _ left h

  -- Two functions that start with calls of the same result
  run-Same :
      (f f' : Fut (Parsed F)) (k k' : Parsed F → Fut (Parsed F))
      → Same f f'
      → ((r : Parsed F) → Leaves r → Same (k r) (k' r))
      → Same (run f k) (run f' k')
  unfolding result
  run-Same f f' k k' (e, leaves) h =
      let (e', fine) = h (result f') leaves in (ap (λ r. result (k r)) e ∙ e', fine)

  abbrev Agree : (List ℕ → ℕ → Fut (Parsed F)) → (List ℕ → ℕ → Fut (Parsed F)) → Type 0
  Agree f g = (text : List ℕ) (p : ℕ) → IsOrdinary text → Same (f text p) (g text p)

  operators-Same :
      (m : ℕ) (f g : List ℕ → ℕ → Fut (Parsed F))
      → Agree f g
      → (p : ℕ) (lhs : Expression F) (text : List ℕ) → IsOrdinary text
      → Same (operators_spaced m f p lhs text) (operators m g p lhs text)
  unfolding operators operators_spaced result
  operators-Same zero f g inner p lhs text clear = (refl, tt)
  operators-Same (suc m) f g inner p lhs text clear =
      seen (operators-Same m f g inner p) (next text) refl
    where
      both :
          (h h' : Fut (Parsed F))
          → operators_spaced (suc m) f p lhs text ≡ h
          → operators (suc m) g p lhs text ≡ h'
          → Same h h'
          → Same (operators_spaced (suc m) f p lhs text) (operators (suc m) g p lhs text)
      both h h' e e' =
          moved (operators_spaced (suc m) f p lhs text) h (operators (suc m) g p lhs text) h' e e'

      seen :
          ((e : Expression F) (left : List ℕ)
            → IsOrdinary left
            → Same (operators_spaced m f p e left) (operators m g p e left))
          → (t : Next) → next text ≡ t
          → Same (operators_spaced (suc m) f p lhs text) (operators (suc m) g p lhs text)
      seen go stop at =
          both (ret (parsed lhs text)) (ret (parsed lhs text)) (ground (arith, at))
            (ground (arith, at)) (refl, clear)
      seen go Next.space at = absurd (next-no_space text (IsOrdinary-HasNoSpace text clear) at)
      seen go (operator op) at = elim (Bool-cases (ltb (left_power op) p)) [
        | inl weak ↦
            both (ret (parsed lhs text)) (ret (parsed lhs text)) (ground (arith, at, weak))
              (ground (arith, at, weak)) (refl, clear)
        | inr strong ↦
            both
              (run (f (behind op text) (right_power op)) (joined (operators_spaced m f p) lhs op))
              (run (g (behind op text) (right_power op)) (joined (operators m g p) lhs op))
              (ground (arith, at, strong)) (ground (arith, at, strong))
              (run-Same (f (behind op text) (right_power op)) (g (behind op text) (right_power op))
                (joined (operators_spaced m f p) lhs op) (joined (operators m g p) lhs op)
                (inner (behind op text) (right_power op) (behind-IsOrdinary op text clear))
                (joined-Same (operators_spaced m f p) (operators m g p) go lhs op))
      ]

  module _ (parse_f64 : List ℕ → Option F) where
    -- With any fuel the two parsers do the same on an ordinary text.
    parse_spaced-Same :
        (n : ℕ) (text : List ℕ) (p : ℕ)
        → IsOrdinary text
        → Same (parse_spaced parse_f64 n text p) (parse parse_f64 n text p)
    unfolding parse parse_spaced operand_spaced result
    parse_spaced-Same zero text p clear = (refl, tt)
    parse_spaced-Same (suc n) [] p clear = (refl, tt)
    parse_spaced-Same (suc n) (c ∷ cs) p clear = seen (parse_spaced-Same n) (head c) refl
      where
        go : Expression F → List ℕ → Fut (Parsed F)
        go = operators_spaced n (parse_spaced parse_f64 n) p

        go' : Expression F → List ℕ → Fut (Parsed F)
        go' = operators n (parse parse_f64 n) p

        from :
            (h h' : Fut (Parsed F))
            → parse_spaced parse_f64 (suc n) (c ∷ cs) p ≡ h
            → parse parse_f64 (suc n) (c ∷ cs) p ≡ h'
            → Same h h'
            → Same (parse_spaced parse_f64 (suc n) (c ∷ cs) p) (parse parse_f64 (suc n) (c ∷ cs) p)
        from h h' e e' =
            moved (parse_spaced parse_f64 (suc n) (c ∷ cs) p) h (parse parse_f64 (suc n) (c ∷ cs) p)
              h' e e'

        called :
            Agree (parse_spaced parse_f64 n) (parse parse_f64 n)
            → (q : ℕ) (k k' : Parsed F → Fut (Parsed F))
            → ((r : Parsed F) → Leaves r → Same (k r) (k' r))
            → Same (run (parse_spaced parse_f64 n cs q) k) (run (parse parse_f64 n cs q) k')
        called inner q k k' =
            run-Same (parse_spaced parse_f64 n cs q) (parse parse_f64 n cs q) k k'
              (inner cs q clear.2)

        seen :
            Agree (parse_spaced parse_f64 n) (parse parse_f64 n)
            → (k : Head) → head c ≡ k
            → Same (parse_spaced parse_f64 (suc n) (c ∷ cs) p) (parse parse_f64 (suc n) (c ∷ cs) p)
        seen inner (sign op) at =
            from (run (parse_spaced parse_f64 n cs 7) (signed go op))
              (run (parse parse_f64 n cs 7) (signed go' op)) (ground (arith, at))
              (ground (arith, at))
              (called inner 7 (signed go op) (signed go' op) (
                signed-Same go go'
                  (operators-Same n (parse_spaced parse_f64 n) (parse parse_f64 n) inner p) op))
        seen inner parenthesis at =
            from (run (parse_spaced parse_f64 n cs 0) (closed go))
              (run (parse parse_f64 n cs 0) (closed go')) (ground (arith, at)) (ground (arith, at))
              (called inner 0 (closed go) (closed go') (
                closed-Same go go'
                  (operators-Same n (parse_spaced parse_f64 n) (parse parse_f64 n) inner p)))
        seen inner Head.space at = absurd (head-no_space c clear.0 at)
        seen inner digit at =
            let (taken, left) = number_chars false cs in
            let (same, fine) = collect-number_chars cs clear.2 in
            from (numeral go (parse_f64 (c ∷ taken)) left)
              (numeral go' (parse_f64 (c ∷ taken)) left) (ground (arith, at, same))
              (ground (arith, at))
              (numeral-Same go go'
                (operators-Same n (parse_spaced parse_f64 n) (parse parse_f64 n) inner p)
                (parse_f64 (c ∷ taken)) left fine)
        seen inner other at =
            from (ret failed) (ret failed) (ground (arith, at)) (ground (arith, at)) (refl, tt)

    -- On a text without white space and without exponents, the parser of the benchmark ends with the
    -- result of the one of the example, if both may call themselves once more than the text has
    -- bytes: with an expression and what is left of the text, or with an error.
    pub parse_spaced-parse :
        (n : ℕ) (text : List ℕ) (p : ℕ)
        → IsOrdinary text
        → length text < n
        → (result (parse_spaced parse_f64 n text p) ≡ result (parse parse_f64 n text p))
          × Settles (length text) (result (parse_spaced parse_f64 n text p))
    parse_spaced-parse n text p clear enough =
        let same = (parse_spaced-Same n text p clear).0 in
        (same, rw same (parse-Settles parse_f64 n text p (IsOrdinary-HasNoSpace text clear) enough))
