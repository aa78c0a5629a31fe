-- ===== src/Examples/Bench.antt =====
-- src/benches/calc.rs: the parser of the benchmark, which differs from the one of
-- src/examples/calculator.rs in what it does with white space and with the exponents of numbers.
pub mod Numbers
pub mod Agrees
pub mod Generated
pub mod Reading
pub mod Runs
use reblessive.Base.{
  refl, ◌∙◌, ap, ℕ, zero, suc, ◌+◌, ◌≡◌, Bool, true, false, ◌||◌, Option, none, some, List, [], ◌∷◌,
  ◌++◌, ltb, arith, if◌then◌else◌, length,
}
use reblessive.Stack.Defs.{Fut, ret, run}
use reblessive.Examples.Calculator.{Expression, binary}
use reblessive.Examples.Parser.{
  is_space, is_exponent, is_number_char, Head, sign, parenthesis, digit, other, head, Next,
  operator, stop, next, left_power, right_power, skip, behind, Parsed, parsed, failed, endless,
  signed, closed, numeral,
}
use reblessive.Examples.Parser.{Head, Next}

-- `if n.map(|c| c.to_ascii_lowercase()) == Some(b'e')`: the next byte is added to the number, but not
-- taken. The byte that is looked at for a sign is the same one, so there never is a sign.
abbrev pub peeked : List ℕ → List ℕ → List ℕ
peeked [] taken = taken
peeked (c ∷ cs) taken = if is_exponent c then c ∷ taken else taken

-- The loop that collects the characters of a number behind the first one
abbrev pub collect : List ℕ → List ℕ × List ℕ
collect [] = ([], [])
collect (c ∷ cs) =
    let (taken, left) = collect cs in
    if is_number_char c then (c ∷ peeked cs taken, left) else ([], c ∷ cs)

module _ {F : Type 0} where
  -- The loop over the operators, which takes white space away
  unfoldable pub operators_spaced :
      ℕ → (List ℕ → ℕ → Fut (Parsed F)) → ℕ → Expression F → List ℕ → Fut (Parsed F)
  operators_spaced zero operand binding_power lhs bytes = ret endless
  operators_spaced (suc n) operand binding_power lhs bytes = elim (next bytes) [
    | stop ↦ ret (parsed lhs bytes)
    | Next.space ↦ operators_spaced n operand binding_power lhs (skip bytes)
    | operator op ↦ elim (ltb (left_power op) binding_power) [
      | true ↦ ret (parsed lhs bytes)
      | false ↦ run (operand (behind op bytes) (right_power op)) (λ r. elim r [
        | parsed rhs left ↦ operators_spaced n operand binding_power (binary lhs op rhs) left
        | failed ↦ ret failed
        | endless ↦ ret endless
      ])
    ]
  ]

module _ {F : Type 0} (parse_f64 : List ℕ → Option F) where
  -- The loop in front of the operand; `operand` is `parse`, and `go` what comes behind.
  unfoldable pub operand_spaced :
      (List ℕ → ℕ → Fut (Parsed F))
      → (Expression F → List ℕ → Fut (Parsed F))
      → List ℕ
      → Fut (Parsed F)
  operand_spaced operand go [] = ret failed
  operand_spaced operand go (c ∷ cs) = elim (head c) [
    | sign op ↦ run (operand cs 7) (signed go op)
    | parenthesis ↦ run (operand cs 0) (closed go)
    | Head.space ↦ operand_spaced operand go cs
    | digit ↦ let (taken, left) = collect cs in numeral go (parse_f64 (c ∷ taken)) left
    | other ↦ ret failed
  ]

  -- `parse`, for calls nested at most so deep, each with at most so many rounds of its second loop
  unfoldable pub parse_spaced : ℕ → List ℕ → ℕ → Fut (Parsed F)
  unfolding operand_spaced operators_spaced
  parse_spaced zero bytes binding_power = ret endless
  parse_spaced (suc n) bytes binding_power =
      operand_spaced (parse_spaced n) (operators_spaced n (parse_spaced n) binding_power) bytes
