-- ===== src/Examples/Bench/Numbers.antt =====
-- src/benches/calc.rs: what the parser makes of white space, and of numbers with an exponent.
use reblessive.Base.{
  refl, ◌∙◌, ap, ℕ, zero, suc, ◌+◌, ◌≡◌, true, false, Option, none, List, [], ◌∷◌, ◌++◌, arith,
  length, sym,
}
use mathlib.Core.List.{append_assoc}
use reblessive.Stack.Defs.{Fut, ret}
use reblessive.Examples.Calculator.{Expression}
use reblessive.Examples.Parser.{
  is_space, is_exponent, is_number_char, Head, digit, head, Next, next, Parsed, failed,
}
use reblessive.Examples.Bench.{collect, peeked, operators_spaced, operand_spaced, parse_spaced}

-- White space
abbrev pub AllSpace : List ℕ → Type 0
AllSpace [] = Unit
AllSpace (c ∷ cs) = (is_space c ≡ true) × AllSpace cs

-- Characters of a number with no exponent among them
abbrev pub AllPlain : List ℕ → Type 0
AllPlain [] = Unit
AllPlain (c ∷ cs) = (is_number_char c ≡ true) × (is_exponent c ≡ false) × AllPlain cs

head-space : (c : ℕ) → is_space c ≡ true → head c ≡ Head.space
head-space c white = ground (arith, white)

next-space : (c : ℕ) (cs : List ℕ) → is_space c ≡ true → next (c ∷ cs) ≡ Next.space
next-space c cs white = ground (arith, white)

module _ {F : Type 0} where
  operand_spaced-space :
      (parse_f64 : List ℕ → Option F) (operand : List ℕ → ℕ → Fut (Parsed F))
      (go : Expression F → List ℕ → Fut (Parsed F)) (ws bytes : List ℕ)
      → AllSpace ws
      → operand_spaced parse_f64 operand go (ws ++ bytes)
        ≡ operand_spaced parse_f64 operand go bytes
  unfolding operand_spaced
  operand_spaced-space parse_f64 operand go [] bytes all = refl
  operand_spaced-space parse_f64 operand go (c ∷ ws) bytes (white, all) =
      ground (arith, head-space c white, operand_spaced-space parse_f64 operand go ws bytes all)

  -- White space in front of an operand is skipped, in one call.
  pub parse_spaced-space :
      (parse_f64 : List ℕ → Option F) (n p : ℕ) (ws bytes : List ℕ)
      → AllSpace ws
      → parse_spaced parse_f64 n (ws ++ bytes) p ≡ parse_spaced parse_f64 n bytes p
  unfolding parse_spaced
  parse_spaced-space parse_f64 zero p ws bytes all = refl
  parse_spaced-space parse_f64 (suc n) p ws bytes all =
      operand_spaced-space parse_f64 (parse_spaced parse_f64 n)
        (operators_spaced n (parse_spaced parse_f64 n) p) ws bytes all

  -- White space in front of an operator is skipped, one byte in each round.
  operators_spaced-space :
      (operand : List ℕ → ℕ → Fut (Parsed F)) (n m p : ℕ) (lhs : Expression F) (ws bytes : List ℕ)
      → AllSpace ws
      → m ≡ length ws + n
      → operators_spaced m operand p lhs (ws ++ bytes) ≡ operators_spaced n operand p lhs bytes
  unfolding operators_spaced
  operators_spaced-space operand n m p lhs [] bytes all e =
      let same : m ≡ n = omega arith in ap (λ k. operators_spaced k operand p lhs bytes) same
  operators_spaced-space operand n zero p lhs (c ∷ ws) bytes all e = absurd (omega arith)
  operators_spaced-space operand n (suc m) p lhs (c ∷ ws) bytes (white, all) e = ground (
    arith,
    next-space c (ws ++ bytes) white,
    operators_spaced-space operand n m p lhs ws bytes all (omega arith),
  )

pub peeked-plain :
    (ds : List ℕ) (d : ℕ) (rest taken : List ℕ)
    → AllPlain ds
    → is_exponent d ≡ false
    → peeked (ds ++ d ∷ rest) taken ≡ taken
peeked-plain [] d rest taken plain x = ground (arith, x)
peeked-plain (c ∷ ds) d rest taken plain x = let no_exponent = plain.1 in ground arith

-- The exponent of a number with more than one character in front of it is taken twice.
collect-exponent :
    (ds : List ℕ) (d e : ℕ) (rest : List ℕ)
    → AllPlain ds
    → (is_number_char d ≡ true) × (is_exponent d ≡ false)
    → is_exponent e ≡ true
    → (t : List ℕ) × ((collect (ds ++ d ∷ e ∷ rest)).0 ≡ ds ++ d ∷ e ∷ e ∷ t)
collect-exponent [] d e rest plain h x =
    let digit_d = h.0 in
    let char_e : is_number_char e ≡ true = ground (arith, x) in
    (peeked rest (collect rest).0, ground (arith, digit_d, x, char_e))
collect-exponent (c ∷ ds) d e rest plain h x =
    let (t, q) = collect-exponent ds d e rest plain.2 h x in
    let number_c = plain.0 in
    (
      t,
      ground (
        arith,
        number_c,
        peeked-plain ds d (e ∷ rest) (collect (ds ++ d ∷ e ∷ rest)).0 plain.2 h.1,
        q,
      ),
    )

-- No text with two exponents is a number for `str::parse::<f64>`.
abbrev pub RejectsTwo : {F : Type 0} → (List ℕ → Option F) → Type 0
RejectsTwo parse_f64 =
    (before after : List ℕ) (e : ℕ)
    → is_exponent e ≡ true
    → parse_f64 (before ++ e ∷ e ∷ after) ≡ none

-- A number with an exponent behind more than one character is an error, whatever follows it.
pub parse_spaced-exponent :
    {F : Type 0}
    → (parse_f64 : List ℕ → Option F) → RejectsTwo parse_f64
    → (n p x : ℕ) (ds : List ℕ) (d e : ℕ) (rest : List ℕ) → head x ≡ digit
    → AllPlain ds
    → (is_number_char d ≡ true) × (is_exponent d ≡ false)
    → is_exponent e ≡ true
    → parse_spaced parse_f64 (suc n) (x ∷ ds ++ d ∷ e ∷ rest) p ≡ ret failed
unfolding parse_spaced operand_spaced
parse_spaced-exponent parse_f64 rejects n p x ds d e rest front plain h exponent =
    let (t, q) = collect-exponent ds d e rest plain h exponent in
    let order : x ∷ ds ++ d ∷ e ∷ e ∷ t ≡ (x ∷ ds ++ d ∷ []) ++ e ∷ e ∷ t =
      sym (append_assoc (x ∷ ds) (d ∷ []) (e ∷ e ∷ t)) in
    let none' : parse_f64 (x ∷ (collect (ds ++ d ∷ e ∷ rest)).0) ≡ none =
      ap (λ ts. parse_f64 (x ∷ ts)) q
      ∙ ap parse_f64 order
      ∙ rejects (x ∷ ds ++ d ∷ []) t e exponent in
    ground (arith, front, none')
