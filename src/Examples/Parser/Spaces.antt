-- ===== src/Examples/Parser/Spaces.antt =====
-- src/examples/calculator.rs: what is left of a text without white space.
use reblessive.Base.{
  ℕ, ◌≤◌, ◌<◌, ◌≡◌, ◌≢◌, Bool, false, ◌||◌, ◌&&◌, Bool-cases, inl, inr, List, [], ◌∷◌, arith,
  length,
}
use reblessive.Examples.Calculator.{BinaryOperator, pow, mul, div, add, sub}
use reblessive.Examples.Parser.{
  is_space, is_exponent, is_sign, is_number_char, number_chars, space, head, operator, next, skip,
  behind,
}

-- A text without white space
abbrev pub HasNoSpace : List ℕ → Type 0
HasNoSpace [] = Unit
HasNoSpace (c ∷ cs) = (is_space c ≡ false) × HasNoSpace cs

pub skip-HasNoSpace : (text : List ℕ) → HasNoSpace text → HasNoSpace (skip text)
skip-HasNoSpace [] h = tt
skip-HasNoSpace (c ∷ cs) h = h.1

pub length-skip : (text : List ℕ) → length (skip text) ≤ length text
length-skip [] = omega arith
length-skip (c ∷ cs) = omega arith

pub behind-HasNoSpace :
    (op : BinaryOperator) (text : List ℕ) → HasNoSpace text → HasNoSpace (behind op text)
behind-HasNoSpace pow text h = skip-HasNoSpace (skip text) (skip-HasNoSpace text h)
behind-HasNoSpace mul text h = skip-HasNoSpace text h
behind-HasNoSpace div text h = skip-HasNoSpace text h
behind-HasNoSpace add text h = skip-HasNoSpace text h
behind-HasNoSpace sub text h = skip-HasNoSpace text h

pub length-behind :
    (op : BinaryOperator) (c : ℕ) (cs : List ℕ) → length (behind op (c ∷ cs)) ≤ length cs
length-behind pow c cs = length-skip cs
length-behind mul c cs = omega arith
length-behind div c cs = omega arith
length-behind add c cs = omega arith
length-behind sub c cs = omega arith

pub behind-shorter :
    (op : BinaryOperator) (text : List ℕ) → 0 < length text → length (behind op text) < length text
behind-shorter op [] h = absurd (omega (arith, h))
behind-shorter op (c ∷ cs) h = omega (arith, length-behind op c cs)

pub number_chars-left :
    (b : Bool) (cs : List ℕ)
    → HasNoSpace cs
    → (length ((number_chars b cs).1) ≤ length cs) × HasNoSpace (number_chars b cs).1
number_chars-left b [] h = (omega arith, tt)
number_chars-left b (c ∷ cs) h =
    let later = number_chars-left (is_exponent c) cs h.1 in
    elim (Bool-cases (is_number_char c || b && is_sign c)) [
      | inl taken ↦ rw taken (omega (arith, later.0), later.1)
      | inr left ↦ rw left (omega arith, h)
    ]

-- There is something in front of what stands behind an operator.
pub next-some : (text : List ℕ) (op : BinaryOperator) → next text ≡ operator op → 0 < length text
next-some [] op e = absurd (ground (arith, e))
next-some (c ∷ cs) op e = omega arith

pub next-no_space : (text : List ℕ) → HasNoSpace text → next text ≢ space
next-no_space [] h e = absurd (ground (arith, e))
next-no_space (c ∷ []) h e = absurd (ground (arith, e, h.0))
next-no_space (c ∷ d ∷ cs) h e = absurd (ground (arith, e, h.0))

pub head-no_space : (c : ℕ) → is_space c ≡ false → head c ≢ space
head-no_space c h e = absurd (ground (arith, e, h))
