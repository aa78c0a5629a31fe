-- ===== src/Examples/Bench/Generated.antt =====
-- src/benches/calc.rs: the expressions that the benchmark makes up. The text of a floating point
-- number is a parameter.
use Prim.Native.Nat.{bit_xor}
use mathlib.Core.Option.{bind as ◌>>=◌}
use reblessive.Base.{
  ℕ, zero, suc, ◌*◌, ◌/◌, ◌%◌, ◌^◌, ◌==◌, if◌then◌else◌, Option, none, some, List, [], ◌∷◌, ◌++◌,
}

-- `Rand::next`: the new state, which is also the result. A shift of a `u32` drops the bits that leave it.
unfoldable pub next_rand : ℕ → ℕ
next_rand x =
    let x₁ = bit_xor x (x * 2 ^ 13 % 2 ^ 32) in
    let x₂ = bit_xor x₁ (x₁ / 2 ^ 17) in bit_xor x₂ (x₂ * 2 ^ 5 % 2 ^ 32)

-- The operator with the space behind it; none where the code is `unreachable!()`
abbrev pub operator_text : ℕ → Option (List ℕ)
operator_text n =
    if n == 0
    then some (43 ∷ 32 ∷ [])
    else if n == 1
    then some (42 ∷ 32 ∷ [])
    else if n == 2
    then some (45 ∷ 32 ∷ [])
    else if n == 3
    then some (47 ∷ 32 ∷ [])
    else none

-- `show n` is the text of `n as f32 * 0.01`.
module _ (show : ℕ → List ℕ) where
  abbrev number_text : ℕ → List ℕ
  number_text x = show (x % 1000) ++ 32 ∷ []

  -- The loop, and the number behind it
  unfoldable pub generate_from : ℕ → ℕ → Option (List ℕ)
  generate_from zero x = some (number_text (next_rand x))
  generate_from (suc n) x =
      let drawn = next_rand (next_rand x) in
      do
        op ← operator_text (drawn % 4)
        rest ← generate_from n drawn
        some (number_text (next_rand x) ++ (op ++ rest))

  abbrev pub generate_expression : ℕ → Option (List ℕ)
  generate_expression len = generate_from len 26523964
