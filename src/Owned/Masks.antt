-- ===== src/Owned/Masks.antt =====
-- The mask `!(align - 1)` of src/allocator.rs, which clears the low bits of an address.
use Prim.Native.Nat.{bit_and, digits, bit_and-bitwise}
use native.Mathlib.Nat.{pow-suc, div-add-mod, mod-lt, mul-add-mod_self_left, mod-eq_of_lt}
use reblessive.Base.{
  refl, ap, ◌∙◌, ℕ, zero, suc, ◌+◌, ◌-◌, ◌*◌, ◌/◌, ◌%◌, ◌^◌, ◌≤◌, ◌<◌, min, ◌≡◌, arith,
}

pow-positive : (k : ℕ) → 0 < 2 ^ k
pow-positive zero = omega arith
pow-positive (suc k) = simp pow-suc (omega (arith, pow-positive k))

-- The remainder of a number by an even one
halves-mod : (a m : ℕ) → 0 < m → a % (2 * m) ≡ 2 * (a / 2 % m) + a % 2
halves-mod a m h =
    let r : ℕ = 2 * (a / 2 % m) + a % 2 in
    let split : a ≡ 2 * m * (a / 2 / m) + r = grind (arith, div-add-mod (a / 2) m) in
    ap (λ x. x % (2 * m)) split
    ∙ mul-add-mod_self_left (2 * m) (a / 2 / m) r
    ∙ mod-eq_of_lt (omega (arith, mod-lt (a / 2) {m = m} h))

-- A mask `b` of `w` digits with the lowest `k` cleared, digit by digit
digits-mask :
    (n w k a b : ℕ)
    → a ≤ n
    → a < 2 ^ w
    → b + 2 ^ k ≡ 2 ^ w
    → digits (λ _. 0) min n a b ≡ a - a % 2 ^ k
digits-mask zero w k zero b p q r = omega arith
digits-mask (suc n) w k zero b p q r = omega arith
digits-mask zero w k (suc a) b p q r = absurd (omega arith)
digits-mask (suc n) zero k (suc a) b p q r = absurd (omega arith)
digits-mask (suc n) (suc w) zero (suc a) b p q r =
    let one : 2 ^ 0 ≡ 1 = refl in
    let twice : 2 ^ suc w ≡ 2 ^ w * 2 = pow-suc 2 w in
    let rest = digits-mask n w zero (suc a / 2) (b / 2) (omega arith) (omega arith) (omega arith) in
    omega arith
digits-mask (suc n) (suc w) (suc k) (suc a) b p q r =
    let twice : 2 ^ suc w ≡ 2 ^ w * 2 = pow-suc 2 w in
    let half : 2 ^ suc k ≡ 2 * 2 ^ k = omega (arith, pow-suc 2 k) in
    let rest = digits-mask n w k (suc a / 2) (b / 2) (omega arith) (omega arith) (omega arith) in
    let low : suc a % 2 ^ suc k ≡ 2 * (suc a / 2 % 2 ^ k) + suc a % 2 =
      ap (λ m. suc a % m) half ∙ halves-mod (suc a) (2 ^ k) (pow-positive k) in
    omega arith

-- On `w` bits the mask leaves the largest multiple that is not above the address.
pub bit_and-mask : (w k a b : ℕ) → a < 2 ^ w → b + 2 ^ k ≡ 2 ^ w → bit_and a b ≡ a - a % 2 ^ k
bit_and-mask w k a b p q = bit_and-bitwise a b ∙ digits-mask a w k a b (omega arith) p q
