-- ===== src/Allocator/Layout.antt =====
-- Sizes and alignments on a machine with 64 bit addresses.
use native.Mathlib.Decide.{dec_le}
use native.Mathlib.Nat.{pow-suc, div-add-mod, mod-lt}
use reblessive.Base.{
  ◌/◌, ℕ, zero, suc, ◌+◌, ◌-◌, ◌*◌, ◌%◌, ◌^◌, ◌≤◌, ◌<◌, max, ◌≡◌, Option, none, some, arith, ltb,
  leb, if◌then◌else◌,
}

-- `std::alloc::Layout`
pub record Layout : Type 0 where
  pub size : ℕ
  pub align : ℕ

-- What the standard library promises of a layout: the alignment is a power of two.
abbrev pub IsLayout : Layout → Type 0
IsLayout l = (k : ℕ) × (l.align ≡ 2 ^ k)

-- `usize` has 64 bits, and `isize::MAX` is 2 ^ 63 - 1.
abbrev pub usize_mod : ℕ
usize_mod = 2 ^ 64

abbrev pub isize_max : ℕ
isize_max = 2 ^ 63 - 1

-- `MINIMUM_ALIGN`
abbrev pub minimum_align : ℕ
minimum_align = 8

-- `BACK_POINTER_SIZE`
abbrev pub back_pointer_size : ℕ
back_pointer_size = 8

-- `size_of::<BlockHeader>()`: two pointers
abbrev pub header_size : ℕ
header_size = 16

-- `usize::checked_add`
abbrev pub checked_add : ℕ → ℕ → Option ℕ
checked_add a b = if ltb (a + b) usize_mod then some (a + b) else none

-- `StackAllocator::alloc_size`; `-` is `saturating_sub`.
unfoldable pub alloc_size : Layout → Option ℕ
alloc_size l = checked_add l.size ((l.align - minimum_align) + back_pointer_size)

-- `addr & !(align - 1)` for an alignment that is a power of two
unfoldable pub align_down : ℕ → ℕ → ℕ
align_down addr align = addr - addr % align

-- The first power of two that is not below `n`, among 2 ^ k to 2 ^ (k + fuel)
unfoldable pub power_from : ℕ → ℕ → ℕ → Option ℕ
power_from zero k n = if leb n (2 ^ k) then some (2 ^ k) else none
power_from (suc fuel) k n =
    let rest = power_from fuel (suc k) n in if leb n (2 ^ k) then some (2 ^ k) else rest

-- `usize::next_power_of_two`; `none` is an overflow: 2 ^ 63 is the last power below 2 ^ 64.
unfoldable pub next_power_of_two : ℕ → Option ℕ
next_power_of_two n = power_from 63 0 n

power_from_lem :
    (fuel d k n : ℕ)
    → d ≤ fuel
    → n ≤ 2 ^ (k + d)
    → (j : ℕ) × (power_from fuel k n ≡ some (2 ^ j)) × (n ≤ 2 ^ j) × (j ≤ k + d)
unfolding power_from
power_from_lem zero zero k n h b =
    let e : k + 0 ≡ k = omega arith in
    let small : n ≤ 2 ^ k = rw e at b in (k, ground arith, small, omega arith)
power_from_lem (suc fuel) zero k n h b =
    let e : k + 0 ≡ k = omega arith in
    let small : n ≤ 2 ^ k = rw e at b in (k, ground arith, small, omega arith)
power_from_lem zero (suc d) k n h b = absurd (omega arith)
power_from_lem (suc fuel) (suc d) k n h b =
    let e : k + suc d ≡ suc k + d = omega arith in
    let (j, p, q, r) = power_from_lem fuel d (suc k) n (omega arith) (rw e at b) in
    elim (dec_le n (2 ^ k)) [
      | yes small ↦ (k, ground arith, small, omega arith)
      | no large ↦ (j, ground (arith, p), q, omega arith)
    ]

pow_mono : (j k : ℕ) → j ≤ k → 2 ^ j ≤ 2 ^ k
pow_mono zero zero h = omega arith
pow_mono zero (suc k) h = simp pow-suc (omega (arith, pow_mono zero k (omega arith)))
pow_mono (suc j) zero h = absurd (omega arith)
pow_mono (suc j) (suc k) h = simp pow-suc (omega (arith, pow_mono j k (omega arith)))

-- A number up to 2 ^ 62 is rounded up to a power of two up to 2 ^ 62.
pub next_power_of_two_lem :
    (n : ℕ)
    → n ≤ 2 ^ 62
    → (j : ℕ) × (next_power_of_two n ≡ some (2 ^ j)) × (n ≤ 2 ^ j) × (2 ^ j ≤ 2 ^ 62)
unfolding next_power_of_two
next_power_of_two_lem n h =
    let (j, p, q, r) = power_from_lem 63 62 0 n (omega arith) h in (j, p, q, pow_mono j 62 r)

-- A power of two that is not below 8 is a multiple of 8.
pub pow-multiple : (j : ℕ) → 8 ≤ 2 ^ j → (c : ℕ) × (2 ^ j ≡ 8 * c)
pow-multiple zero h = absurd (omega arith)
pow-multiple (suc zero) h = absurd (omega arith)
pow-multiple (suc (suc zero)) h = absurd (omega arith)
pow-multiple (suc (suc (suc j))) h = (2 ^ j, simp pow-suc (omega arith))

-- The larger of the alignment and 8 is a multiple of 8.
pub max-align : (l : Layout) → IsLayout l → (c : ℕ) × (max l.align minimum_align ≡ 8 * c) × (0 < c)
max-align l (k, e) = elim (dec_le 8 l.align) [
  | yes large ↦ let (c, p) = pow-multiple k (omega arith) in (c, omega arith, omega arith)
  | no small ↦ (1, omega arith, omega arith)
]

-- Rounding down to a multiple of 8 * c
pub align_down_lem :
    (addr c : ℕ)
    → 0 < c
    → (q : ℕ) × (align_down addr (8 * c) ≡ 8 * (c * q))
      × (8 * (c * q) ≤ addr)
      × (addr < 8 * (c * q) + 8 * c)
unfolding align_down
align_down_lem addr c h = (
  addr / (8 * c),
  omega (arith, div-add-mod addr (8 * c)),
  omega (arith, div-add-mod addr (8 * c)),
  omega (arith, div-add-mod addr (8 * c), mod-lt addr {m = 8 * c} (omega arith)),
)
