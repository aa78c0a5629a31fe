-- ===== src/Owned.antt =====
-- `Owned` of src/ptr.rs, a pointer that is not null, over what the standard library documents of raw
-- pointers: each belongs to an allocation, and arithmetic that leaves this is undefined behaviour.
use reblessive.Base.{
  refl, ◌∙◌, ap, ℕ, zero, suc, ◌+◌, ◌-◌, ◌*◌, ◌/◌, ◌%◌, ◌≤◌, ◌<◌, ◌≡◌, Bool, true, false, ◌&&◌,
  ◌||◌, Option, none, some, map, arith, ltb, leb, ◌==◌, if◌then◌else◌, Cmd, ok, undefined, pure,
  ◌>>=◌, panicked, overflow, explicit,
}
use reblessive.Allocator.Layout.{isize_max, usize_mod}
pub mod Masks
pub mod Steps
pub mod Place

-- The allocation that a pointer is for
pub record Region : Type 0 where
  pub start : ℕ
  pub size : ℕ

-- `*mut T`, which is null at 0
pub record Pointer : Type 0 where
  pub addr : ℕ
  pub region : Region

-- `isize`
pub data ℤ : Type 0 where
  pos : ℕ → ℤ
  negsuc : ℕ → ℤ

abbrev pub at : Pointer → ℕ → Pointer
at p a = record p { addr = a }

abbrev pub inside : Region → ℕ → ℕ → Bool
inside r lo hi = leb r.start lo && leb hi (r.start + r.size)

-- What holds of an allocation
pub record IsRegion (r : Region) : Type 0 where
  pub positive : 0 < r.start
  pub limit : r.start + r.size < usize_mod
  pub small : r.size ≤ isize_max

-- A pointer into its allocation, or to its end, with room for `n` bytes behind it
pub record Within (p : Pointer) (n : ℕ) : Type 0 where
  pub region : IsRegion p.region
  pub lower : p.region.start ≤ p.addr
  pub upper : p.addr + n ≤ p.region.start + p.region.size

-- How far two addresses are apart, in values of `t` bytes
abbrev pub difference : ℕ → ℕ → ℕ → ℤ
difference t a b = if leb b a then pos ((a - b) / t) else negsuc ((b - a) / t - 1)

module _ {S : Type 0} where
  -- `add`, `sub` and `offset_from` of a raw pointer to values of `t` bytes
  unfoldable pub ptr_add : ℕ → Pointer → ℕ → Cmd S Pointer
  ptr_add t p offset s =
      let by : ℕ = offset * t in
      if by == 0 || (leb by isize_max && inside p.region p.addr (p.addr + by))
      then ok (at p (p.addr + by)) s
      else undefined

  unfoldable pub ptr_sub : ℕ → Pointer → ℕ → Cmd S Pointer
  ptr_sub t p offset s =
      let by : ℕ = offset * t in
      if by == 0 || (leb by p.addr && leb by isize_max && inside p.region (p.addr - by) p.addr)
      then ok (at p (p.addr - by)) s
      else undefined

  unfoldable pub ptr_offset_from : ℕ → Pointer → Pointer → Cmd S ℤ
  ptr_offset_from t p q s =
      if t == 0
      then panicked explicit
      else if p.region.start == q.region.start
          && p.region.size == q.region.size
          && inside p.region p.addr p.addr
          && inside q.region q.addr q.addr
          && (p.addr - q.addr) % t == 0
          && (q.addr - p.addr) % t == 0
      then ok (difference t p.addr q.addr) s
      else undefined

-- `Owned<T>`
pub record Owned : Type 0 where
  pub ptr : Pointer

-- `Owned::from_ptr`
unfoldable pub from_ptr : Pointer → Option Owned
from_ptr p = if p.addr == 0 then none else some (record { ptr = p })

-- `Owned::as_ptr`
abbrev pub as_ptr : Owned → Pointer
as_ptr o = o.ptr

-- `Owned::addr`
abbrev pub addr : Owned → ℕ
addr o = o.ptr.addr

-- `Owned::eq` and `Owned::cmp`, which compare addresses
abbrev pub eq : Owned → Owned → Bool
eq o p = o.ptr.addr == p.ptr.addr

pub data Ordering : Type 0 where
  less : Ordering
  equal : Ordering
  greater : Ordering

unfoldable pub cmp : Owned → Owned → Ordering
cmp o p =
    if ltb o.ptr.addr p.ptr.addr then less else if o.ptr.addr == p.ptr.addr then equal else greater

-- `Owned::cast`; a type is only its size here.
abbrev pub cast : Owned → Owned
cast o = record { ptr = o.ptr }

module _ {S : Type 0} where
  -- `Owned::from_ptr_unchecked`
  unfoldable pub from_ptr_unchecked : Pointer → Cmd S Owned
  from_ptr_unchecked p s = if p.addr == 0 then undefined else ok (record { ptr = p }) s

  -- `Owned::add`, for values of `t` bytes
  unfoldable pub add : ℕ → Owned → ℕ → Cmd S Owned
  unfolding ptr_add from_ptr_unchecked
  add t self offset = do p ← ptr_add t self.ptr offset; from_ptr_unchecked p

  -- `Owned::sub`
  unfoldable pub sub : ℕ → Owned → ℕ → Cmd S Owned
  unfolding ptr_sub from_ptr_unchecked
  sub t self offset = do p ← ptr_sub t self.ptr offset; from_ptr_unchecked p

  -- `Owned::offset_from`
  unfoldable pub offset_from : ℕ → Owned → Owned → Cmd S ℤ
  unfolding ptr_offset_from
  offset_from t self other = ptr_offset_from t self.ptr other.ptr

  -- `Owned::map_addr_unchecked`
  unfoldable pub map_addr_unchecked : Owned → (ℕ → ℕ) → Cmd S Owned
  unfolding from_ptr_unchecked
  map_addr_unchecked self f = from_ptr_unchecked (at self.ptr (f self.ptr.addr))
