-- ===== src/Owned/Steps.antt =====
-- Arithmetic of the pointers of src/ptr.rs within their allocations.
use native.Mathlib.Nat.{mul-div_cancel, mul-mod_left, zero-mod}
use reblessive.Base.{
  refl, ◌∙◌, ap, ℕ, zero, suc, ◌+◌, ◌-◌, ◌*◌, ◌/◌, ◌%◌, ◌≤◌, ◌<◌, ◌≡◌, some, arith, ◌==◌,
  if◌then◌else◌, ok,
}
use reblessive.Owned.{
  Within, Owned, pos, at, from_ptr, from_ptr_unchecked, as_ptr, addr, cast, ptr_add, ptr_sub,
  ptr_offset_from, add, sub, offset_from, eq, cmp, less, equal,
}

module _ {S : Type 0} where
  -- A step ahead, and a step back
  pub add_lem :
      (t n : ℕ) (o : Owned) (s : S)
      → Within o.ptr (n * t)
      → add t o n s ≡ ok (record { ptr = at o.ptr (o.ptr.addr + n * t) }) s
  unfolding add ptr_add from_ptr_unchecked
  add_lem t n o s w =
      let low = w.lower in
      let up = w.upper in
      let positive = w.region.positive in let small = w.region.small in ground arith

  -- A step back within the allocation
  pub sub_lem :
      (t n : ℕ) (o : Owned) (s : S)
      → Within (at o.ptr (o.ptr.addr - n * t)) (n * t)
      → n * t ≤ o.ptr.addr
      → sub t o n s ≡ ok (record { ptr = at o.ptr (o.ptr.addr - n * t) }) s
  unfolding sub ptr_sub from_ptr_unchecked
  sub_lem t n o s w le =
      let low = w.lower in
      let up = w.upper in
      let positive = w.region.positive in let small = w.region.small in ground arith

  offset_from_lem :
      (t n : ℕ) (o : Owned) (s : S)
      → 0 < t
      → Within o.ptr (n * t)
      → offset_from t (record { ptr = at o.ptr (o.ptr.addr + n * t) }) o s ≡ ok (pos n) s
  unfolding offset_from ptr_offset_from
  offset_from_lem t n o s h w =
      let low = w.lower in
      let up = w.upper in
      let apart : o.ptr.addr + n * t - o.ptr.addr ≡ n * t = omega arith in
      let nothing : o.ptr.addr - (o.ptr.addr + n * t) ≡ 0 = omega arith in
      let whole : n * t % t ≡ 0 = mul-mod_left n t in
      let behind : (o.ptr.addr - (o.ptr.addr + n * t)) % t ≡ 0 =
        ap (λ x. x % t) nothing ∙ zero-mod t in
      let quotient : n * t / t ≡ n = mul-div_cancel n h in ground arith

-- How a pointer and a later one compare
after-eq : (t n a : ℕ) → 0 < t → (a == a + n * t) ≡ (n == 0)
after-eq t zero a h = ground arith
after-eq t (suc n) a h = ground arith

after-cmp :
    (t n : ℕ) (o : Owned)
    → 0 < t
    → cmp o (record { ptr = at o.ptr (o.ptr.addr + n * t) }) ≡ (if n == 0 then equal else less)
unfolding cmp
after-cmp t zero o h = ground arith
after-cmp t (suc n) o h = ground arith

module _ {S : Type 0} where
  -- A pointer moved ahead within its allocation, and back
  pub add-sub :
      (t n : ℕ) (o : Owned) (s : S)
      → 0 < t
      → Within o.ptr (n * t)
      → (p : Owned) × (add t o n s ≡ ok p s)
        × (from_ptr (as_ptr (cast p)) ≡ some p)
        × (sub t p n s ≡ ok o s)
        × (offset_from t p o s ≡ ok (pos n) s)
        × (addr p ≡ addr o + n * t)
        × (eq o p ≡ (n == 0))
        × (cmp o p ≡ (if n == 0 then equal else less))
  unfolding from_ptr
  add-sub t n o s h w =
      let low = w.lower in
      let positive = w.region.positive in
      let same : o.ptr.addr + n * t - n * t ≡ o.ptr.addr = omega arith in
      let p : Owned = record { ptr = at o.ptr (o.ptr.addr + n * t) } in
      (
        p,
        add_lem t n o s w,
        ground arith,
        sub_lem t n p s
              (record { region = w.region; lower = omega arith; upper = omega (arith, w.upper) })
              (omega arith)
            ∙ ap (λ a. ok (record { ptr = at o.ptr a }) s) same,
        offset_from_lem t n o s h w,
        refl,
        after-eq t n o.ptr.addr h,
        after-cmp t n o h,
      )
