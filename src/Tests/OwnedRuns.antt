-- ===== src/Tests/OwnedRuns.antt =====
-- Pointers into a block of 64 bytes, and a place for 16 bytes aligned to 16 at its end.
use reblessive.Base.{
  refl, ℕ, ◌+◌, ◌*◌, ◌≤◌, ◌≡◌, none, some, [], ◌∷◌, arith, ok, undefined, ◌==◌, if◌then◌else◌,
}
use reblessive.Allocator.Layout.{Layout, alloc_size, align_down}
use reblessive.Allocator.Memory.{header, Heap}
use reblessive.Allocator.Ops.{place_below}
use reblessive.Owned.{
  Region, Within, Owned, pos, from_ptr, as_ptr, addr, cast, add, sub, offset_from, eq, cmp, less,
  ptr_add, ptr_sub,
}
use reblessive.Owned.Steps.{add-sub}
use reblessive.Owned.Place.{moved, placed, place_of, place_owned, place_owned-place_below}

abbrev block : Region
block = record { start = 4096; size = 64 }

abbrev last : Owned
last = record { ptr = record { addr = 4160; region = block } }

abbrev heap : Heap
heap = record {
  words = λ a. if a == 4096 then some (header (record { previous = none; last = 4160 })) else none;
  live = record { addr = 4096; size = 64 } ∷ [];
  block = some 4096;
  top = none;
}

abbrev wide : Layout
wide = record { size = 16; align = 16 }

last-Within : Within last.ptr 0
last-Within = record {
  region = record { positive = omega arith; limit = omega arith; small = omega arith };
  lower = omega arith;
  upper = omega arith;
}

alloc_size-wide : alloc_size wide ≡ some 32
unfolding alloc_size
alloc_size-wide = refl

place_owned-place_below_example :
    (place_owned wide last heap ≡ ok (moved last.ptr 4144) (placed 4144 heap))
    × (place_below wide 4160 heap ≡ ok 4144 (placed 4144 heap))
    × (4120 ≤ place_of wide 4160)
    × (place_of wide 4160 + 16 ≤ 4160)
    × ((m : ℕ) × (place_of wide 4160 ≡ 16 * m))
unfolding align_down
place_owned-place_below_example =
    place_owned-place_below wide last 32 [] heap (4, refl) alloc_size-wide refl last-Within refl
      refl (omega arith)

abbrev first : Owned
first = record { ptr = record { addr = 4112; region = block } }

first-Within : Within first.ptr (3 * 8)
first-Within = record {
  region = record { positive = omega arith; limit = omega arith; small = omega arith };
  lower = omega arith;
  upper = omega arith;
}

add-sub_example :
    (p : Owned) × (add 8 first 3 heap ≡ ok p heap)
    × (from_ptr (as_ptr (cast p)) ≡ some p)
    × (sub 8 p 3 heap ≡ ok first heap)
    × (offset_from 8 p first heap ≡ ok (pos 3) heap)
    × (addr p ≡ 4136)
    × (eq first p ≡ (3 == 0))
    × (cmp first p ≡ less)
add-sub_example = add-sub 8 3 first heap (omega arith) first-Within

-- A step in front of the block, and one behind its end
sub-first : sub 8 first 3 heap ≡ undefined
unfolding sub ptr_sub
sub-first = refl

add-first : add 8 first 7 heap ≡ undefined
unfolding add ptr_add
add-first = refl
