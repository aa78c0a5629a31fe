-- ===== src/Owned/Place.antt =====
-- The end of `StackAllocator::alloc_layout` in src/allocator.rs once more, over the pointers of
-- src/ptr.rs, with their bounds.
use Prim.Native.Nat.{bit_and}
use native.Mathlib.Decide.{dec_le}
use reblessive.Base.{
  refl, ap, sym, ◌∙◌, ℕ, ◌+◌, ◌-◌, ◌*◌, ◌%◌, ◌^◌, ◌≤◌, ◌<◌, max, ◌≡◌, some, arith, Cmd, ok, List,
  ◌∷◌, undefined, pure, and_then, Outcome, panicked, out_of_fuel, ◌>>=◌, ◌>>◌,
}
use reblessive.Allocator.Layout.{
  Layout, IsLayout, alloc_size, align_down, minimum_align, back_pointer_size, usize_mod,
}
use reblessive.Allocator.Memory.{Block, Heap, back, store, put}
use reblessive.Allocator.Ops.{place_below}
use reblessive.Allocator.Push.Place.{place, place_below-runs}
use reblessive.Owned.{Pointer, Owned, Within, at, addr, sub, map_addr_unchecked, from_ptr_unchecked}
use reblessive.Owned.Steps.{sub_lem}
use reblessive.Owned.Masks.{bit_and-mask}

-- `!`, on 64 bits
abbrev pub not_bits : ℕ → ℕ
not_bits a = usize_mod - 1 - a

-- The end of `alloc_layout`, behind the search for space
unfoldable pub place_owned : Layout → Owned → Cmd Heap Owned
unfolding sub map_addr_unchecked store
place_owned layout top_ptr =
    let align : ℕ = max layout.align minimum_align in
    do
      below ← sub 1 top_ptr layout.size
      res ← map_addr_unchecked below (λ a. bit_and a (not_bits (align - 1)))
      new_top ← sub 1 res back_pointer_size
      (λ s.
          (do
            store (addr new_top) (back s.top)
            (λ s. ok tt (record s { top = some (addr new_top) })))
            s)
      pure res

-- The larger of the alignment and 8 is a power of two.
max-pow : (l : Layout) → IsLayout l → (k : ℕ) × (max l.align minimum_align ≡ 2 ^ k)
max-pow l (k, e) = elim (dec_le 8 l.align) [
  | yes large ↦ (k, omega arith)
  | no small ↦ (3, omega arith)
]

-- The mask rounds down.
mask-align_down :
    (a align k : ℕ)
    → align ≡ 2 ^ k
    → a < usize_mod
    → align ≤ usize_mod
    → 0 < align
    → bit_and a (not_bits (align - 1)) ≡ align_down a align
unfolding align_down
mask-align_down a align k e lt le h =
    bit_and-mask 64 k a (not_bits (align - 1)) lt (omega arith) ∙ ap (λ m. a - a % m) (sym e)

-- The pointer of an allocation at another address
abbrev pub moved : Pointer → ℕ → Owned
moved p a = record { ptr = at p a }

-- Going back by bytes
sub-bytes :
    (o : Owned) (n : ℕ) (s : Heap)
    → Within o.ptr 0
    → o.ptr.region.start + n ≤ addr o
    → sub 1 o n s ≡ ok (record { ptr = at o.ptr (addr o - n) }) s
sub-bytes o n s w h =
    let low = w.lower in
    let up = w.upper in
    let once : n * 1 ≡ n = omega arith in
    sub_lem 1 n o s (record { region = w.region; lower = omega arith; upper = omega arith })
      (omega arith)
    ∙ ap (λ b. ok (record { ptr = at o.ptr (addr o - b) }) s) once

map_addr_unchecked-positive :
    (o : Owned) (f : ℕ → ℕ) (a : ℕ) (s : Heap)
    → f (addr o) ≡ a
    → 0 < a
    → map_addr_unchecked o f s ≡ ok (record { ptr = at o.ptr a }) s
unfolding map_addr_unchecked from_ptr_unchecked
map_addr_unchecked-positive o f a s e h = ground arith

alloc_size-align : (l : Layout) (n : ℕ) → alloc_size l ≡ some n → max l.align minimum_align ≤ n
unfolding alloc_size
alloc_size-align l n e = ground arith

-- What comes behind the write of the back pointer
behind_store :
    (r : Outcome Heap (Unit {0})) (set : Heap → Heap) (p : Pointer) (a : ℕ)
    → and_then (and_then r (λ _ t. ok (tt {0}) (set t))) (λ _. ok (moved p a))
      ≡ and_then
          (and_then r (λ _ t. and_then (ok (tt {0}) (set t)) (λ _. ok a)))
          (λ b. ok (moved p b))
behind_store (ok u t) set p a = refl
behind_store (panicked x) set p a = refl
behind_store undefined set p a = refl
behind_store out_of_fuel set p a = refl

-- Where a layout goes below an address, with its back pointer in front
abbrev pub place_of : Layout → ℕ → ℕ
place_of layout top = align_down (top - layout.size) (max layout.align minimum_align)

-- The heap with the back pointer in front of the allocation
abbrev pub placed : ℕ → Heap → Heap
placed res s = record s { words = put (res - 8) (back s.top) s.words; top = some (res - 8) }

-- Over pointers it comes to the same as over addresses.
place_owned-same :
    (layout : Layout) (top : Owned) (n : ℕ) (s : Heap)
    → IsLayout layout
    → alloc_size layout ≡ some n
    → Within top.ptr 0
    → top.ptr.region.start % 8 ≡ 0
    → addr top % 8 ≡ 0
    → 16 ≤ addr top - n - top.ptr.region.start
    → place_owned layout top s
      ≡ and_then (place_below layout (addr top) s) (λ a. ok (moved top.ptr a))
unfolding place_owned place_below
place_owned-same layout top n s is e w b t room =
    let (cell, p) = place layout top.ptr.region.start (addr top) n is e b t room in
    let (k, pow) = max-pow layout is in
    let fits = alloc_size-align layout n e in
    let low = w.lower in
    let up = w.upper in
    let limit = w.region.limit in
    let down = p.res in
    let above = p.above in
    let below = p.below in
    let free : Owned = record { ptr = at top.ptr (addr top - layout.size) } in
    let res : Owned = record { ptr = at top.ptr (place_of layout (addr top)) } in
    let e1 : sub 1 top layout.size s ≡ ok free s = sub-bytes top layout.size s w (omega arith) in
    let e2 =
      map_addr_unchecked-positive free
        (λ a. bit_and a (not_bits (max layout.align minimum_align - 1)))
        (place_of layout (addr top)) s
        (mask-align_down (addr free) (max layout.align minimum_align) k pow (omega arith)
          (omega arith) (omega arith))
        (omega arith) in
    let e3 : sub 1 res back_pointer_size s ≡ ok (record { ptr = at top.ptr (addr res - 8) }) s =
      sub-bytes res 8 s (record { region = w.region; lower = omega arith; upper = omega arith })
        (omega arith) in
    rw e1 (
      rw e2 (
        rw e3 (
          behind_store (store (addr res - 8) (back s.top) s)
            (λ t. record t { top = some (addr res - 8) }) top.ptr (addr res))))

place_below-placed :
    (layout : Layout) (base top n size : ℕ) (bs : List Block) (s : Heap)
    → IsLayout layout
    → alloc_size layout ≡ some n
    → s.live ≡ record { addr = base; size = size } ∷ bs
    → base % 8 ≡ 0
    → top % 8 ≡ 0
    → top ≤ base + size
    → 16 ≤ top - n - base
    → place_below layout top s ≡ ok (place_of layout top) (placed (place_of layout top) s)
place_below-placed layout base top n size bs s is e live b t up room =
    let (cell, p) = place layout base top n is e b t room in
    let minus : cell + 8 - 8 ≡ cell = omega arith in
    let above = p.above in
    let below = p.below in
    rw (p.res, minus)
      (place_below-runs layout top cell base size bs s p.res live (omega arith) (omega arith))

-- With room in a block that the system lends, the end of `alloc_layout` returns over pointers and
-- over plain addresses, with the same address and the same heap: no step is undefined. The
-- allocation is on the block, behind its header and its own back pointer, below the last one, and
-- aligned.
pub place_owned-place_below :
    (layout : Layout) (top : Owned) (n : ℕ) (bs : List Block) (s : Heap)
    → IsLayout layout
    → alloc_size layout ≡ some n
    → s.live ≡ record { addr = top.ptr.region.start; size = top.ptr.region.size } ∷ bs
    → Within top.ptr 0
    → top.ptr.region.start % 8 ≡ 0
    → addr top % 8 ≡ 0
    → 16 ≤ addr top - n - top.ptr.region.start
    → (place_owned layout top s
        ≡ ok (moved top.ptr (place_of layout (addr top))) (placed (place_of layout (addr top)) s))
      × (place_below layout (addr top) s
          ≡ ok (place_of layout (addr top)) (placed (place_of layout (addr top)) s))
      × (top.ptr.region.start + 24 ≤ place_of layout (addr top))
      × (place_of layout (addr top) + layout.size ≤ addr top)
      × ((m : ℕ) × (place_of layout (addr top) ≡ max layout.align minimum_align * m))
place_owned-place_below layout top n bs s is e live w b t room =
    let (cell, p) = place layout top.ptr.region.start (addr top) n is e b t room in
    let up = w.upper in
    let down = p.res in
    let above = p.above in
    let below = p.below in
    let runs : place_below layout (addr top) s
        ≡ ok (place_of layout (addr top)) (placed (place_of layout (addr top)) s) =
      place_below-placed layout top.ptr.region.start (addr top) n top.ptr.region.size bs s is e live
        b t (omega arith) room in
    (
      place_owned-same layout top n s is e w b t room
          ∙ ap (λ r. and_then r (λ a. ok (moved top.ptr a))) runs,
      runs,
      omega arith,
      omega arith,
      (p.multiple.0, down ∙ p.multiple.1),
    )
