-- ===== src/Allocator/Push.antt =====
-- src/allocator.rs, `alloc_layout`: an allocation is put in front of the others.
pub mod Room
pub mod Place
mod NewBlock
mod Grow
use reblessive.Base.{
  refl, ℕ, zero, ◌+◌, ◌-◌, ◌*◌, ◌%◌, ◌^◌, ◌<◌, ◌≤◌, ◌≡◌, ◌≢◌, ◌⊎◌, inl, inr, Bool, true, false,
  Option, none, some, List, [], ◌∷◌, ◌++◌, arith, ltb, leb, ◌&&◌, ok, max,
}
use native.Mathlib.Decide.{dec_lt}
use reblessive.Allocator.Layout.{Layout, IsLayout, alloc_size, next_power_of_two, minimum_align}
use reblessive.Allocator.Memory.{Heap, SystemAlloc}
use reblessive.Allocator.Ops.{
  alloc_layout, current_block, top_ptr, grow_initial, grow_alloc_new_top, place_below,
}
use reblessive.Allocator.Layers.{Alloc, Layer, all, Holds, floor, Fits-floor}
use Room.{top_ptr_lem}
use Place.{push_alloc, Placed, place_below_lem}
use Grow.{Grown, grow_initial_lem, grow_alloc_new_top_lem}

-- The size that a new block needs at least
abbrev pub needed : List Layer → ℕ → ℕ
needed [] n = n + 16
needed (l ∷ ls) n = l.size + n

-- The heap behind an allocation
pub record Pushed (sys : SystemAlloc) (s : Heap) (ls : List Layer) (layout : Layout) : Type 0 where
  pub after : Heap
  pub layers : List Layer
  pub cell : ℕ
  pub runs : alloc_layout sys layout s ≡ ok (cell + 8) after
  pub holds : Holds after layers
  pub pushed : all layers ≡ record { cell = cell; size = layout.size } ∷ all ls
  pub multiple : (m : ℕ) × (cell + 8 ≡ max layout.align minimum_align * m)

module _ (sys : SystemAlloc) (layout : Layout) (n size : ℕ) (is : IsLayout layout)
    (e : alloc_size layout ≡ some n) where
  -- The allocation on the last block, or on a new one
  push-layer :
      (s : Heap) (l : Layer) (ls : List Layer)
      → Holds s (l ∷ ls)
      → s.block ≡ some l.addr
      → l.size + n ≤ 2 ^ 62
      → next_power_of_two (l.size + n) ≡ some size
      → sys.alloc s.live size ≢ 0
      → Pushed sys s (l ∷ ls) layout
  unfolding alloc_layout current_block
  push-layer s l ls h b small rounds got =
      elim (dec_lt (floor (l.addr + l.size) l.allocs - n - l.addr) 16) [
        | yes full ↦
            let (g, runs) = grow_alloc_new_top_lem sys s l ls layout n size h e small rounds got in
            let fresh : Layer = record { addr = g.addr; size = g.size; allocs = [] } in
            let p =
              place_below_lem g.after fresh (l ∷ ls) layout n g.holds is e
                (omega (arith, g.room)) in
            record {
              after = p.after;
              layers = push_alloc fresh (record { cell = p.cell; size = layout.size }) ∷ l ∷ ls;
              cell = p.cell;
              runs = ground (arith, b, e, top_ptr_lem s l ls h, runs, p.runs);
              holds = p.holds;
              pushed = refl;
              multiple = p.multiple;
            }
        | no room ↦
            let p = place_below_lem s l ls layout n h is e (omega arith) in
            record {
              after = p.after;
              layers = push_alloc l (record { cell = p.cell; size = layout.size }) ∷ ls;
              cell = p.cell;
              runs = ground (arith, b, e, top_ptr_lem s l ls h, p.runs);
              holds = p.holds;
              pushed = refl;
              multiple = p.multiple;
            }
      ]

  push-initial :
      (s : Heap)
      → Holds s []
      → n + 16 ≤ 2 ^ 62
      → next_power_of_two (n + 16) ≡ some size
      → sys.alloc s.live size ≢ 0
      → Pushed sys s [] layout
  unfolding alloc_layout current_block
  push-initial s h small rounds got =
      let (g, runs) = grow_initial_lem sys s layout n size h e small rounds got in
      let fresh : Layer = record { addr = g.addr; size = g.size; allocs = [] } in
      let p = place_below_lem g.after fresh [] layout n g.holds is e (omega (arith, g.room)) in
      record {
        after = p.after;
        layers = push_alloc fresh (record { cell = p.cell; size = layout.size }) ∷ [];
        cell = p.cell;
        runs =
            ground (arith, h.block, e, runs, top_ptr_lem g.after fresh [] g.holds, g.room, p.runs);
        holds = p.holds;
        pushed = refl;
        multiple = p.multiple;
      }

  -- If the system has a block of the size that a new one would get, and that is at most 2 ^ 62, an
  -- allocation succeeds, is aligned, and is put in front of the allocations
  -- that were there, which stay as they are.
  pub alloc_layout-Pushed :
      (s : Heap) (ls : List Layer)
      → Holds s ls
      → needed ls n ≤ 2 ^ 62
      → next_power_of_two (needed ls n) ≡ some size
      → sys.alloc s.live size ≢ 0
      → Pushed sys s ls layout
  alloc_layout-Pushed s [] h small rounds got = push-initial s h small rounds got
  alloc_layout-Pushed s (l ∷ ls) h small rounds got = push-layer s l ls h h.block small rounds got
