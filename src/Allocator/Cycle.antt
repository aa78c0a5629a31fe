-- ===== src/Allocator/Cycle.antt =====
-- src/allocator.rs: an allocation with its value, and the pop that takes it off again.
use reblessive.Base.{
  refl, ℕ, ◌+◌, ◌*◌, ◌^◌, ◌≤◌, ◌≡◌, ◌≢◌, inl, some, List, ◌∷◌, max, arith, ok, sym, ◌>>=◌,
}
use mathlib.Core.Path.{subst}
use reblessive.Allocator.Layout.{Layout, IsLayout, alloc_size, next_power_of_two, minimum_align}
use reblessive.Allocator.Memory.{Heap, SystemAlloc}
use reblessive.Allocator.Ops.{alloc_with, pop_dealloc}
use reblessive.Allocator.Layers.{Alloc, Layer, all, Holds}
use reblessive.Allocator.Push.{needed, alloc_layout-Pushed}
use reblessive.Allocator.Pop.{popped_layers, pop_dealloc-Popped}
use reblessive.Allocator.Writes.{Has, store_value-Holds}

-- The heap behind an allocation with a value
pub record Created (sys : SystemAlloc) (s : Heap) (ls : List Layer) (layout : Layout) : Type 0 where
  pub after : Heap
  pub layers : List Layer
  pub cell : ℕ
  pub runs : alloc_with sys layout s ≡ ok (cell + 8) after
  pub holds : Holds after layers
  pub pushed : all layers ≡ record { cell = cell; size = layout.size } ∷ all ls
  pub multiple : (m : ℕ) × (cell + 8 ≡ max layout.align minimum_align * m)

module _ (sys : SystemAlloc) (layout : Layout) (n size : ℕ) (is : IsLayout layout)
    (e : alloc_size layout ≡ some n) (s : Heap) (ls : List Layer) (h : Holds s ls)
    (small : needed ls n ≤ 2 ^ 62) (rounds : next_power_of_two (needed ls n) ≡ some size)
    (got : sys.alloc s.live size ≢ 0) where
  -- If the system has a block of the size that a new one would get, and that is at most 2 ^ 62, an
  -- allocation succeeds and its value is written to memory of its own: it is
  -- aligned, comes in front of the allocations that were there, and these stay as they are.
  pub alloc_with-Created : Created sys s ls layout
  unfolding alloc_with
  alloc_with-Created =
      let p = alloc_layout-Pushed sys layout n size is e s ls h small rounds got in
      let x : Alloc = record { cell = p.cell; size = layout.size } in
      let own : Has x (all p.layers) = subst (Has x) (sym p.pushed) (inl refl) in
      let (after, runs, holds) = store_value-Holds p.after p.layers x p.holds own in
      record {
        after = after;
        layers = p.layers;
        cell = p.cell;
        runs = ground (arith, p.runs, runs);
        holds = holds;
        pushed = p.pushed;
        multiple = p.multiple;
      }

  -- An allocation that is popped leaves the allocations from before it, on whatever block it was.
  pub pop_dealloc-alloc_with :
      (after : Heap) × (ks : List Layer) × ((do _ ← alloc_with sys layout; pop_dealloc) s
        ≡ ok tt after)
      × Holds after ks
      × (all ks ≡ all ls)
  pop_dealloc-alloc_with =
      let c = alloc_with-Created in
      let p = pop_dealloc-Popped c.after c.layers _ (all ls) c.holds c.pushed in
      (p.after, popped_layers c.layers, ground (arith, c.runs, p.runs), p.holds, p.rest)
