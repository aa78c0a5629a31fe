-- ===== src/Allocator/Push/Room.antt =====
-- Where the free space of the last block ends.
use reblessive.Base.{
  refl, ℕ, ◌+◌, ◌≤◌, ◌≡◌, inl, inr, false, Option, none, some, List, [], ◌∷◌, arith, leb, ◌&&◌, ok,
}
use reblessive.Allocator.Memory.{Block, header, Heap, Apart, AllApart}
use reblessive.Allocator.Ops.{within_block, top_ptr}
use reblessive.Allocator.Layers.{
  Alloc, Layer, block_of, blocks, Fits, Fits-le, floor, AreLayers, Holds, top_of, first_cell,
}

-- The block of a layer, in memory
abbrev pub HasHeader : Heap → ℕ → ℕ → Type 0
HasHeader s addr size =
    (p : Option ℕ) × (s.words addr ≡ some (header (record { previous = p; last = addr + size })))

pub within_block_lem :
    (s : Heap) (addr size a : ℕ)
    → HasHeader s addr size
    → within_block addr a s ≡ ok (leb addr a && leb a (addr + size)) s
unfolding within_block
within_block_lem s addr size a (p, e) = ground (arith, e)

-- An address on a block is not within a block that is apart from it.
cell-outside :
    (b : Block) (addr size a : ℕ)
    → Apart b (record { addr = addr; size = size })
    → addr + 16 ≤ a
    → a + 8 ≤ addr + size
    → (leb b.addr a && leb a (b.addr + b.size)) ≡ false
cell-outside b addr size a (inl h) p q = ground arith
cell-outside b addr size a (inr h) p q = ground arith

first_cell-outside :
    (b : Block) (addr size t : ℕ) (xs : List Alloc) (below : Option ℕ)
    → Apart b (record { addr = addr; size = size })
    → Fits (addr + 16) (addr + size) xs
    → (below ≡ some t → (leb b.addr t && leb t (b.addr + b.size)) ≡ false)
    → first_cell xs below ≡ some t
    → (leb b.addr t && leb t (b.addr + b.size)) ≡ false
first_cell-outside b addr size t [] below a f rest e = rest e
first_cell-outside b addr size t (x ∷ xs) below a f rest e =
    let room = Fits-le (x.cell + 8 + x.size) (addr + size) xs f.2 in
    let same : x.cell ≡ t = cc in rw (← same) (cell-outside b addr size x.cell a f.0 (omega arith))

-- The last allocation of other blocks is not within a block that is apart from them.
pub top-outside :
    (b : Block) (ls : List Layer) (t : ℕ)
    → AllApart b (blocks ls)
    → AreLayers ls
    → top_of ls ≡ some t
    → (leb b.addr t && leb t (b.addr + b.size)) ≡ false
top-outside b [] t a g e = cc
top-outside b (l ∷ ls) t a g e =
    first_cell-outside b l.addr l.size t l.allocs (top_of ls) a.0 g.0.fits
      (top-outside b ls t a.1 g.2) e

top_ptr-allocs :
    (s : Heap) (addr size : ℕ) (xs : List Alloc) (below : Option ℕ)
    → HasHeader s addr size
    → Fits (addr + 16) (addr + size) xs
    → s.top ≡ first_cell xs below
    → ((t : ℕ) → below ≡ some t → (leb addr t && leb t (addr + size)) ≡ false)
    → top_ptr addr s ≡ ok (floor (addr + size) xs) s
unfolding top_ptr
top_ptr-allocs s addr size [] none (p, e) f top out = ground (arith, e)
top_ptr-allocs s addr size [] (some t) (p, e) f top out = ground (arith, e, out t refl)
top_ptr-allocs s addr size (x ∷ xs) below (p, e) f top out =
    ground (arith, e, Fits-le (x.cell + 8 + x.size) (addr + size) xs f.2)

pub top_ptr_lem :
    (s : Heap) (l : Layer) (ls : List Layer)
    → Holds s (l ∷ ls)
    → top_ptr l.addr s ≡ ok (floor (l.addr + l.size) l.allocs) s
top_ptr_lem s l ls h =
    top_ptr-allocs s l.addr l.size l.allocs (top_of ls) (_, h.words.0) h.layers.0.fits h.top
      (λ t. top-outside (block_of l) ls t h.layers.1 h.layers.2)
