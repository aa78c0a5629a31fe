-- ===== src/Allocator/Push/Place.antt =====
-- The new allocation in the free space of the last block.
use reblessive.Base.{
  refl, ℕ, ◌+◌, ◌-◌, ◌*◌, ◌%◌, ◌≤◌, ◌≡◌, ◌⊎◌, inl, inr, true, some, List, [], ◌∷◌, arith, ok, max,
}
use reblessive.Allocator.Layout.{
  Layout, IsLayout, alloc_size, align_down, max-align, align_down_lem, minimum_align,
}
use reblessive.Allocator.Memory.{Block, header, back, Words, Heap, put, in_live}
use reblessive.Allocator.Ops.{place_below}
use reblessive.Allocator.Layers.{
  Alloc, Layer, block_of, blocks, Fits, Fits-floor, Fits-raise, floor, IsLayer, LayerWords,
  BackWords, BackWords-Same, LayerWords-Same, AllSame-apart, Same-put, Holds, top_of, first_cell,
  first_addr,
}

-- The arithmetic of `alloc_layout`: below an aligned address with enough room there are an aligned
-- allocation and, in front of it, its back pointer, behind the header of the block.
pub record IsPlace (base top : ℕ) (layout : Layout) (cell : ℕ) : Type 0 where
  pub res : align_down (top - layout.size) (max layout.align minimum_align) ≡ cell + 8
  pub above : base + 16 ≤ cell
  pub below : cell + 8 + layout.size ≤ top
  pub aligned : cell % 8 ≡ 0
  pub multiple : (m : ℕ) × (cell + 8 ≡ max layout.align minimum_align * m)

pub place :
    (layout : Layout) (base top n : ℕ)
    → IsLayout layout
    → alloc_size layout ≡ some n
    → base % 8 ≡ 0
    → top % 8 ≡ 0
    → 16 ≤ top - n - base
    → (cell : ℕ) × IsPlace base top layout cell
unfolding alloc_size
place layout base top n is e b t room =
    let (c, m, pos) = max-align layout is in
    let (q, p, lower, upper) = align_down_lem (top - layout.size) c pos in
    let size : n ≡ layout.size + ((layout.align - 8) + 8) = ground arith in
    (
      8 * (c * q) - 8,
      record {
        res = rw m (rw p (omega arith));
        above = omega arith;
        below = omega arith;
        aligned = omega arith;
        multiple = (q, rw m (grind arith));
      },
    )

-- A layer with one more allocation
abbrev pub push_alloc : Layer → Alloc → Layer
push_alloc l x = record l { allocs = x ∷ l.allocs }

pub record Placed (s : Heap) (l : Layer) (ls : List Layer) (layout : Layout) : Type 0 where
  pub after : Heap
  pub cell : ℕ
  pub runs : place_below layout (floor (l.addr + l.size) l.allocs) s ≡ ok (cell + 8) after
  pub holds : Holds after (push_alloc l (record { cell = cell; size = layout.size }) ∷ ls)
  pub multiple : (m : ℕ) × (cell + 8 ≡ max layout.align minimum_align * m)

floor-aligned : (lo hi : ℕ) (xs : List Alloc) → Fits lo hi xs → hi % 8 ≡ 0 → floor hi xs % 8 ≡ 0
floor-aligned lo hi [] f h = h
floor-aligned lo hi (x ∷ xs) f h = f.1

pub in_live-first :
    (a n addr size : ℕ) (bs : List Block)
    → addr ≤ a
    → a + n ≤ addr + size
    → in_live a n (record { addr = addr; size = size } ∷ bs) ≡ true
unfolding in_live
in_live-first a n addr size bs p q = ground arith

-- What is apart from a block is apart from the bytes on it.
pub apart-cell :
    (addr size a lo hi : ℕ)
    → addr ≤ a
    → a + 8 ≤ addr + size
    → (addr + size ≤ lo) ⊎ (hi ≤ addr)
    → (a + 8 ≤ lo) ⊎ (hi ≤ a)
apart-cell addr size a lo hi p q (inl h) = inl (omega arith)
apart-cell addr size a lo hi p q (inr h) = inr (omega arith)

pub place_below-runs :
    (layout : Layout) (top cell addr size : ℕ) (bs : List Block) (s : Heap)
    → align_down (top - layout.size) (max layout.align minimum_align) ≡ cell + 8
    → s.live ≡ record { addr = addr; size = size } ∷ bs
    → addr ≤ cell
    → cell + 8 ≤ addr + size
    → place_below layout top s
      ≡ ok (cell + 8) (record s { words = put cell (back s.top) s.words; top = some cell })
unfolding place_below
place_below-runs layout top cell addr size bs s e live p q =
    let minus : cell + 8 - 8 ≡ cell = omega arith in
    ground (arith, e, minus, in_live-first cell 8 addr size bs p q)

pub place_below_lem :
    (s : Heap) (l : Layer) (ls : List Layer) (layout : Layout) (n : ℕ)
    → Holds s (l ∷ ls)
    → IsLayout layout
    → alloc_size layout ≡ some n
    → 16 ≤ floor (l.addr + l.size) l.allocs - n - l.addr
    → Placed s l ls layout
unfolding put
place_below_lem s l ls layout n h is e room = record {
  after = record s { words = w; top = some cell };
  cell = cell;
  runs =
      place_below-runs layout top cell l.addr l.size (blocks ls) s at.res h.live
        (omega (arith, at.above)) (omega (arith, at.below, ends.1));
  holds = record {
    block = h.block;
    top = refl;
    live = h.live;
    layers = (
      record {
        aligned = layer.aligned;
        whole = layer.whole;
        bounded = layer.bounded;
        fits = (
          at.above,
          at.aligned,
          Fits-raise (l.addr + 16) (cell + 8 + layout.size) (l.addr + l.size) l.allocs at.below
              layer.fits,
        );
      },
      h.layers.1,
      h.layers.2,
    );
    words = (old_header, (new_back, old_backs), others);
  };
  multiple = at.multiple;
}
  where
    layer : IsLayer l
    layer = h.layers.0

    top : ℕ
    top = floor (l.addr + l.size) l.allocs

    ends :
        (l.addr + 16 ≤ floor (l.addr + l.size) l.allocs)
        × (floor (l.addr + l.size) l.allocs ≤ l.addr + l.size)
    ends = Fits-floor (l.addr + 16) (l.addr + l.size) l.allocs layer.fits

    placed : (cell : ℕ) × IsPlace l.addr (floor (l.addr + l.size) l.allocs) layout cell
    placed =
        place layout l.addr (floor (l.addr + l.size) l.allocs) n is e layer.aligned
          (floor-aligned (l.addr + 16) (l.addr + l.size) l.allocs layer.fits
            (omega (arith, layer.aligned, layer.whole)))
          room

    cell : ℕ
    cell = placed.0

    at : IsPlace l.addr (floor (l.addr + l.size) l.allocs) layout cell
    at = placed.1

    w : Words
    w = put cell (back s.top) s.words

    above : Fits (cell + 8 + layout.size) (l.addr + l.size) l.allocs
    above =
        Fits-raise (l.addr + 16) (cell + 8 + layout.size) (l.addr + l.size) l.allocs at.below
          layer.fits

    old_header :
        w l.addr ≡ some (header (record { previous = first_addr ls; last = l.addr + l.size }))
    old_header =
        Same-put s.words cell (back s.top) l.addr (l.addr + 16) (inr at.above) l.addr _
          (omega arith) (omega arith) h.words.0

    new_back : w cell ≡ some (back (first_cell l.allocs (top_of ls)))
    new_back = ground (arith, h.top)

    old_backs : BackWords w l.allocs (top_of ls)
    old_backs =
        BackWords-Same s.words w (cell + 8 + layout.size) (l.addr + l.size) l.allocs (top_of ls)
          above
          (Same-put s.words cell (back s.top) (cell + 8 + layout.size) (l.addr + l.size)
            (inl (omega arith)))
          h.words.1

    others : LayerWords w ls
    others =
        LayerWords-Same s.words w ls h.layers.2
          (AllSame-apart s.words w (block_of l) ls h.layers.1 (λ lo hi apart.
            Same-put s.words cell (back s.top) lo hi (
              apart-cell l.addr l.size cell lo hi (omega (arith, at.above))
                (omega (arith, at.below, ends.1)) apart)))
          h.words.2
