-- ===== src/Allocator/Layers/Bytes.antt =====
-- The bytes of the allocations, and the blocks that they lie in.
use reblessive.Base.{ℕ, ◌+◌, ◌≤◌, ◌≡◌, inl, inr, true, List, [], ◌∷◌, ◌++◌, arith}
use reblessive.Allocator.Memory.{Block, Heap, Apart, AllApart, in_live}
use reblessive.Allocator.Layers.Defs.{Alloc, Layer, all, block_of, blocks, Fits, AreLayers, Holds}
use reblessive.Allocator.Layers.Frame.{Fits-le}

-- The bytes of an allocation, with its back pointer
abbrev pub bytes : Alloc → Block
bytes x = record { addr = x.cell; size = 8 + x.size }

abbrev pub all_bytes : List Alloc → List Block
all_bytes [] = []
all_bytes (x ∷ xs) = bytes x ∷ all_bytes xs

-- No two of the allocations have a byte in common.
abbrev pub AreDisjoint : List Alloc → Type 0
AreDisjoint [] = Unit
AreDisjoint (x ∷ xs) = AllApart (bytes x) (all_bytes xs) × AreDisjoint xs

-- Each of the allocations lies in one of the blocks.
abbrev pub AreWithin : List Block → List Alloc → Type 0
AreWithin bs [] = Unit
AreWithin bs (x ∷ xs) = (in_live x.cell (8 + x.size) bs ≡ true) × AreWithin bs xs

-- An allocation of another block, behind those that are given
inside-Apart :
    (x : Alloc) (b c : Block) (lo : ℕ) (ys zs : List Alloc)
    → Apart b c
    → b.addr ≤ x.cell
    → x.cell + 8 + x.size ≤ b.addr + b.size
    → c.addr ≤ lo
    → Fits lo (c.addr + c.size) ys
    → AllApart (bytes x) (all_bytes zs)
    → AllApart (bytes x) (all_bytes (ys ++ zs))
inside-Apart x b c lo [] zs a p q r f rest = rest
inside-Apart x b c lo (y ∷ ys) zs a p q r f rest =
    let below = Fits-le (y.cell + 8 + y.size) (c.addr + c.size) ys f.2 in
    (
      elim a [ inl h ↦ inl (omega arith) | inr h ↦ inr (omega arith) ],
      inside-Apart x b c (y.cell + 8 + y.size) ys zs a p q (omega (arith, f.0)) f.2 rest,
    )

outside-Apart :
    (x : Alloc) (b : Block) (ls : List Layer)
    → AllApart b (blocks ls)
    → AreLayers ls
    → b.addr ≤ x.cell
    → x.cell + 8 + x.size ≤ b.addr + b.size
    → AllApart (bytes x) (all_bytes (all ls))
outside-Apart x b [] a g p q = tt
outside-Apart x b (l ∷ ls) a g p q =
    inside-Apart x b (block_of l) (l.addr + 16) l.allocs (all ls) a.0 p q (omega arith) g.0.fits
      (outside-Apart x b ls a.1 g.2 p q)

above-Apart :
    (x : Alloc) (lo hi : ℕ) (ys zs : List Alloc)
    → x.cell + 8 + x.size ≤ lo
    → Fits lo hi ys
    → AllApart (bytes x) (all_bytes zs)
    → AllApart (bytes x) (all_bytes (ys ++ zs))
above-Apart x lo hi [] zs p f rest = rest
above-Apart x lo hi (y ∷ ys) zs p f rest = (
  inl (omega (arith, f.0)),
  above-Apart x (y.cell + 8 + y.size) hi ys zs (omega (arith, f.0)) f.2 rest,
)

layer-AreDisjoint :
    (b : Block) (lo : ℕ) (ys : List Alloc) (ls : List Layer)
    → b.addr ≤ lo
    → Fits lo (b.addr + b.size) ys
    → AllApart b (blocks ls)
    → AreLayers ls
    → AreDisjoint (all ls)
    → AreDisjoint (ys ++ all ls)
layer-AreDisjoint b lo [] ls p f a g rest = rest
layer-AreDisjoint b lo (y ∷ ys) ls p f a g rest =
    let next = y.cell + 8 + y.size in
    let below = Fits-le next (b.addr + b.size) ys f.2 in
    (
      above-Apart y next (b.addr + b.size) ys (all ls) (omega arith) f.2
          (outside-Apart y b ls a g (omega (arith, f.0)) below),
      layer-AreDisjoint b next ys ls (omega (arith, f.0)) f.2 a g rest,
    )

all-AreDisjoint : (ls : List Layer) → AreLayers ls → AreDisjoint (all ls)
all-AreDisjoint [] g = tt
all-AreDisjoint (l ∷ ls) g =
    layer-AreDisjoint (block_of l) (l.addr + 16) l.allocs ls (omega arith) g.0.fits g.1 g.2
      (all-AreDisjoint ls g.2)

pub in_live-here :
    (a n : ℕ) (b : Block) (bs : List Block)
    → b.addr ≤ a
    → a + n ≤ b.addr + b.size
    → in_live a n (b ∷ bs) ≡ true
unfolding in_live
in_live-here a n b bs p q = ground arith

pub in_live-there :
    (a n : ℕ) (b : Block) (bs : List Block) → in_live a n bs ≡ true → in_live a n (b ∷ bs) ≡ true
unfolding in_live
in_live-there a n b bs e = ground (arith, e)

AreWithin-there :
    (b : Block) (bs : List Block) (xs : List Alloc) → AreWithin bs xs → AreWithin (b ∷ bs) xs
AreWithin-there b bs [] w = tt
AreWithin-there b bs (x ∷ xs) w =
    (in_live-there x.cell (8 + x.size) b bs w.0, AreWithin-there b bs xs w.1)

AreWithin-layer :
    (b : Block) (bs : List Block) (lo : ℕ) (ys zs : List Alloc)
    → b.addr ≤ lo
    → Fits lo (b.addr + b.size) ys
    → AreWithin (b ∷ bs) zs
    → AreWithin (b ∷ bs) (ys ++ zs)
AreWithin-layer b bs lo [] zs p f w = w
AreWithin-layer b bs lo (y ∷ ys) zs p f w =
    let below = Fits-le (y.cell + 8 + y.size) (b.addr + b.size) ys f.2 in
    (
      in_live-here y.cell (8 + y.size) b bs (omega (arith, f.0)) (omega arith),
      AreWithin-layer b bs (y.cell + 8 + y.size) ys zs (omega (arith, f.0)) f.2 w,
    )

all-AreWithin : (ls : List Layer) → AreLayers ls → AreWithin (blocks ls) (all ls)
all-AreWithin [] g = tt
all-AreWithin (l ∷ ls) g =
    AreWithin-layer (block_of l) (blocks ls) (l.addr + 16) l.allocs (all ls) (omega arith) g.0.fits
      (AreWithin-there (block_of l) (blocks ls) (all ls) (all-AreWithin ls g.2))

-- No two allocations that are live share a byte, back pointers included, and all of them lie in
-- blocks that the allocator has from the system.
pub Holds-AreDisjoint :
    (s : Heap) (ls : List Layer) → Holds s ls → AreDisjoint (all ls) × AreWithin s.live (all ls)
Holds-AreDisjoint s ls h = (all-AreDisjoint ls h.layers, rw h.live (all-AreWithin ls h.layers))
