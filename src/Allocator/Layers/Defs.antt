-- ===== src/Allocator/Layers/Defs.antt =====
-- The layers, and the heaps that hold them.
use reblessive.Base.{ℕ, ◌+◌, ◌%◌, ◌^◌, ◌<◌, ◌≤◌, ◌≡◌, Option, none, some, List, [], ◌∷◌, ◌++◌}
use reblessive.Allocator.Memory.{Block, header, back, Words, Heap, AllApart}

-- An allocation: the address of its back pointer, and its size. The bytes of the user begin 8 bytes
-- behind the back pointer.
pub record Alloc : Type 0 where
  pub cell : ℕ
  pub size : ℕ

-- A block with the allocations on it, the last one, which has the lowest address, first
pub record Layer : Type 0 where
  pub addr : ℕ
  pub size : ℕ
  pub allocs : List Alloc

-- The allocations, the last one first: what the allocator promises to keep
abbrev pub all : List Layer → List Alloc
all [] = []
all (l ∷ ls) = l.allocs ++ all ls

abbrev pub block_of : Layer → Block
block_of l = record { addr = l.addr; size = l.size }

abbrev pub blocks : List Layer → List Block
blocks [] = []
blocks (l ∷ ls) = block_of l ∷ blocks ls

abbrev pub first_addr : List Layer → Option ℕ
first_addr [] = none
first_addr (l ∷ ls) = some l.addr

-- The last allocation of a list of them, or else what comes behind
abbrev pub first_cell : List Alloc → Option ℕ → Option ℕ
first_cell [] below = below
first_cell (x ∷ xs) below = some x.cell

abbrev pub top_of : List Layer → Option ℕ
top_of [] = none
top_of (l ∷ ls) = first_cell l.allocs (top_of ls)

-- The allocations lie between two addresses, one behind the other and aligned, each with its back
-- pointer in front.
abbrev pub Fits : ℕ → ℕ → List Alloc → Type 0
Fits lo hi [] = lo ≤ hi
Fits lo hi (x ∷ xs) = (lo ≤ x.cell) × (x.cell % 8 ≡ 0) × Fits (x.cell + 8 + x.size) hi xs

-- Where the free space of a block ends
abbrev pub floor : ℕ → List Alloc → ℕ
floor hi [] = hi
floor hi (x ∷ xs) = x.cell

-- A block is aligned, and its allocations are behind its header.
pub record IsLayer (l : Layer) : Type 0 where
  pub aligned : l.addr % 8 ≡ 0
  pub whole : l.size % 8 ≡ 0
  pub bounded : l.addr + l.size < 2 ^ 64
  pub fits : Fits (l.addr + 16) (l.addr + l.size) l.allocs

abbrev pub AreLayers : List Layer → Type 0
AreLayers [] = Unit
AreLayers (l ∷ ls) = IsLayer l × AllApart (block_of l) (blocks ls) × AreLayers ls

-- The back pointer of each allocation holds the top from before it.
abbrev pub BackWords : Words → List Alloc → Option ℕ → Type 0
BackWords w [] below = Unit
BackWords w (x ∷ xs) below = (w x.cell ≡ some (back (first_cell xs below))) × BackWords w xs below

abbrev pub LayerWords : Words → List Layer → Type 0
LayerWords w [] = Unit
LayerWords w (l ∷ ls) =
    (w l.addr ≡ some (header (record { previous = first_addr ls; last = l.addr + l.size })))
    × BackWords w l.allocs (top_of ls)
    × LayerWords w ls

-- The heap holds the layers.
pub record Holds (s : Heap) (ls : List Layer) : Type 0 where
  pub block : s.block ≡ first_addr ls
  pub top : s.top ≡ top_of ls
  pub live : s.live ≡ blocks ls
  pub layers : AreLayers ls
  pub words : LayerWords s.words ls
