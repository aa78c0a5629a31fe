-- ===== src/Allocator/Memory.antt =====
-- The memory that src/allocator.rs works on: blocks from the system, and in them the headers of the
-- blocks and the back pointers of the allocations. A read of anything else, a write outside of every
-- block and the return of a block that the system does not know are undefined behaviour.
use reblessive.Base.{
  ℕ, ◌+◌, ◌%◌, ◌^◌, ◌<◌, ◌≤◌, ◌≡◌, ◌≢◌, ◌⊎◌, Bool, true, false, ◌&&◌, Option, none, some, List, [],
  ◌∷◌, ltb, leb, ◌==◌, if◌then◌else◌, Cmd, ok, undefined,
}
use mathlib.Core.Option

-- A block from the system: its address and its size
pub record Block : Type 0 where
  pub addr : ℕ
  pub size : ℕ

-- `BlockHeader`
pub record BlockHeader : Type 0 where
  pub previous : Option ℕ
  pub last : ℕ

-- What the allocator itself keeps in memory: the header of a block, and in front of an allocation
-- the value of `top` from before
pub data Word : Type 0 where
  header : BlockHeader → Word
  back : Option ℕ → Word

abbrev pub width : Word → ℕ
width (header _) = 16
width (back _) = 8

abbrev pub Words : Type 0
Words = ℕ → Option Word

-- `StackAllocator`, with the memory: its words and the blocks that it has from the system, the last
-- one first
pub record Heap : Type 0 where
  pub block : Option ℕ
  pub top : Option ℕ
  pub words : Words
  pub live : List Block

-- The bytes from `a` to `a + n` and those from `b` to `b + m` have one in common.
abbrev pub overlaps : ℕ → ℕ → ℕ → ℕ → Bool
overlaps a n b m = ltb a (b + m) && ltb b (a + n)

-- Any write to the bytes from `a` to `a + n` destroys the words that it touches.
unfoldable pub clobber : ℕ → ℕ → Words → Words
clobber a n w x = elim (w x) [
  | none ↦ none
  | some v ↦ if overlaps a n x (width v) then none else some v
]

unfoldable pub put : ℕ → Word → Words → Words
unfolding clobber
put a v w x = if x == a then some v else clobber a (width v) w x

-- The bytes from `a` to `a + n` lie in one of the blocks.
unfoldable pub in_live : ℕ → ℕ → List Block → Bool
in_live a n [] = false
in_live a n (b ∷ bs) =
    if leb b.addr a && leb (a + n) (b.addr + b.size) then true else in_live a n bs

-- The list without a block, if it is there
unfoldable pub remove : ℕ → ℕ → List Block → Option (List Block)
remove addr size [] = none
remove addr size (b ∷ bs) =
    if b.addr == addr && b.size == size
    then some bs
    else Option.map (λ rest. b ∷ rest) (remove addr size bs)

-- `write`
unfoldable pub store : ℕ → Word → Cmd Heap (Unit {0})
unfolding put in_live
store a v s =
    if in_live a (width v) s.live then ok tt (record s { words = put a v s.words }) else undefined

-- A write of a value of the user, `n` bytes at `a`
unfoldable pub store_value : ℕ → ℕ → Cmd Heap (Unit {0})
unfolding clobber in_live
store_value a n s =
    if in_live a n s.live then ok tt (record s { words = clobber a n s.words }) else undefined

unfoldable pub read_header : ℕ → Cmd Heap BlockHeader
read_header a s = elim (s.words a) [
  | none ↦ undefined
  | some v ↦ elim v [ header h ↦ ok h s | back _ ↦ undefined ]
]

unfoldable pub read_back : ℕ → Cmd Heap (Option ℕ)
read_back a s = elim (s.words a) [
  | none ↦ undefined
  | some v ↦ elim v [ header _ ↦ undefined | back t ↦ ok t s ]
]

-- Two blocks have no byte in common.
abbrev pub Apart : Block → Block → Type 0
Apart a b = (a.addr + a.size ≤ b.addr) ⊎ (b.addr + b.size ≤ a.addr)

abbrev pub AllApart : Block → List Block → Type 0
AllApart b [] = Unit
AllApart b (c ∷ cs) = Apart b c × AllApart b cs

-- `std::alloc::alloc`, from the blocks that are in use and the size that is wanted, for the
-- alignment of `BlockHeader`. It returns null, 0, or a block that is aligned, ends within the
-- address space and has no byte in common with one in use.
pub record SystemAlloc : Type 0 where
  pub alloc : List Block → ℕ → ℕ
  pub aligned : (live : List Block) (size : ℕ) → alloc live size ≢ 0 → alloc live size % 8 ≡ 0
  pub fits : (live : List Block) (size : ℕ) → alloc live size ≢ 0 → alloc live size + size < 2 ^ 64
  pub apart :
      (live : List Block) (size : ℕ)
      → alloc live size ≢ 0
      → AllApart (record { addr = alloc live size; size = size }) live

-- `std::alloc::dealloc`
unfoldable pub dealloc : ℕ → ℕ → Cmd Heap (Unit {0})
unfolding clobber remove
dealloc addr size s = elim (remove addr size s.live) [
  | none ↦ undefined
  | some live ↦ ok tt (record s { words = clobber addr size s.words; live = live })
]
