-- ===== src/Allocator/Ops.antt =====
-- src/allocator.rs: `StackAllocator`, over the memory of the system.
use reblessive.Base.{
  ℕ, zero, suc, ◌+◌, ◌-◌, max, Bool, false, ◌&&◌, Option, none, some, [], ◌∷◌, ltb, leb, ◌==◌,
  if◌then◌else◌, Cmd, ok, panicked, out_of_fuel, pure, ◌>>=◌, ◌>>◌, unwrap, unwrap_none, assertion,
  overflow,
}
use reblessive.Allocator.Layout.{
  Layout, alloc_size, align_down, next_power_of_two, checked_add, minimum_align, back_pointer_size,
  header_size, isize_max,
}
use reblessive.Allocator.Memory.{
  BlockHeader, header, back, Heap, SystemAlloc, store, store_value, read_header, read_back, dealloc,
  clobber,
}

abbrev pub get : Cmd Heap Heap
get s = ok s s

-- `StackAllocator::new`
abbrev pub empty : Heap
empty = record { block = none; top = none; words = λ _. none; live = [] }

-- `StackAllocator::top`
abbrev pub top_addr : Heap → Option ℕ
top_addr s = elim s.top [ none ↦ none | some t ↦ some (t + back_pointer_size) ]

-- `StackAllocator::block_size`
unfoldable pub block_size : ℕ → Cmd Heap ℕ
unfolding read_header
block_size block = do h ← read_header block; pure (h.last - block)

-- `StackAllocator::within_block`; both ends of the range belong to it.
unfoldable pub within_block : ℕ → ℕ → Cmd Heap Bool
unfolding block_size
within_block block addr = do
  size ← block_size block
  pure (leb block addr && leb addr (block + size))

-- `StackAllocator::dealloc_old_block`
unfoldable pub dealloc_old_block : ℕ → Cmd Heap (Unit {0})
unfolding read_header dealloc
dealloc_old_block ptr = do h ← read_header ptr; dealloc ptr (h.last - ptr)

abbrev or_overflow : Option ℕ → Cmd Heap ℕ
or_overflow none s = panicked overflow
or_overflow (some n) s = ok n s

-- Where the free space of the block ends: at the last allocation if that is on the block, else at
-- the end of the block.
unfoldable pub top_ptr : ℕ → Cmd Heap ℕ
unfolding read_header within_block
top_ptr block s = elim s.top [
  | none ↦ (do h ← read_header block; pure h.last) s
  | some x ↦
      (do inside ← within_block block x; h ← read_header block; pure (if inside then x else h.last))
        s
]

-- The end of `StackAllocator::alloc_layout`, behind the search for space
unfoldable pub place_below : Layout → ℕ → Cmd Heap ℕ
unfolding align_down store
place_below layout top s =
    let align : ℕ = max layout.align minimum_align in
    let res : ℕ = align_down (top - layout.size) align in
    let new_top : ℕ = res - back_pointer_size in
    (do store new_top (back s.top); (λ s. ok tt (record s { top = some new_top })); pure res) s

module _ (sys : SystemAlloc) where
  -- `StackAllocator::alloc_new_block`, behind its assertion
  unfoldable pub take_block : ℕ → Cmd Heap ℕ
  unfolding store
  take_block size s =
      let ptr : ℕ = sys.alloc s.live size in
      if ptr == 0
      then panicked unwrap_none
      else (do store ptr (header (record { previous = none; last = ptr + size })); pure ptr)
          (record s {
            words = clobber ptr size s.words;
            live = record { addr = ptr; size = size } ∷ s.live;
          })

  -- `StackAllocator::alloc_new_block`
  unfoldable pub alloc_new_block : ℕ → Cmd Heap ℕ
  alloc_new_block size s = if ltb size isize_max then take_block size s else panicked assertion

  -- `StackAllocator::grow_initial`
  unfoldable pub grow_initial : Layout → Cmd Heap ℕ
  grow_initial layout = do
    size ← unwrap (alloc_size layout)
    required_size ← or_overflow (checked_add size header_size)
    new_alloc_size ← or_overflow (next_power_of_two required_size)
    block ← alloc_new_block new_alloc_size
    (λ s. ok tt (record s { block = some block }))
    pure block

  -- `StackAllocator::grow_alloc_new_top`
  unfoldable pub grow_alloc_new_top : Layout → Cmd Heap ℕ
  grow_alloc_new_top layout = do
    required_size ← unwrap (alloc_size layout)
    s ← get
    old_block ← unwrap s.block
    old_size ← block_size old_block
    sum ← unwrap (checked_add old_size required_size)
    new_alloc_size ← or_overflow (next_power_of_two sum)
    block ← alloc_new_block new_alloc_size
    h ← read_header block
    store block (header (record h { previous = some old_block }))
    (λ s. ok tt (record s { block = some block }))
    new ← read_header block
    pure new.last

  -- The block to allocate on
  unfoldable pub current_block : Layout → Cmd Heap ℕ
  current_block layout s = elim s.block [ some b ↦ ok b s | none ↦ grow_initial layout s ]

  -- `StackAllocator::alloc_layout`; `-` is `saturating_sub`.
  unfoldable pub alloc_layout : Layout → Cmd Heap ℕ
  alloc_layout layout = do
    block ← current_block layout
    top ← top_ptr block
    size ← unwrap (alloc_size layout)
    let remaining = top - size - block
    top' ← (if ltb remaining header_size then grow_alloc_new_top layout else pure top)
    place_below layout top'

  -- `StackAllocator::alloc_with`: the value is written to the new allocation.
  unfoldable pub alloc_with : Layout → Cmd Heap ℕ
  alloc_with layout = do ptr ← alloc_layout layout; store_value ptr layout.size; pure ptr

-- The end of `StackAllocator::pop_dealloc`, in three parts. The new top is on the block before the
-- last one:
unfoldable pub keeps_block : ℕ → Cmd Heap Bool
keeps_block old_block s = elim s.top [ none ↦ ok false s | some x ↦ within_block old_block x s ]

-- the block before the last one is taken out of the chain and goes back to the system:
unfoldable pub unlink_block : ℕ → BlockHeader → ℕ → Cmd Heap (Unit {0})
unlink_block block h old_block = do
  old ← read_header old_block
  store block (header (record h { previous = old.previous }))
  dealloc_old_block old_block

-- and this is done if the new top is not on it.
unfoldable pub pop_old : ℕ → Cmd Heap (Unit {0})
pop_old block = do
  h ← read_header block
  old_block ← unwrap h.previous
  keep ← keeps_block old_block
  if keep then pure tt else unlink_block block h old_block

-- `StackAllocator::pop_dealloc`
unfoldable pub pop_dealloc : Cmd Heap (Unit {0})
pop_dealloc = do
  s ← get
  top ← unwrap s.top
  block ← unwrap s.block
  prev ← read_back top
  (λ s. ok tt (record s { top = prev }))
  inside ← within_block block top
  if inside then pure tt else pop_old block

-- The loop of `StackAllocator::drop`
unfoldable pub drop_from : ℕ → Option ℕ → Cmd Heap (Unit {0})
unfolding read_header dealloc_old_block
drop_from zero cur s = out_of_fuel
drop_from (suc n) cur s = elim cur [
  | none ↦ ok tt s
  | some b ↦ (do h ← read_header b; dealloc_old_block b; drop_from n h.previous) s
]

-- `StackAllocator::drop`
unfoldable pub drop : ℕ → Cmd Heap (Unit {0})
unfolding drop_from
drop fuel s = drop_from fuel s.block s
