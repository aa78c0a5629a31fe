-- ===== src/Allocator/Drop.antt =====
-- src/allocator.rs, `StackAllocator::drop`.
use reblessive.Base.{
  refl, ℕ, zero, suc, ◌+◌, ◌-◌, ◌<◌, ◌≡◌, Option, some, List, [], ◌∷◌, arith, ok, length,
}
use reblessive.Allocator.Memory.{Block, header, Heap, remove, dealloc, clobber}
use reblessive.Allocator.Ops.{drop, drop_from, dealloc_old_block}
use reblessive.Allocator.Access.{read_header_lem}
use reblessive.Allocator.Layers.{
  Layer, block_of, blocks, AreLayers, LayerWords, LayerWords-apart, Same-clobber, Holds, first_addr,
}

remove-first : (b : Block) (bs : List Block) → remove b.addr b.size (b ∷ bs) ≡ some bs
unfolding remove
remove-first b bs = ground arith

-- The heap without its last block
abbrev without : Heap → Block → List Block → Heap
without s b bs = record s { words = clobber b.addr b.size s.words; live = bs }

dealloc-first :
    (s : Heap) (b : Block) (bs : List Block) (p : Option ℕ)
    → s.live ≡ b ∷ bs
    → s.words b.addr ≡ some (header (record { previous = p; last = b.addr + b.size }))
    → dealloc_old_block b.addr s ≡ ok tt (without s b bs)
unfolding dealloc_old_block dealloc
dealloc-first s b bs p e h =
    let minus : b.addr + b.size - b.addr ≡ b.size = omega arith in
    ground (arith, read_header_lem s b.addr _ h, minus, e, remove-first b bs)

-- The loop returns, and leaves no block behind.
drop_from-empty :
    (n : ℕ) (s : Heap) (ls : List Layer)
    → length ls < n
    → s.live ≡ blocks ls
    → AreLayers ls
    → LayerWords s.words ls
    → (after : Heap) × (drop_from n (first_addr ls) s ≡ ok tt after) × (after.live ≡ [])
unfolding drop_from
drop_from-empty zero s ls m live g w = absurd (omega arith)
drop_from-empty (suc n) s [] m live g w = (s, refl, live)
drop_from-empty (suc n) s (l ∷ ls) m live g w =
    let b = block_of l in
    let s₁ = without s b (blocks ls) in
    let (after, runs, none_left) =
      drop_from-empty n s₁ ls (omega arith) refl g.2
        (LayerWords-apart s.words s₁.words b ls g.2 g.1 (Same-clobber s.words l.addr l.size) w.2) in
    (
      after,
      ground (
        arith,
        read_header_lem s l.addr _ w.0,
        dealloc-first s b (blocks ls) (first_addr ls) live w.0,
        runs,
      ),
      none_left,
    )

-- Dropping the allocator ends and gives every block back to the system, each with the size that it
-- was taken with.
pub drop-empty :
    (n : ℕ) (s : Heap) (ls : List Layer)
    → Holds s ls
    → length ls < n
    → (after : Heap) × (drop n s ≡ ok tt after) × (after.live ≡ [])
unfolding drop
drop-empty n s ls h m =
    let (after, runs, free) = drop_from-empty n s ls m h.live h.layers h.words in
    (after, ground (arith, h.block, runs), free)
