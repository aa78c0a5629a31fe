-- ===== src/Allocator/Push/NewBlock.antt =====
-- The block that the system gives.
use reblessive.Base.{
  refl, ap, ℕ, ◌+◌, ◌-◌, ◌%◌, ◌^◌, ◌<◌, ◌≤◌, ◌≡◌, ◌≢◌, Option, none, some, List, [], ◌∷◌, arith, ok,
}
use reblessive.Allocator.Memory.{header, Words, Heap, AllApart, SystemAlloc, put, clobber}
use reblessive.Allocator.Ops.{take_block, alloc_new_block}
use reblessive.Allocator.Layers.{
  SameOutside, SameOutside-trans, put-SameOutside, LayerWords-apart, Layer, block_of, blocks,
  Same-clobber, Holds, first_addr,
}
use reblessive.Allocator.Push.Place.{in_live-first}

module _ (sys : SystemAlloc) where
  -- The block that the system gives
  abbrev pub new_layer : Heap → ℕ → Layer
  new_layer s size = record { addr = sys.alloc s.live size; size = size; allocs = [] }

  -- The words when the header of the new block is written
  pub new_words : Heap → ℕ → Option ℕ → Words
  new_words s size previous =
      put (sys.alloc s.live size)
        (header (record { previous = previous; last = sys.alloc s.live size + size }))
        (clobber (sys.alloc s.live size) size s.words)

  pub new_words-SameOutside :
      (s : Heap) (size : ℕ) (previous : Option ℕ)
      → 16 ≤ size
      → SameOutside s.words (new_words s size previous) (block_of (new_layer s size))
  unfolding new_words
  new_words-SameOutside s size previous big =
      SameOutside-trans s.words _ _ (block_of (new_layer s size)) (Same-clobber s.words _ size) (
        put-SameOutside _ (sys.alloc s.live size) _ (block_of (new_layer s size)) (omega arith)
          (omega arith))

  pub new_words-header :
      (s : Heap) (size : ℕ) (previous : Option ℕ)
      → new_words s size previous (sys.alloc s.live size)
        ≡ some (header (record { previous = previous; last = sys.alloc s.live size + size }))
  unfolding new_words put
  new_words-header s size previous = ground arith

  take_block_lem :
      (size : ℕ) (s : Heap)
      → 16 ≤ size
      → sys.alloc s.live size ≢ 0
      → take_block sys size s
        ≡ ok (sys.alloc s.live size) (record s {
          words = new_words s size none;
          live = block_of (new_layer s size) ∷ s.live;
        })
  unfolding take_block new_words
  take_block_lem size s big got = ground (
    arith,
    in_live-first (sys.alloc s.live size) 16 (sys.alloc s.live size) size s.live (omega arith)
        (omega arith),
  )

  pub alloc_new_block_lem :
      (size : ℕ) (s : Heap)
      → 16 ≤ size
      → size < 2 ^ 63 - 1
      → sys.alloc s.live size ≢ 0
      → alloc_new_block sys size s
        ≡ ok (sys.alloc s.live size) (record s {
          words = new_words s size none;
          live = block_of (new_layer s size) ∷ s.live;
        })
  unfolding alloc_new_block
  alloc_new_block_lem size s big small got = ground (arith, take_block_lem size s big got)

  -- The new block in front of the others
  pub Holds-new :
      (s : Heap) (size : ℕ) (ls : List Layer) (w : Words)
      → Holds s ls
      → size % 8 ≡ 0
      → 16 ≤ size
      → sys.alloc s.live size ≢ 0
      → SameOutside s.words w (block_of (new_layer s size))
      → w (sys.alloc s.live size)
        ≡ some (header (record { previous = first_addr ls; last = sys.alloc s.live size + size }))
      → Holds
          (record s {
            words = w;
            live = block_of (new_layer s size) ∷ s.live;
            block = some (sys.alloc s.live size);
          })
          (new_layer s size ∷ ls)
  Holds-new s size ls w h whole big got same head = record {
    block = refl;
    top = h.top;
    live = ap (λ bs. block_of (new_layer s size) ∷ bs) h.live;
    layers = (
      record {
        aligned = sys.aligned s.live size got;
        whole = whole;
        bounded = sys.fits s.live size got;
        fits = omega arith;
      },
      apart,
      h.layers,
    );
    words = (
      head,
      tt,
      LayerWords-apart s.words w (block_of (new_layer s size)) ls h.layers apart same h.words,
    );
  }
    where
      apart : AllApart (block_of (new_layer s size)) (blocks ls)
      apart = rw (← h.live) (sys.apart s.live size got)
