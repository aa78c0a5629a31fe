-- ===== src/Allocator/Pop/Old.antt =====
-- The block before the last one goes back to the system when nothing is left on it.
use mathlib.Core.Path.{subst}
use reblessive.Base.{
  Option-cases, List-cases, refl, ap, ◌∙◌, ℕ, ◌+◌, ◌-◌, ◌<◌, ◌≤◌, ◌≡◌, ◌⊎◌, inl, inr, true, false,
  Option, some, List, [], ◌∷◌, arith, ok,
}
use reblessive.Allocator.Memory.{
  Block, Word, header, Words, Heap, Apart, put, clobber, remove, dealloc,
}
use reblessive.Allocator.Ops.{pop_old, keeps_block, unlink_block, dealloc_old_block}
use reblessive.Allocator.Access.{read_header_lem, store_lem, put_self}
use reblessive.Allocator.Push.Place.{in_live-first}
use reblessive.Allocator.Push.Room.{within_block_lem, top-outside}
use reblessive.Allocator.Layers.{
  Alloc, Layer, all, block_of, blocks, Fits, Fits-le, LayerWords-apart, put-SameOutside,
  SameOutside, Same-clobber, Holds, top_of, first_cell, first_addr,
}

remove-second :
    (b c : Block) (bs : List Block)
    → Apart b c
    → 0 < b.size
    → 0 < c.size
    → remove c.addr c.size (b ∷ c ∷ bs) ≡ some (b ∷ bs)
unfolding remove
remove-second b c bs (inl h) p q = ground arith
remove-second b c bs (inr h) p q = ground arith

dealloc_lem :
    (s : Heap) (b c : Block) (bs : List Block)
    → s.live ≡ b ∷ c ∷ bs
    → Apart b c
    → 0 < b.size
    → 0 < c.size
    → dealloc c.addr c.size s
      ≡ ok tt (record s { words = clobber c.addr c.size s.words; live = b ∷ bs })
unfolding dealloc
dealloc_lem s b c bs e a p q = ground (arith, e, remove-second b c bs a p q)

pub dealloc_old_block_lem :
    (s : Heap) (b c : Block) (bs : List Block) (previous : Option ℕ)
    → s.live ≡ b ∷ c ∷ bs
    → Apart b c
    → 0 < b.size
    → 0 < c.size
    → s.words c.addr ≡ some (header (record { previous = previous; last = c.addr + c.size }))
    → dealloc_old_block c.addr s
      ≡ ok tt (record s { words = clobber c.addr c.size s.words; live = b ∷ bs })
unfolding dealloc_old_block
dealloc_old_block_lem s b c bs previous e a p q h =
    let minus : c.addr + c.size - c.addr ≡ c.size = omega arith in
    ground (arith, read_header_lem s c.addr _ h, minus, dealloc_lem s b c bs e a p q)

flip-or : {A B : Type 0} → A ⊎ B → B ⊎ A
flip-or (inl a) = inr a
flip-or (inr b) = inl b

-- The layers without the first one, if nothing is on that
unfoldable pub without_empty : List Layer → List Layer
without_empty [] = []
without_empty (p ∷ q) = elim p.allocs [ [] ↦ q | x ∷ xs ↦ p ∷ q ]

without_empty-free : (p : Layer) (q : List Layer) → p.allocs ≡ [] → without_empty (p ∷ q) ≡ q
unfolding without_empty
without_empty-free p q free = rw free refl

without_empty-used :
    (p : Layer) (q : List Layer) (x : Alloc) (xs : List Alloc)
    → p.allocs ≡ x ∷ xs
    → without_empty (p ∷ q) ≡ p ∷ q
unfolding without_empty
without_empty-used p q x xs used = ground (arith, used)

-- The block behind the last one is taken out of the chain.
module _ (s : Heap) (addr size : ℕ) (p : Layer) (q : List Layer)
    (h : Holds s (record { addr = addr; size = size; allocs = [] } ∷ p ∷ q)) where
  abbrev newest : Layer
  newest = record { addr = addr; size = size; allocs = [] }

  abbrev relinked : Word
  relinked = header (record { previous = first_addr q; last = addr + size })

  abbrev linked_words : Words
  linked_words = put addr relinked s.words

  abbrev unlinked : Heap
  unlinked = record s {
    words = clobber p.addr p.size linked_words;
    live = block_of newest ∷ blocks q;
  }

  room : addr + 16 ≤ addr + size
  room = h.layers.0.fits

  old_room : p.addr + 16 ≤ p.addr + p.size
  old_room = Fits-le (p.addr + 16) (p.addr + p.size) p.allocs h.layers.2.0.fits

  outside : SameOutside s.words linked_words (block_of newest)
  outside = put-SameOutside s.words addr relinked (block_of newest) (omega arith) room

  flipped : (p.addr + p.size ≤ addr) ⊎ (addr + size ≤ p.addr)
  flipped = flip-or h.layers.1.0

  -- The header of the old block stands when the link to it is gone.
  old_header :
      linked_words p.addr
      ≡ some (header (record { previous = first_addr q; last = p.addr + p.size }))
  old_header =
      outside p.addr (p.addr + p.size) h.layers.1.0 p.addr _ (omega arith) old_room h.words.2.0

  unlinked-Holds : p.allocs ≡ [] → Holds unlinked (newest ∷ q)
  unlinked-Holds free = record {
    block = h.block;
    top = h.top ∙ ap (λ xs. first_cell xs (top_of q)) free;
    live = refl;
    layers = (h.layers.0, h.layers.1.1, h.layers.2.2);
    words = (
      Same-clobber linked_words p.addr p.size addr (addr + size) flipped addr _ (omega arith) room
          (put_self s.words addr relinked),
      tt,
      LayerWords-apart linked_words (clobber p.addr p.size linked_words) (block_of p) q h.layers.2.2
          h.layers.2.1 (Same-clobber linked_words p.addr p.size)
          (LayerWords-apart s.words linked_words (block_of newest) q h.layers.2.2 h.layers.1.1
            outside h.words.2.2),
    );
  }

  abbrev KeepsAll : Heap → List Layer → Type 0
  KeepsAll after ls = (pop_old addr s ≡ ok tt after) × Holds after ls × (all ls ≡ all (p ∷ q))

  linked : Heap
  linked = record s { words = linked_words }

  unlink_block-runs :
      unlink_block addr (record { previous = some p.addr; last = addr + size }) p.addr s
      ≡ ok tt unlinked
  unfolding unlink_block linked
  unlink_block-runs = ground (
    arith,
    read_header_lem s p.addr _ h.words.2.0,
    h.live,
    store_lem s addr relinked
        (rw h.live (in_live-first addr 16 addr size (block_of p ∷ blocks q) (omega arith) room)),
    dealloc_old_block_lem linked (block_of newest) (block_of p) (blocks q) (first_addr q) h.live
        h.layers.1.0 (omega (arith, room)) (omega (arith, old_room)) old_header,
  )

  pop_old-free : p.allocs ≡ [] → keeps_block p.addr s ≡ ok false s → KeepsAll unlinked (newest ∷ q)
  unfolding pop_old
  pop_old-free free out = (
    ground (arith, read_header_lem s addr _ h.words.0, out, unlink_block-runs),
    unlinked-Holds free,
    rw free,
  )

  pop_old-used : keeps_block p.addr s ≡ ok true s → KeepsAll s (newest ∷ p ∷ q)
  unfolding pop_old
  pop_old-used inside = (ground (arith, read_header_lem s addr _ h.words.0, inside), h, refl)

  keeps_block-used :
      (x : Alloc) (xs : List Alloc) → p.allocs ≡ x ∷ xs → keeps_block p.addr s ≡ ok true s
  unfolding keeps_block
  keeps_block-used x xs used =
      let top : s.top ≡ some x.cell = h.top ∙ ap (λ ys. first_cell ys (top_of q)) used in
      let fits : Fits (p.addr + 16) (p.addr + p.size) (x ∷ xs) =
        subst (Fits (p.addr + 16) (p.addr + p.size)) used h.layers.2.0.fits in
      let below = Fits-le (x.cell + 8 + x.size) (p.addr + p.size) xs fits.2 in
      ground (arith, top, within_block_lem s p.addr p.size x.cell (_, h.words.2.0), fits.0, below)

  keeps_block-free : p.allocs ≡ [] → keeps_block p.addr s ≡ ok false s
  unfolding keeps_block
  keeps_block-free free =
      let top : s.top ≡ top_of q = h.top ∙ ap (λ ys. first_cell ys (top_of q)) free in
      elim (Option-cases (top_of q)) [
        | inl nothing ↦ ground (arith, top, nothing)
        | inr (t, e) ↦ ground (
          arith,
          top,
          e,
          within_block_lem s p.addr p.size t (_, h.words.2.0),
          top-outside (block_of p) q t h.layers.2.1 h.layers.2.2 e,
        )
      ]

  -- The old block is kept or not, by what is on it; no allocation is lost.
  pub pop_old_lem : (after : Heap) × KeepsAll after (newest ∷ without_empty (p ∷ q))
  pop_old_lem = elim (List-cases p.allocs) [
    | inl free ↦
        (unlinked, rw (without_empty-free p q free) (pop_old-free free (keeps_block-free free)))
    | inr (x, xs, used) ↦
        (s, rw (without_empty-used p q x xs used) (pop_old-used (keeps_block-used x xs used)))
  ]
