-- ===== src/Allocator/Writes.antt =====
-- src/allocator.rs: what the user writes to an allocation, in `alloc_with` or later.
use reblessive.Base.{
  ℕ, ◌+◌, ◌≤◌, ◌≡◌, ◌⊎◌, inl, inr, true, Option, List, [], ◌∷◌, ◌++◌, arith, ok, ap,
}
use reblessive.Allocator.Memory.{Block, Words, Heap, AllApart, clobber, in_live, store_value}
use reblessive.Allocator.Layers.{
  Alloc, Layer, all, block_of, blocks, Fits, AreLayers, BackWords, LayerWords, Holds, Fits-le,
  BackWords-Same, Same-clobber, LayerWords-apart,
}
use reblessive.Allocator.Layers.Bytes.{in_live-here, in_live-there}

-- The allocation is one of those in the list.
abbrev pub Has : Alloc → List Alloc → Type 0
Has x [] = ⊥
Has x (y ∷ ys) = (x ≡ y) ⊎ Has x ys

Has-append : (x : Alloc) (ys zs : List Alloc) → Has x (ys ++ zs) → Has x ys ⊎ Has x zs
Has-append x [] zs h = inr h
Has-append x (y ∷ ys) zs (inl e) = inl (inl e)
Has-append x (y ∷ ys) zs (inr h) = elim (Has-append x ys zs h) [
  | inl m ↦ inl (inr m)
  | inr m ↦ inr m
]

Has-Fits :
    (x : Alloc) (lo hi : ℕ) (ys : List Alloc)
    → Fits lo hi ys
    → Has x ys
    → (lo ≤ x.cell) × (x.cell + 8 + x.size ≤ hi)
Has-Fits x lo hi [] f h = absurd h
Has-Fits x lo hi (y ∷ ys) f (inl e) = rw e (f.0, Fits-le (y.cell + 8 + y.size) hi ys f.2)
Has-Fits x lo hi (y ∷ ys) f (inr h) =
    let (p, q) = Has-Fits x (y.cell + 8 + y.size) hi ys f.2 h in (omega (arith, f.0), q)

-- The words after a write to the bytes of an allocation
abbrev pub written : Alloc → Words → Words
written x w = clobber (x.cell + 8) x.size w

BackWords-written :
    (x : Alloc) (w : Words) (lo hi : ℕ) (ys : List Alloc) (below : Option ℕ)
    → Fits lo hi ys
    → Has x ys
    → BackWords w ys below
    → BackWords (written x w) ys below
BackWords-written x w lo hi [] below f h b = tt
BackWords-written x w lo hi (y ∷ ys) below f (inl e) b =
    let cell = ap (λ z. z.cell) e in
    let size = ap (λ z. z.size) e in
    (
      Same-clobber w (x.cell + 8) x.size y.cell (y.cell + 8) (inr (omega (arith, cell))) y.cell _
          (omega arith) (omega arith) b.0,
      BackWords-Same w (written x w) (y.cell + 8 + y.size) hi ys below f.2
          (Same-clobber w (x.cell + 8) x.size (y.cell + 8 + y.size) hi
            (inl (omega (arith, cell, size))))
          b.1,
    )
BackWords-written x w lo hi (y ∷ ys) below f (inr h) b =
    let (p, q) = Has-Fits x (y.cell + 8 + y.size) hi ys f.2 h in
    (
      Same-clobber w (x.cell + 8) x.size y.cell (y.cell + 8) (inr (omega arith)) y.cell _
          (omega arith) (omega arith) b.0,
      BackWords-written x w (y.cell + 8 + y.size) hi ys below f.2 h b.1,
    )

-- An allocation on one of the blocks is apart from every other block.
Has-apart :
    (x : Alloc) (b : Block) (ls : List Layer)
    → AllApart b (blocks ls)
    → AreLayers ls
    → Has x (all ls)
    → (x.cell + 8 + x.size ≤ b.addr) ⊎ (b.addr + b.size ≤ x.cell)
Has-apart x b [] a g h = absurd h
Has-apart x b (l ∷ ls) a g h = elim (Has-append x l.allocs (all ls) h) [
  | inl m ↦
      let (p, q) = Has-Fits x (l.addr + 16) (l.addr + l.size) l.allocs g.0.fits m in
      elim a.0 [ inl r ↦ inr (omega arith) | inr r ↦ inl (omega arith) ]
  | inr m ↦ Has-apart x b ls a.1 g.2 m
]

LayerWords-written :
    (x : Alloc) (w : Words) (ls : List Layer)
    → AreLayers ls
    → Has x (all ls)
    → LayerWords w ls
    → LayerWords (written x w) ls
LayerWords-written x w [] g h p = tt
LayerWords-written x w (l ∷ ls) g h p =
    let room = Fits-le (l.addr + 16) (l.addr + l.size) l.allocs g.0.fits in
    elim (Has-append x l.allocs (all ls) h) [
      | inl m ↦
          let (lo, hi) = Has-Fits x (l.addr + 16) (l.addr + l.size) l.allocs g.0.fits m in
          (
            Same-clobber w (x.cell + 8) x.size l.addr (l.addr + 16) (inr (omega arith)) l.addr _
                (omega arith) (omega arith) p.0,
            BackWords-written x w (l.addr + 16) (l.addr + l.size) l.allocs _ g.0.fits m p.1,
            LayerWords-apart w (written x w) (block_of l) ls g.2 g.1
                (λ a b out.
                  Same-clobber w (x.cell + 8) x.size a b
                    (elim out [ inl r ↦ inl (omega arith) | inr r ↦ inr (omega arith) ]))
                p.2,
          )
      | inr m ↦
          let same =
            Same-clobber w (x.cell + 8) x.size l.addr (l.addr + l.size)
              (elim (Has-apart x (block_of l) ls g.1 g.2 m) [
                | inl r ↦ inl (omega arith)
                | inr r ↦ inr (omega arith)
              ]) in
          (
            same l.addr _ (omega arith) room p.0,
            BackWords-Same w (written x w) (l.addr + 16) (l.addr + l.size) l.allocs _ g.0.fits
                (λ a v q r. same a v (omega arith) r) p.1,
            LayerWords-written x w ls g.2 m p.2,
          )
    ]

in_live-written :
    (x : Alloc) (ls : List Layer)
    → AreLayers ls
    → Has x (all ls)
    → in_live (x.cell + 8) x.size (blocks ls) ≡ true
in_live-written x [] g h = absurd h
in_live-written x (l ∷ ls) g h = elim (Has-append x l.allocs (all ls) h) [
  | inl m ↦
      let (p, q) = Has-Fits x (l.addr + 16) (l.addr + l.size) l.allocs g.0.fits m in
      in_live-here (x.cell + 8) x.size (block_of l) (blocks ls) (omega arith) q
  | inr m ↦ in_live-there (x.cell + 8) x.size (block_of l) (blocks ls) (in_live-written x ls g.2 m)
]

-- Writing all bytes of a live allocation is a write to memory that the allocator owns, and keeps
-- every header, every back pointer and every allocation.
pub store_value-Holds :
    (s : Heap) (ls : List Layer) (x : Alloc)
    → Holds s ls
    → Has x (all ls)
    → (after : Heap) × (store_value (x.cell + 8) x.size s ≡ ok tt after) × Holds after ls
unfolding store_value
store_value-Holds s ls x h m = (
  record s { words = written x s.words },
  ground (arith, h.live, in_live-written x ls h.layers m),
  record {
    block = h.block;
    top = h.top;
    live = h.live;
    layers = h.layers;
    words = LayerWords-written x s.words ls h.layers m h.words;
  },
)
