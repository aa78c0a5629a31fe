-- ===== src/Allocator/Pop.antt =====
-- src/allocator.rs, `pop_dealloc`: the last allocation is taken off.
mod First
mod Old
use mathlib.Core.Path.{subst}
use reblessive.Base.{
  ℕ, ◌+◌, ◌-◌, ◌≡◌, ◌≢◌, refl, sym, ap, ◌∙◌, inl, inr, Bool, true, false, ◌&&◌, leb, Option, none,
  some, List, [], ◌∷◌, ◌++◌, arith, ok, List-cases,
}
use reblessive.Allocator.Memory.{Block, Heap, Words}
use reblessive.Allocator.Ops.{pop_dealloc, pop_old, within_block}
use reblessive.Allocator.Access.{read_back_lem}
use reblessive.Allocator.Layers.{
  Alloc, Layer, all, block_of, blocks, Fits, Fits-le, AreLayers, Holds, top_of, first_cell,
  first_addr,
}
use reblessive.Allocator.Push.Room.{within_block_lem, top-outside}
use First.{drop_first, Dropped, drop_first-Dropped}
use Old.{without_empty, pop_old_lem}

-- What a pop makes of the layers: the last allocation is taken off its block. If it was not on the
-- newest block, the block before that one is taken away as well when nothing is left on it.
unfoldable pub popped_layers : List Layer → List Layer
unfolding drop_first without_empty
popped_layers [] = []
popped_layers (l ∷ ls) = elim l.allocs [
  | [] ↦ l ∷ without_empty (drop_first ls)
  | x ∷ xs ↦ record l { allocs = xs } ∷ ls
]

-- The heap behind a pop that leaves the allocations `xs`; `Holds` has that the blocks which the
-- system still lends are those of the layers.
pub record Popped (s : Heap) (ls : List Layer) (xs : List Alloc) : Type 0 where
  pub after : Heap
  pub runs : pop_dealloc s ≡ ok tt after
  pub holds : Holds after (popped_layers ls)
  pub rest : all (popped_layers ls) ≡ xs

top-all :
    (ls : List Layer) (x : Alloc) (xs : List Alloc) → all ls ≡ x ∷ xs → top_of ls ≡ some x.cell
top-all [] x xs e = cc
top-all (l ∷ ls) x xs e = go l.allocs e (top-all ls x xs)
  where
    go :
        (ys : List Alloc)
        → (ys ++ all ls) ≡ x ∷ xs
        → (all ls ≡ x ∷ xs → top_of ls ≡ some x.cell)
        → first_cell ys (top_of ls) ≡ some x.cell
    go [] e' rest = rest e'
    go (y ∷ ys) e' rest = let same : y ≡ x = cc in ap (λ z. some z.cell) same

all-ne : (ls : List Layer) (x : Alloc) (xs : List Alloc) → all ls ≡ x ∷ xs → first_addr ls ≢ none
all-ne [] x xs e = cc
all-ne (l ∷ ls) x xs e = cc

-- The heap when `top` is set back
abbrev stepped : Heap → List Layer → Heap
stepped s ls = record s { top = top_of (drop_first ls) }

stepped-Holds :
    (s : Heap) (ls : List Layer) (t : ℕ)
    → Holds s ls
    → Dropped s.words ls t
    → Holds (stepped s ls) (drop_first ls)
stepped-Holds s ls t h d = record {
  block = h.block ∙ sym d.first;
  top = refl;
  live = h.live ∙ sym d.same;
  layers = d.layers;
  words = d.words;
}

module _ (s : Heap) (l : Layer) (ls : List Layer) (t : ℕ) (h : Holds s (l ∷ ls))
    (at : top_of (l ∷ ls) ≡ some t) where
  dropped : Dropped s.words (l ∷ ls) t
  dropped = drop_first-Dropped s.words (l ∷ ls) t h.layers h.words at

  pop-inside :
      (leb l.addr t && leb t (l.addr + l.size)) ≡ true → pop_dealloc s ≡ ok tt (stepped s (l ∷ ls))
  unfolding pop_dealloc
  pop-inside inside = ground (
    arith,
    h.top,
    at,
    h.block,
    read_back_lem s t _ dropped.previous,
    within_block_lem (stepped s (l ∷ ls)) l.addr l.size t (_, h.words.0),
    inside,
  )

  pop-outside :
      (leb l.addr t && leb t (l.addr + l.size)) ≡ false
      → pop_dealloc s ≡ pop_old l.addr (stepped s (l ∷ ls))
  unfolding pop_dealloc
  pop-outside outside = ground (
    arith,
    h.top,
    at,
    h.block,
    read_back_lem s t _ dropped.previous,
    within_block_lem (stepped s (l ∷ ls)) l.addr l.size t (_, h.words.0),
    outside,
  )

tail-eq : (zs bs xs : List Alloc) (x y : Alloc) → zs ≡ x ∷ xs → zs ≡ y ∷ bs → bs ≡ xs
tail-eq zs bs xs x y e f = cc

-- The allocation is on the last block.
pop-used :
    (s : Heap) (addr size : ℕ) (y : Alloc) (ys : List Alloc) (ls : List Layer) (x : Alloc)
    (xs : List Alloc)
    → Holds s (record { addr = addr; size = size; allocs = y ∷ ys } ∷ ls)
    → all (record { addr = addr; size = size; allocs = y ∷ ys } ∷ ls) ≡ x ∷ xs
    → Popped s (record { addr = addr; size = size; allocs = y ∷ ys } ∷ ls) xs
unfolding popped_layers drop_first
pop-used s addr size y ys ls x xs h e =
    let l : Layer = record { addr = addr; size = size; allocs = y ∷ ys } in
    let d = dropped s l ls y.cell h refl in
    let fits = h.layers.0.fits in
    record {
      after = stepped s (l ∷ ls);
      runs =
          pop-inside s l ls y.cell h refl
            (ground (arith, fits.0, Fits-le (y.cell + 8 + y.size) (addr + size) ys fits.2));
      holds = stepped-Holds s (l ∷ ls) y.cell h d;
      rest = tail-eq _ _ xs x _ e d.popped.1;
    }

-- The allocation is on an older block.
pop-older :
    (s : Heap) (addr size : ℕ) (ls : List Layer) (x : Alloc) (xs : List Alloc)
    → Holds s (record { addr = addr; size = size; allocs = [] } ∷ ls)
    → all ls ≡ x ∷ xs
    → (ms : List Layer) → drop_first ls ≡ ms
    → Popped s (record { addr = addr; size = size; allocs = [] } ∷ ls) xs
unfolding drop_first popped_layers
pop-older s addr size ls x xs h e [] m =
    let d = drop_first-Dropped s.words ls x.cell h.layers.2 h.words.2 (top-all ls x xs e) in
    absurd (all-ne ls x xs e (sym d.first ∙ ap first_addr m))
pop-older s addr size ls x xs h e (p ∷ q) m =
    let l : Layer = record { addr = addr; size = size; allocs = [] } in
    let at = top-all ls x xs e in
    let d = dropped s l ls x.cell h at in
    let h₁ = stepped-Holds s (l ∷ ls) x.cell h d in
    let h₂ : Holds (stepped s (l ∷ ls)) (l ∷ p ∷ q) =
      subst (λ ns. Holds (stepped s (l ∷ ls)) (l ∷ ns)) m h₁ in
    let (after, keeps) = pop_old_lem (stepped s (l ∷ ls)) addr size p q h₂ in
    record {
      after = after;
      runs =
          pop-outside s l ls x.cell h at
            (top-outside (block_of l) ls x.cell h.layers.1 h.layers.2 at)
          ∙ keeps.0;
      holds = subst (λ ns. Holds after (l ∷ without_empty ns)) (sym m) keeps.1;
      rest =
          ap (λ ns. all (without_empty ns)) m
          ∙ keeps.2
          ∙ sym (ap all m)
          ∙ tail-eq _ _ xs x _ e d.popped.1;
    }

pop-layer :
    (s : Heap) (addr size : ℕ) (ys : List Alloc) (ls : List Layer) (x : Alloc) (xs : List Alloc)
    → Holds s (record { addr = addr; size = size; allocs = ys } ∷ ls)
    → all (record { addr = addr; size = size; allocs = ys } ∷ ls) ≡ x ∷ xs
    → Popped s (record { addr = addr; size = size; allocs = ys } ∷ ls) xs
pop-layer s addr size [] ls x xs h e = pop-older s addr size ls x xs h e (drop_first ls) refl
pop-layer s addr size (y ∷ ys) ls x xs h e = pop-used s addr size y ys ls x xs h e

pub pop_dealloc-Popped :
    (s : Heap) (ls : List Layer) (x : Alloc) (xs : List Alloc)
    → Holds s ls
    → all ls ≡ x ∷ xs
    → Popped s ls xs
pop_dealloc-Popped s [] x xs h e = cc
pop_dealloc-Popped s (l ∷ ls) x xs h e = pop-layer s l.addr l.size l.allocs ls x xs h e
