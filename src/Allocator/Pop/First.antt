-- ===== src/Allocator/Pop/First.antt =====
-- The layers without the last allocation.
use reblessive.Base.{refl, ap, ℕ, ◌+◌, ◌≡◌, some, List, [], ◌∷◌, ◌++◌, arith}
use reblessive.Allocator.Memory.{back, Words, AllApart}
use reblessive.Allocator.Layers.{
  Alloc, Layer, all, blocks, Fits-raise, Fits-floor, IsLayer, AreLayers, LayerWords, top_of,
  first_cell, first_addr,
}

unfoldable pub drop_first : List Layer → List Layer
drop_first [] = []
drop_first (l ∷ ls) = elim l.allocs [
  | [] ↦ l ∷ drop_first ls
  | x ∷ xs ↦ record l { allocs = xs } ∷ ls
]

-- What is left is as it was, and the back pointer holds the new top.
pub record Dropped (w : Words) (ls : List Layer) (t : ℕ) : Type 0 where
  pub same : blocks (drop_first ls) ≡ blocks ls
  pub first : first_addr (drop_first ls) ≡ first_addr ls
  pub layers : AreLayers (drop_first ls)
  pub words : LayerWords w (drop_first ls)
  pub previous : w t ≡ some (back (top_of (drop_first ls)))
  pub popped : (size : ℕ) × (all ls ≡ record { cell = t; size = size } ∷ all (drop_first ls))

Dropped-layer :
    (w : Words) (t addr size : ℕ) (xs : List Alloc) (ls : List Layer)
    → IsLayer (record { addr = addr; size = size; allocs = xs })
    → AllApart (record { addr = addr; size = size }) (blocks ls)
    → AreLayers ls
    → LayerWords w (record { addr = addr; size = size; allocs = xs } ∷ ls)
    → first_cell xs (top_of ls) ≡ some t
    → (top_of ls ≡ some t → Dropped w ls t)
    → Dropped w (record { addr = addr; size = size; allocs = xs } ∷ ls) t
unfolding drop_first
Dropped-layer w t addr size [] ls is a g p e below =
    let d = below e in
    record {
      same = ap (λ bs. record { addr = addr; size = size } ∷ bs) d.same;
      first = refl;
      layers = (is, rw d.same a, d.layers);
      words = (rw d.first p.0, tt, d.words);
      previous = d.previous;
      popped = d.popped;
    }
Dropped-layer w t addr size (x ∷ xs) ls is a g p e below =
    let same : x.cell ≡ t = cc in
    let fits = is.fits in
    record {
      same = refl;
      first = refl;
      layers = (
        record {
          aligned = is.aligned;
          whole = is.whole;
          bounded = is.bounded;
          fits =
              Fits-raise (x.cell + 8 + x.size) (addr + 16) (addr + size) xs
                (omega (arith, fits.0, Fits-floor (x.cell + 8 + x.size) (addr + size) xs fits.2))
                fits.2;
        },
        a,
        g,
      );
      words = (p.0, p.1.1, p.2);
      previous = rw (← same) (p.1.0);
      popped = (x.size, ap (λ c. record { cell = c; size = x.size } ∷ (xs ++ all ls)) same);
    }

pub drop_first-Dropped :
    (w : Words) (ls : List Layer) (t : ℕ)
    → AreLayers ls
    → LayerWords w ls
    → top_of ls ≡ some t
    → Dropped w ls t
drop_first-Dropped w [] t g p e = cc
drop_first-Dropped w (l ∷ ls) t g p e =
    Dropped-layer w t l.addr l.size l.allocs ls g.0 g.1 g.2 p e (drop_first-Dropped w ls t g.2 p.2)
