-- ===== src/Allocator/Layers/Frame.antt =====
-- What a write leaves alone.
use reblessive.Base.{ℕ, ◌+◌, ◌≤◌, ◌≡◌, ◌⊎◌, inl, inr, Option, some, List, [], ◌∷◌, arith}
use reblessive.Allocator.Memory.{Block, Word, header, back, width, Words, AllApart, clobber, put}
use reblessive.Allocator.Layers.Defs.{
  Alloc, Layer, blocks, Fits, floor, AreLayers, BackWords, LayerWords,
}

-- The words that lie between two addresses are the same.
abbrev pub Same : Words → Words → ℕ → ℕ → Type 0
Same w w' lo hi = (x : ℕ) (v : Word) → lo ≤ x → x + width v ≤ hi → w x ≡ some v → w' x ≡ some v

pub Same-clobber :
    (w : Words) (a n lo hi : ℕ) → (a + n ≤ lo) ⊎ (hi ≤ a) → Same w (clobber a n w) lo hi
unfolding clobber
Same-clobber w a n lo hi apart x v h k e = ground (arith, e)

pub Same-put :
    (w : Words) (a : ℕ) (u : Word) (lo hi : ℕ)
    → (a + width u ≤ lo) ⊎ (hi ≤ a)
    → Same w (put a u w) lo hi
unfolding put
Same-put w a (header h) lo hi apart x (header v) p q e = ground (arith, e)
Same-put w a (header h) lo hi apart x (back v) p q e = ground (arith, e)
Same-put w a (back h) lo hi apart x (header v) p q e = ground (arith, e)
Same-put w a (back h) lo hi apart x (back v) p q e = ground (arith, e)

pub Same-narrow :
    (w w' : Words) (lo hi lo' hi' : ℕ) → lo ≤ lo' → hi' ≤ hi → Same w w' lo hi → Same w w' lo' hi'
Same-narrow w w' lo hi lo' hi' p q same x v h k e = same x v (omega arith) (omega arith) e

-- The room from the first allocation on is as it was.
pub Fits-le : (lo hi : ℕ) (xs : List Alloc) → Fits lo hi xs → lo ≤ hi
Fits-le lo hi [] f = f
Fits-le lo hi (x ∷ xs) f = omega (arith, Fits-le (x.cell + 8 + x.size) hi xs f.2)

pub Fits-floor :
    (lo hi : ℕ) (xs : List Alloc) → Fits lo hi xs → (lo ≤ floor hi xs) × (floor hi xs ≤ hi)
Fits-floor lo hi [] f = (f, omega arith)
Fits-floor lo hi (x ∷ xs) f = (f.0, omega (arith, Fits-le (x.cell + 8 + x.size) hi xs f.2))

pub Fits-raise :
    (lo lo' hi : ℕ) (xs : List Alloc) → lo' ≤ floor hi xs → Fits lo hi xs → Fits lo' hi xs
Fits-raise lo lo' hi [] h f = h
Fits-raise lo lo' hi (x ∷ xs) h f = (h, f.1, f.2)

pub BackWords-Same :
    (w w' : Words) (lo hi : ℕ) (xs : List Alloc) (below : Option ℕ)
    → Fits lo hi xs
    → Same w w' lo hi
    → BackWords w xs below
    → BackWords w' xs below
BackWords-Same w w' lo hi [] below f same b = tt
BackWords-Same w w' lo hi (x ∷ xs) below f same b = (
  same x.cell _ f.0 (omega (arith, Fits-le (x.cell + 8 + x.size) hi xs f.2)) b.0,
  BackWords-Same w w' (x.cell + 8 + x.size) hi xs below f.2
      (Same-narrow w w' lo hi (x.cell + 8 + x.size) hi (omega arith) (omega arith) same) b.1,
)

-- The words of whole blocks are the same.
abbrev pub AllSame : Words → Words → List Layer → Type 0
AllSame w w' [] = Unit
AllSame w w' (l ∷ ls) = Same w w' l.addr (l.addr + l.size) × AllSame w w' ls

pub LayerWords-Same :
    (w w' : Words) (ls : List Layer)
    → AreLayers ls
    → AllSame w w' ls
    → LayerWords w ls
    → LayerWords w' ls
LayerWords-Same w w' [] a same p = tt
LayerWords-Same w w' (l ∷ ls) a same p =
    let fits = a.0.fits in
    let room = Fits-le (l.addr + 16) (l.addr + l.size) l.allocs fits in
    (
      same.0 l.addr _ (omega arith) room p.0,
      BackWords-Same w w' (l.addr + 16) (l.addr + l.size) l.allocs _ fits
          (Same-narrow w w' l.addr (l.addr + l.size) (l.addr + 16) (l.addr + l.size) (omega arith)
            (omega arith) same.0)
          p.1,
      LayerWords-Same w w' ls a.2 same.1 p.2,
    )

-- A change within one block leaves the blocks that are apart from it alone.
pub AllSame-apart :
    (w w' : Words) (b : Block) (ls : List Layer)
    → AllApart b (blocks ls)
    → ((lo hi : ℕ) → (b.addr + b.size ≤ lo) ⊎ (hi ≤ b.addr) → Same w w' lo hi)
    → AllSame w w' ls
AllSame-apart w w' b [] a same = tt
AllSame-apart w w' b (l ∷ ls) a same =
    (same l.addr (l.addr + l.size) a.0, AllSame-apart w w' b ls a.1 same)

pub Same-trans : (u v w : Words) (lo hi : ℕ) → Same u v lo hi → Same v w lo hi → Same u w lo hi
Same-trans u v w lo hi p q x a h k e = q x a h k (p x a h k e)

-- Nothing outside of a block is changed.
abbrev pub SameOutside : Words → Words → Block → Type 0
SameOutside w w' b = (lo hi : ℕ) → (b.addr + b.size ≤ lo) ⊎ (hi ≤ b.addr) → Same w w' lo hi

-- A word written within a block changes nothing outside of it.
pub put-SameOutside :
    (w : Words) (a : ℕ) (v : Word) (b : Block)
    → b.addr ≤ a
    → a + width v ≤ b.addr + b.size
    → SameOutside w (put a v w) b
put-SameOutside w a v b p q lo hi (inl h) = Same-put w a v lo hi (inl (omega arith))
put-SameOutside w a v b p q lo hi (inr h) = Same-put w a v lo hi (inr (omega arith))

pub SameOutside-trans :
    (u v w : Words) (b : Block) → SameOutside u v b → SameOutside v w b → SameOutside u w b
SameOutside-trans u v w b p q lo hi apart = Same-trans u v w lo hi (p lo hi apart) (q lo hi apart)

-- The words of the blocks that are apart from one that is changed
pub LayerWords-apart :
    (w w' : Words) (b : Block) (ls : List Layer)
    → AreLayers ls
    → AllApart b (blocks ls)
    → SameOutside w w' b
    → LayerWords w ls
    → LayerWords w' ls
LayerWords-apart w w' b ls g a same p = LayerWords-Same w w' ls g (AllSame-apart w w' b ls a same) p
