-- ===== src/Allocator/Reach.antt =====
-- src/allocator.rs: what a new allocator can come to by allocations, writes and pops.
use mathlib.Core.Path.{subst}
use reblessive.Base.{
  refl, sym, ap, ◌∙◌, ℕ, ◌+◌, ◌-◌, ◌^◌, ◌≤◌, ◌≡◌, ◌≢◌, none, some, List, [], ◌∷◌, arith, ok,
  Outcome,
}
use reblessive.Allocator.Layout.{Layout, IsLayout, alloc_size, next_power_of_two}
use reblessive.Allocator.Memory.{Heap, SystemAlloc, header, back, store_value}
use reblessive.Allocator.Ops.{empty, alloc_with, pop_dealloc}
use reblessive.Allocator.Layers.{Alloc, Layer, all, Holds}
use reblessive.Allocator.Layers.Bytes.{AreDisjoint, AreWithin, Holds-AreDisjoint}
use reblessive.Allocator.Push.{needed}
use reblessive.Allocator.Pop.{popped_layers, pop_dealloc-Popped}
use reblessive.Allocator.Writes.{Has, store_value-Holds}
use reblessive.Allocator.Cycle.{alloc_with-Created}

-- The size that a new block needs at least, from the header of the last block
abbrev pub request : Heap → ℕ → ℕ
request s n = elim s.block [
  | none ↦ n + 16
  | some b ↦ elim (s.words b) [
    | none ↦ 0
    | some v ↦ elim v [ header h ↦ h.last - b + n | back _ ↦ 0 ]
  ]
]

module _ (sys : SystemAlloc) where
  -- The heap that a program comes to, with its allocations, the last one first. It allocates where
  -- the system has memory, writes to its allocations, and pops the last one.
  pub data Reach : Heap → List Alloc → Type 0 where
    start : Reach empty []
    create :
        (s after : Heap) (xs : List Alloc) (layout : Layout) (n size ptr : ℕ)
        → Reach s xs
        → IsLayout layout
        → alloc_size layout ≡ some n
        → request s n ≤ 2 ^ 62
        → next_power_of_two (request s n) ≡ some size
        → sys.alloc s.live size ≢ 0
        → alloc_with sys layout s ≡ ok ptr after
        → Reach after (record { cell = ptr - 8; size = layout.size } ∷ xs)
    write :
        (s after : Heap) (xs : List Alloc) (x : Alloc)
        → Reach s xs
        → Has x xs
        → store_value (x.cell + 8) x.size s ≡ ok tt after
        → Reach after xs
    pop :
        (s after : Heap) (x : Alloc) (xs : List Alloc)
        → Reach s (x ∷ xs)
        → pop_dealloc s ≡ ok tt after
        → Reach after xs

  -- The blocks with the allocations on them
  abbrev pub IsHeld : Heap → List Alloc → Type 0
  IsHeld s xs = (ls : List Layer) × Holds s ls × (all ls ≡ xs)

  request_lem : (s : Heap) (ls : List Layer) (n : ℕ) → Holds s ls → request s n ≡ needed ls n
  request_lem s [] n h = ground (arith, h.block)
  request_lem s (l ∷ ls) n h =
      let minus : l.addr + l.size - l.addr ≡ l.size = omega arith in
      ground (arith, h.block, h.words.0, minus)

  same-state :
      {A : Type 0}
      → (r : Outcome Heap A) (a b : A) (s t : Heap) → r ≡ ok a s
      → r ≡ ok b t
      → (a ≡ b) × (s ≡ t)
  same-state r a b s t e f = (cc, cc)

  create-IsHeld :
      (s after : Heap) (ls : List Layer) (layout : Layout) (n size ptr : ℕ)
      → Holds s ls
      → IsLayout layout
      → alloc_size layout ≡ some n
      → request s n ≤ 2 ^ 62
      → next_power_of_two (request s n) ≡ some size
      → sys.alloc s.live size ≢ 0
      → alloc_with sys layout s ≡ ok ptr after
      → IsHeld after (record { cell = ptr - 8; size = layout.size } ∷ all ls)
  create-IsHeld s after ls layout n size ptr h is e small rounds got runs =
      let same = request_lem s ls n h in
      let c =
        alloc_with-Created sys layout n size is e s ls h (omega (arith, same, small))
          (ap next_power_of_two (sym same) ∙ rounds) got in
      let (p, q) =
        same-state (alloc_with sys layout s) (c.cell + 8) ptr c.after after c.runs runs in
      let cell : c.cell ≡ ptr - 8 = omega (arith, p) in
      (
        c.layers,
        subst (λ t. Holds t c.layers) q c.holds,
        c.pushed ∙ ap (λ a. record { cell = a; size = layout.size } ∷ all ls) cell,
      )

  -- Whatever a program did, the heap consists of blocks with exactly its allocations on them.
  pub Reach-IsHeld : (s : Heap) (xs : List Alloc) → Reach s xs → IsHeld s xs
  Reach-IsHeld s xs start =
      ([], record { block = refl; top = refl; live = refl; layers = tt; words = tt }, refl)
  Reach-IsHeld s xs (create b after ys layout n size ptr r is e small rounds got runs) =
      let (ls, h, same) = Reach-IsHeld b ys r in
      let (ks, h', same') =
        create-IsHeld b after ls layout n size ptr h is e small rounds got runs in
      (ks, h', same' ∙ ap (λ zs. record { cell = ptr - 8; size = layout.size } ∷ zs) same)
  Reach-IsHeld s xs (write b after ys x r own runs) =
      let (ls, h, same) = Reach-IsHeld b ys r in
      let (d, runs', h') = store_value-Holds b ls x h (subst (Has x) (sym same) own) in
      let (_, q) = same-state (store_value (x.cell + 8) x.size b) tt tt d after runs' runs in
      (ls, subst (λ t. Holds t ls) q h', same)
  Reach-IsHeld s xs (pop b after x ys r runs) =
      let (ls, h, same) = Reach-IsHeld b (x ∷ ys) r in
      let p = pop_dealloc-Popped b ls x ys h same in
      let (_, q) = same-state (pop_dealloc b) tt tt p.after after p.runs runs in
      (popped_layers ls, subst (λ t. Holds t (popped_layers ls)) q p.holds, p.rest)

  -- Whatever a program did, no two of its allocations share a byte, and all of them lie in blocks
  -- that the allocator has from the system.
  pub Reach-AreDisjoint :
      (s : Heap) (xs : List Alloc) → Reach s xs → AreDisjoint xs × AreWithin s.live xs
  Reach-AreDisjoint s xs r =
      let (ls, h, same) = Reach-IsHeld s xs r in
      subst (λ zs. AreDisjoint zs × AreWithin s.live zs) same (Holds-AreDisjoint s ls h)
