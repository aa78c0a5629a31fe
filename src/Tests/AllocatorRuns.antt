-- ===== src/Tests/AllocatorRuns.antt =====
-- The allocator at concrete inputs, over a system that hands out one block behind the other.
use native.Mathlib.Nat.{div-add-mod, mod-lt}
use reblessive.Base.{
  refl, ℕ, suc, ◌+◌, ◌-◌, ◌*◌, ◌/◌, ◌^◌, ◌<◌, ◌≤◌, ◌≡◌, ◌≢◌, inr, max, none, some, List, [], ◌∷◌,
  arith, ltb, ◌==◌, ok, if◌then◌else◌, ◌>>=◌,
}
use reblessive.Allocator.Layout.{Layout, alloc_size, next_power_of_two, power_from}
use reblessive.Allocator.Memory.{Block, header, back, Heap, SystemAlloc, AllApart}
use reblessive.Allocator.Ops.{empty, alloc_with, pop_dealloc, drop}
use reblessive.Allocator.Layers.{Alloc, Layer, IsLayer, all, Holds}
use reblessive.Allocator.Layers.Bytes.{AreDisjoint, AreWithin}
use reblessive.Allocator.Cycle.{Created, alloc_with-Created, pop_dealloc-alloc_with}
use reblessive.Allocator.Drop.{drop-empty}
use reblessive.Allocator.Reach.{Reach, start, create, IsHeld, Reach-IsHeld, Reach-AreDisjoint}

-- Where the blocks that are in use end
abbrev end_of : List Block → ℕ
end_of [] = 4096
end_of (b ∷ bs) = max (b.addr + b.size) (end_of bs)

abbrev next_free : List Block → ℕ
next_free live = 8 * suc (end_of live / 8)

unfoldable bump_alloc : List Block → ℕ → ℕ
bump_alloc live size = if ltb (next_free live + size) (2 ^ 64) then next_free live else 0

AllApart-below :
    (a size : ℕ) (bs : List Block) → end_of bs ≤ a → AllApart (record { addr = a; size = size }) bs
AllApart-below a size [] h = tt
AllApart-below a size (b ∷ bs) h = (inr (omega arith), AllApart-below a size bs (omega arith))

bump_alloc-ne :
    (live : List Block) (size : ℕ)
    → bump_alloc live size ≢ 0
    → (bump_alloc live size ≡ next_free live) × (next_free live + size < 2 ^ 64)
unfolding bump_alloc
bump_alloc-ne live size ne = (ground arith, ground arith)

abbrev bump : SystemAlloc
bump = record {
  alloc = bump_alloc;
  aligned = λ live size ne. omega (arith, bump_alloc-ne live size ne);
  fits = λ live size ne. omega (arith, bump_alloc-ne live size ne);
  apart = λ live size ne. AllApart-below (bump_alloc live size) size live (
      omega (
        arith,
        bump_alloc-ne live size ne,
        div-add-mod (end_of live) 8,
        mod-lt (end_of live) {m = 8} (omega arith),
      ));
}

abbrev small : Layout
small = record { size = 24; align = 8 }

abbrev large : Layout
large = record { size = 1000; align = 64 }

abbrev empty-Holds : Holds empty []
empty-Holds = record { block = refl; top = refl; live = refl; layers = tt; words = tt }

alloc_with-Created_example : Created bump empty [] small
unfolding alloc_size next_power_of_two power_from bump_alloc
alloc_with-Created_example =
    alloc_with-Created bump small 32 64 (3, refl) refl empty [] empty-Holds (omega arith) refl
      (omega arith)

-- A block of 64 bytes with one allocation
abbrev old_layer : Layer
old_layer = record { addr = 4096; size = 64; allocs = record { cell = 4128; size = 24 } ∷ [] }

abbrev one : Heap
one = record {
  block = some 4096;
  top = some 4128;
  words = λ a.
      if a == 4096
      then some (header (record { previous = none; last = 4160 }))
      else if a == 4128
      then some (back none)
      else none;
  live = record { addr = 4096; size = 64 } ∷ [];
}

old_IsLayer : IsLayer old_layer
old_IsLayer = record {
  aligned = refl;
  whole = refl;
  bounded = omega arith;
  fits = (omega arith, refl, omega arith);
}

one-Holds : Holds one (old_layer ∷ [])
one-Holds = record {
  block = refl;
  top = refl;
  live = refl;
  layers = (old_IsLayer, tt, tt);
  words = (refl, (refl, tt), tt);
}

-- A larger block before it, with an allocation or without
abbrev new_layer : List Alloc → Layer
new_layer xs = record { addr = 8192; size = 2048; allocs = xs }

abbrev two : Heap
two = record {
  block = some 8192;
  top = some 9208;
  words = λ a.
      if a == 8192
      then some (header (record { previous = some 4096; last = 10240 }))
      else if a == 9208
      then some (back (some 4128))
      else one.words a;
  live = record { addr = 8192; size = 2048 } ∷ one.live;
}

abbrev large_alloc : Alloc
large_alloc = record { cell = 9208; size = 1000 }

two-Holds : Holds two (new_layer (large_alloc ∷ []) ∷ old_layer ∷ [])
two-Holds = record {
  block = refl;
  top = refl;
  live = refl;
  layers = (
    record {
      aligned = refl;
      whole = refl;
      bounded = omega arith;
      fits = (omega arith, refl, omega arith);
    },
    (inr (omega arith), tt),
    (old_IsLayer, tt, tt),
  );
  words = (refl, (refl, tt), (refl, (refl, tt), tt));
}

abbrev hollow : Heap
hollow = record two { top = some 4128 }

pop_dealloc-alloc_with_example :
    (after : Heap) × (ks : List Layer) × ((do _ ← alloc_with bump large; pop_dealloc) one
      ≡ ok tt after)
    × Holds after ks
    × (all ks ≡ all (old_layer ∷ []))
unfolding alloc_size next_power_of_two power_from bump_alloc
pop_dealloc-alloc_with_example =
    pop_dealloc-alloc_with bump large 1064 2048 (6, refl) refl one (old_layer ∷ []) one-Holds
      (omega arith) refl (omega arith)

-- A program that allocates 24 bytes
created : Created bump empty [] small
unfolding alloc_size next_power_of_two power_from bump_alloc
created =
    alloc_with-Created bump small 32 64 (3, refl) refl empty [] empty-Holds (omega arith) refl
      (omega arith)

created_reached : Reach bump created.after (record { cell = created.cell + 8 - 8; size = 24 } ∷ [])
unfolding alloc_size next_power_of_two power_from bump_alloc
created_reached =
    create empty created.after [] small 32 64 (created.cell + 8) start (3, refl) refl (omega arith)
      refl (omega arith) created.runs

Reach-IsHeld_example :
    IsHeld bump created.after (record { cell = created.cell + 8 - 8; size = 24 } ∷ [])
Reach-IsHeld_example = Reach-IsHeld bump created.after _ created_reached

Reach-AreDisjoint_example :
    AreDisjoint (record { cell = created.cell + 8 - 8; size = 24 } ∷ [])
    × AreWithin created.after.live (record { cell = created.cell + 8 - 8; size = 24 } ∷ [])
Reach-AreDisjoint_example = Reach-AreDisjoint bump created.after _ created_reached

drop-empty_example : (after : Heap) × (drop 3 two ≡ ok tt after) × (after.live ≡ [])
drop-empty_example =
    drop-empty 3 two (new_layer (large_alloc ∷ []) ∷ old_layer ∷ []) two-Holds (omega arith)
