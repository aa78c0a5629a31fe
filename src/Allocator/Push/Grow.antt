-- ===== src/Allocator/Push/Grow.antt =====
-- A new block in front of the others.
use reblessive.Base.{
  ℕ, ◌+◌, ◌-◌, ◌%◌, ◌^◌, ◌<◌, ◌≤◌, ◌≡◌, ◌≢◌, true, none, some, List, [], ◌∷◌, arith, ok,
}
use reblessive.Allocator.Layout.{
  Layout, alloc_size, next_power_of_two, next_power_of_two_lem, pow-multiple,
}
use reblessive.Allocator.Memory.{Word, header, Words, Heap, SystemAlloc, put, in_live}
use reblessive.Allocator.Ops.{grow_initial, grow_alloc_new_top}
use reblessive.Allocator.Layers.{
  SameOutside, SameOutside-trans, put-SameOutside, Layer, block_of, Fits-le, Holds,
}
use reblessive.Allocator.Access.{read_header_lem, block_size_lem, store_lem, put_self}
use reblessive.Allocator.Push.Place.{in_live-first}
use reblessive.Allocator.Push.NewBlock.{
  new_layer, new_words, new_words-SameOutside, new_words-header, alloc_new_block_lem, Holds-new,
}

module _ (sys : SystemAlloc) where
  -- The size that `grow_initial` and `grow_alloc_new_top` ask the system for
  record IsRequest (needed size : ℕ) : Type 0 where
    rounds : next_power_of_two needed ≡ some size
    enough : needed ≤ size
    small : size < 2 ^ 63 - 1
    whole : size % 8 ≡ 0

  request :
      (needed size : ℕ)
      → next_power_of_two needed ≡ some size
      → 16 ≤ needed
      → needed ≤ 2 ^ 62
      → IsRequest needed size
  request needed size rounds big small =
      let (j, p, q, r) = next_power_of_two_lem needed small in
      let (c, m) = pow-multiple j (omega arith) in
      let same : size ≡ 2 ^ j = cc in
      record {
        rounds = rounds;
        enough = omega (arith, same);
        small = omega (arith, same);
        whole = omega (arith, same);
      }

  pub record Grown (s : Heap) (ls : List Layer) (layout : Layout) (n : ℕ) : Type 0 where
    pub after : Heap
    pub addr : ℕ
    pub size : ℕ
    pub holds : Holds after (record { addr = addr; size = size; allocs = [] } ∷ ls)
    pub room : 16 + n ≤ size

  -- The first block, when there is none
  pub grow_initial_lem :
      (s : Heap) (layout : Layout) (n size : ℕ)
      → Holds s []
      → alloc_size layout ≡ some n
      → n + 16 ≤ 2 ^ 62
      → next_power_of_two (n + 16) ≡ some size
      → sys.alloc s.live size ≢ 0
      → (g : Grown s [] layout n) × (grow_initial sys layout s ≡ ok g.addr g.after)
  unfolding grow_initial
  grow_initial_lem s layout n size h e small rounds got =
      let r = request (n + 16) size rounds (omega arith) small in
      (
        record {
          after = record s {
            words = new_words sys s size none;
            live = block_of (new_layer sys s size) ∷ s.live;
            block = some (sys.alloc s.live size);
          };
          addr = sys.alloc s.live size;
          size = size;
          holds =
              Holds-new sys s size [] (new_words sys s size none) h r.whole
                (omega (arith, r.enough)) got
                (new_words-SameOutside sys s size none (omega (arith, r.enough)))
                (new_words-header sys s size none);
          room = omega (arith, r.enough);
        },
        ground (
          arith,
          e,
          r.rounds,
          alloc_new_block_lem sys size s (omega (arith, r.enough)) r.small got,
        ),
      )

  grow-request :
      (s : Heap) (l : Layer) (ls : List Layer) (layout : Layout) (n size : ℕ)
      → Holds s (l ∷ ls)
      → alloc_size layout ≡ some n
      → l.size + n ≤ 2 ^ 62
      → IsRequest (l.size + n) size
      → sys.alloc s.live size ≢ 0
      → (g : Grown s (l ∷ ls) layout n) × (grow_alloc_new_top sys layout s
          ≡ ok (g.addr + g.size) g.after)
  unfolding grow_alloc_new_top
  grow-request s l ls layout n size h e small r got = (
    record {
      after = record s₁ { words = w; block = some ptr };
      addr = sys.alloc s.live size;
      size = size;
      holds =
          Holds-new sys s size (l ∷ ls) w h r.whole (omega (arith, r.enough, room)) got same
            (put_self (new_words sys s size none) ptr _);
      room = omega (arith, r.enough, room);
    },
    ground (
      arith,
      e,
      h.block,
      block_size_lem s l.addr l.size _ h.words.0,
      r.rounds,
      alloc_new_block_lem sys size s (omega (arith, r.enough, room)) r.small got,
      read_header_lem s₁ ptr (record { previous = none; last = ptr + size })
          (new_words-header sys s size none),
      store_lem s₁ ptr linked live,
      read_header_lem (record s₁ { words = w; block = some ptr }) ptr
          (record { previous = some l.addr; last = ptr + size })
          (put_self (new_words sys s size none) ptr linked),
    ),
  )
    where
      room : l.addr + 16 ≤ l.addr + l.size
      room = Fits-le (l.addr + 16) (l.addr + l.size) l.allocs h.layers.0.fits

      ptr : ℕ
      ptr = sys.alloc s.live size

      s₁ : Heap
      s₁ = record s {
        words = new_words sys s size none;
        live = block_of (new_layer sys s size) ∷ s.live;
      }

      linked : Word
      linked = header (record { previous = some l.addr; last = ptr + size })

      w : Words
      w = put ptr linked (new_words sys s size none)

      live : in_live ptr 16 s₁.live ≡ true
      live = in_live-first ptr 16 ptr size s.live (omega arith) (omega (arith, r.enough, room))

      same : SameOutside s.words w (block_of (new_layer sys s size))
      same =
          SameOutside-trans s.words (new_words sys s size none) w (block_of (new_layer sys s size))
            (new_words-SameOutside sys s size none (omega (arith, r.enough, room)))
            (put-SameOutside (new_words sys s size none) ptr linked
              (block_of (new_layer sys s size)) (omega arith) (omega (arith, r.enough, room)))

  -- A larger block in front of the last one
  pub grow_alloc_new_top_lem :
      (s : Heap) (l : Layer) (ls : List Layer) (layout : Layout) (n size : ℕ)
      → Holds s (l ∷ ls)
      → alloc_size layout ≡ some n
      → l.size + n ≤ 2 ^ 62
      → next_power_of_two (l.size + n) ≡ some size
      → sys.alloc s.live size ≢ 0
      → (g : Grown s (l ∷ ls) layout n) × (grow_alloc_new_top sys layout s
          ≡ ok (g.addr + g.size) g.after)
  grow_alloc_new_top_lem s l ls layout n size h e small rounds got =
      let room = Fits-le (l.addr + 16) (l.addr + l.size) l.allocs h.layers.0.fits in
      let r = request (l.size + n) size rounds (omega (arith, room)) small in
      grow-request s l ls layout n size h e small r got
