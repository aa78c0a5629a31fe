-- ===== src/Allocator/Access.antt =====
-- Reads and writes of memory that holds what the code takes it for.
use reblessive.Base.{ℕ, ◌+◌, ◌-◌, ◌≡◌, true, Option, some, arith, ok}
use reblessive.Allocator.Memory.{
  BlockHeader, Word, header, back, width, Words, Heap, put, in_live, read_header, read_back, store,
}
use reblessive.Allocator.Ops.{block_size}

pub read_header_lem :
    (s : Heap) (a : ℕ) (h : BlockHeader) → s.words a ≡ some (header h) → read_header a s ≡ ok h s
unfolding read_header
read_header_lem s a h e = rw (e, read_header)

pub read_back_lem :
    (s : Heap) (a : ℕ) (t : Option ℕ) → s.words a ≡ some (back t) → read_back a s ≡ ok t s
unfolding read_back
read_back_lem s a t e = rw (e, read_back)

pub block_size_lem :
    (s : Heap) (addr size : ℕ) (p : Option ℕ)
    → s.words addr ≡ some (header (record { previous = p; last = addr + size }))
    → block_size addr s ≡ ok size s
unfolding block_size
block_size_lem s addr size p e =
    let minus : addr + size - addr ≡ size = omega arith in ground (arith, minus, e)

pub store_lem :
    (s : Heap) (a : ℕ) (v : Word)
    → in_live a (width v) s.live ≡ true
    → store a v s ≡ ok tt (record s { words = put a v s.words })
unfolding store
store_lem s a v e = ground (arith, e)

pub put_self : (w : Words) (a : ℕ) (v : Word) → put a v w a ≡ some v
unfolding put
put_self w a v = ground arith
