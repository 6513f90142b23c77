-- ===== src/Kmalloc/Sample.antt =====
-- A heap for tests: a chain of two blocks, one of 64 bytes in use and one of 1000 bytes that is free.
use stak_os.Base.{ℕ, refl, true, false, List, [], ◌∷◌, arith}
use stak_os.Memory.{Mem, load32, store32, store8}
use stak_os.Kmalloc.{Heap, block_magic, set_magic, set_size, set_free, set_next}
use stak_os.Kmalloc.Chain.{Block}
use stak_os.Kmalloc.Calls.{IsHeap}

abbrev header : Mem → (a bytes is_free next : ℕ) → Mem
header m a bytes is_free next =
    set_next (set_free (set_size (set_magic m a block_magic) a bytes) a is_free) a next

abbrev pub memory : Mem
memory = header (header (λ k. 0) 4096 64 0 4176) 4176 1000 1 0

abbrev pub heap : Heap
heap = record { heap_start = 4096; heap_total_bytes = 1064 }

abbrev used_block : Block
used_block = record { addr = 4096; bytes = 64; is_free = false }

abbrev free_block : Block
free_block = record { addr = 4176; bytes = 1000; is_free = true }

abbrev pub blocks : List Block
blocks = used_block ∷ free_block ∷ []

pub heap-IsHeap : IsHeap memory heap blocks
unfolding load32 store32 store8
heap-IsHeap = record {
  chain = (
    refl,
    record { is_magic = refl; has_size = refl; has_free = refl },
    (refl, record { is_magic = refl; has_size = refl; has_free = refl }, refl),
  );
  ordered = omega arith;
}
