-- ===== src/Kmalloc/Calls.antt =====
-- `kmalloc` on a well-formed heap.
use stak_os.Base.{
  ℕ, zero, suc, ◌+◌, ◌-◌, ◌*◌, ◌/◌, ◌<◌, ◌≡◌, ◌≢◌, inl, inr, sym, ◌∙◌, Option, some, List, ◌==◌,
  leb, if◌then◌else◌, arith, length, Bool-cases, ==→eq, ne→==,
}
use stak_os.Base.Words.{u32_mod, add32}
use stak_os.Base.Words.Bits.{bit_and-high, bit_and-mask}
use stak_os.Memory.{Mem}
use stak_os.Kmalloc.{Heap, size, align4, search, kmalloc}
use stak_os.Kmalloc.Chain.{Block, Chain, Ordered, alloc_ptr, alloc_blocks}
use stak_os.Kmalloc.Search.{KeepsUsed, search-Found}

-- The heap `h` in memory `m` is the list of blocks `bs`.
pub record IsHeap (m : Mem) (h : Heap) (bs : List Block) : Type 0 where
  pub chain : Chain m h.heap_start bs
  pub ordered : Ordered 0 bs

-- `align4` rounds up to a multiple of 4, and wraps to 0 for the three largest sizes.
pub align4_lem :
    (size : ℕ)
    → size < u32_mod
    → align4 size ≡ (if leb size (u32_mod - 4) then (size + 3) / 4 * 4 else 0)
unfolding align4
align4_lem size h =
    bit_and-high 2 (add32 size 3) 0x3FFF_FFFF ∙ ground (arith, bit_and-mask 30 (add32 size 3 / 4))

search_null :
    (fuel : ℕ) (m : Mem) (cur wanted : ℕ)
    → 0 < fuel
    → cur ≡ 0
    → search fuel m cur wanted ≡ some (0, m)
unfolding search
search_null zero m cur wanted pos e = absurd (omega arith)
search_null (suc fuel) m cur wanted pos e = rw e

-- What a call of `kmalloc` for `size` bytes gives.
pub record Allocated (size : ℕ) (m : Mem) (h : Heap) (bs : List Block) (r : Option (ℕ × Mem))
    : Type 0 where
  pub after : Mem
  pub result : r ≡ some (alloc_ptr (align4 size) bs, after)
  pub heap : IsHeap after h (alloc_blocks (align4 size) bs)
  pub keeps : KeepsUsed bs m after

module _ {m : Mem} {h : Heap} {bs : List Block} (v : IsHeap m h bs) where
  kmalloc-search :
      (fuel size : ℕ)
      → size ≢ 0
      → 0 < fuel
      → kmalloc fuel h m size ≡ search fuel m h.heap_start (align4 size)
  unfolding kmalloc
  kmalloc-search fuel size ne pos = elim (Bool-cases (h.heap_start == 0)) [
    | inl e ↦
        rw (ne→== size 0 ne, e)
          (sym (search_null fuel m h.heap_start (align4 size) pos (==→eq h.heap_start 0 e)))
    | inr e ↦ rw (ne→== size 0 ne, e)
  ]

  -- A request of `size` bytes takes the first free block that holds it rounded up to a multiple
  -- of 4, the loop ends, the heap stays well formed, and no byte outside the free blocks changes.
  pub kmalloc_lem :
      (fuel size : ℕ)
      → size ≢ 0
      → size < u32_mod
      → length bs < fuel
      → Allocated size m h bs (kmalloc fuel h m size)
  kmalloc_lem fuel size ne lt l =
      let r =
        search-Found (align4 size) bs fuel m h.heap_start 0 (ground (arith, align4_lem size lt))
          v.chain v.ordered l in
      record {
        after = r.after;
        result = kmalloc-search fuel size ne (omega arith) ∙ r.result;
        heap = record { chain = r.chain; ordered = r.ordered };
        keeps = r.keeps;
      }
