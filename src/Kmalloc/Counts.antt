-- ===== src/Kmalloc/Counts.antt =====
-- What `kmalloc_print_stats` counts on a well-formed heap.
use stak_os.Base.{
  ℕ, zero, suc, ◌+◌, ◌≤◌, ◌<◌, ◌≡◌, inl, inr, ap, ◌∙◌, Bool, true, false, not, some, List, [], ◌∷◌,
  ◌==◌, if◌then◌else◌, length, arith, ne→==, Bool-cases,
}
use stak_os.Base.Words.{u32_mod, add32}
use stak_os.Memory.{Mem}
use stak_os.Kmalloc.{Heap, Stats, block_header_size, next, stats_loop, kmalloc_stats}
use stak_os.Kmalloc.Chain.{Block, flag, ram_end, block_end, Chain, Ordered}
use stak_os.Kmalloc.Live.{footprint}
use stak_os.Kmalloc.Calls.{IsHeap}

-- The number of blocks that are free, or that are not.
abbrev pub blocks_of : Bool → List Block → ℕ
blocks_of f [] = 0
blocks_of true (b ∷ bs) = (if b.is_free then 1 else 0) + blocks_of true bs
blocks_of false (b ∷ bs) = (if b.is_free then 0 else 1) + blocks_of false bs

-- Their bytes.
abbrev pub bytes_of : Bool → List Block → ℕ
bytes_of f [] = 0
bytes_of true (b ∷ bs) = (if b.is_free then b.bytes else 0) + bytes_of true bs
bytes_of false (b ∷ bs) = (if b.is_free then 0 else b.bytes) + bytes_of false bs

-- The counters behind the blocks `bs`, with `t` before them.
abbrev plus : Stats → List Block → Stats
plus t bs = record {
  total_blocks = t.total_blocks + length bs;
  free_blocks = t.free_blocks + blocks_of true bs;
  used_blocks = t.used_blocks + blocks_of false bs;
  free_bytes = t.free_bytes + bytes_of true bs;
  used_bytes = t.used_bytes + bytes_of false bs;
}

-- No counter exceeds `n`.
record AtMost (n : ℕ) (t : Stats) : Type 0 where
  total : t.total_blocks ≤ n
  free_ : t.free_blocks ≤ n
  used : t.used_blocks ≤ n
  free_b : t.free_bytes ≤ n
  used_b : t.used_bytes ≤ n

footprint-le : (lo : ℕ) (bs : List Block) → Ordered lo bs → lo + footprint bs ≤ ram_end
unfolding footprint
footprint-le lo [] o = omega arith
footprint-le lo (b ∷ bs) (l, _, _, _, o) = omega (arith, footprint-le (block_end b) bs o)

Stats-ext :
    (s t : Stats)
    → s.total_blocks ≡ t.total_blocks
    → s.free_blocks ≡ t.free_blocks
    → s.used_blocks ≡ t.used_blocks
    → s.free_bytes ≡ t.free_bytes
    → s.used_bytes ≡ t.used_bytes
    → s ≡ t
Stats-ext s t p q r u v = λ i. record {
  total_blocks = p i;
  free_blocks = q i;
  used_blocks = r i;
  free_bytes = u i;
  used_bytes = v i;
}

plus-cons : (t : Stats) (b : Block) (bs : List Block) → plus (plus t (b ∷ [])) bs ≡ plus t (b ∷ bs)
plus-cons t b bs =
    Stats-ext (plus (plus t (b ∷ [])) bs) (plus t (b ∷ bs)) (omega arith) (omega arith)
      (omega arith) (omega arith) (omega arith)

-- What the loop adds for the block `b`.
counted : Stats → Block → Stats
counted t b =
    if not (flag b.is_free == 0)
    then record t {
      total_blocks = add32 t.total_blocks 1;
      free_blocks = add32 t.free_blocks 1;
      free_bytes = add32 t.free_bytes b.bytes;
    }
    else record t {
      total_blocks = add32 t.total_blocks 1;
      used_blocks = add32 t.used_blocks 1;
      used_bytes = add32 t.used_bytes b.bytes;
    }

counted-plus :
    (n : ℕ) (t : Stats) (b : Block)
    → AtMost n t
    → n + block_header_size + b.bytes < u32_mod
    → counted t b ≡ plus t (b ∷ [])
unfolding counted
counted-plus n t b a small = elim (Bool-cases b.is_free) [
  | inl e ↦
      rw e (Stats-ext _ _ (omega arith) (omega arith) (omega arith) (omega arith) (omega arith))
  | inr e ↦
      rw e (Stats-ext _ _ (omega arith) (omega arith) (omega arith) (omega arith) (omega arith))
]

AtMost-plus :
    (n : ℕ) (t : Stats) (b : Block)
    → AtMost n t
    → AtMost (n + block_header_size + b.bytes) (plus t (b ∷ []))
AtMost-plus n t b a = elim (Bool-cases b.is_free) [
  | inl e ↦ record {
    total = omega arith;
    free_ = rw e (omega arith);
    used = rw e (omega arith);
    free_b = rw e (omega arith);
    used_b = rw e (omega arith);
  }
  | inr e ↦ record {
    total = omega arith;
    free_ = rw e (omega arith);
    used = rw e (omega arith);
    free_b = rw e (omega arith);
    used_b = rw e (omega arith);
  }
]

stats_loop_lem :
    (fuel n : ℕ) (m : Mem) (cur lo : ℕ) (t : Stats) (bs : List Block)
    → Chain m cur bs
    → Ordered lo bs
    → AtMost n t
    → n + footprint bs < u32_mod
    → length bs < fuel
    → stats_loop fuel m cur t ≡ some (plus t bs)
unfolding stats_loop footprint counted
stats_loop_lem zero n m cur lo t bs c o a small l = absurd (omega arith)
stats_loop_lem (suc fuel) n m cur lo t [] c o a small l = rw c (
    ap some (
      Stats-ext t (plus t []) (omega arith) (omega arith) (omega arith) (omega arith)
        (omega arith)))
stats_loop_lem (suc fuel) n m cur lo t (b ∷ bs) (e, h, c) (_, pos, _, _, o) a small l =
    rw (e, ne→== b.addr 0 (omega arith), h.has_free, h.has_size)
      (ap (λ s. stats_loop fuel m (next m b.addr) s) (counted-plus n t b a (omega arith))
        ∙ stats_loop_lem fuel (n + block_header_size + b.bytes) m (next m b.addr) (block_end b)
            (plus t (b ∷ [])) bs c o (AtMost-plus n t b a) (omega arith) (omega arith)
        ∙ ap some (plus-cons t b bs))

-- On a well-formed heap, with more fuel than blocks, the statistics are the number of the blocks, that
-- of the free and of the used ones, and the bytes of both.
pub kmalloc_stats_lem :
    (fuel : ℕ) (m : Mem) (h : Heap) (bs : List Block)
    → IsHeap m h bs
    → length bs < fuel
    → kmalloc_stats fuel h m
      ≡ some (record {
        total_blocks = length bs;
        free_blocks = blocks_of true bs;
        used_blocks = blocks_of false bs;
        free_bytes = bytes_of true bs;
        used_bytes = bytes_of false bs;
      })
unfolding kmalloc_stats
kmalloc_stats_lem fuel m h bs v l =
    let none_yet : Stats = record {
      total_blocks = 0;
      free_blocks = 0;
      used_blocks = 0;
      free_bytes = 0;
      used_bytes = 0;
    } in
    stats_loop_lem fuel 0 m h.heap_start 0 none_yet bs v.chain v.ordered
      (record {
        total = omega arith;
        free_ = omega arith;
        used = omega arith;
        free_b = omega arith;
        used_b = omega arith;
      })
      (omega (arith, footprint-le 0 bs v.ordered)) l
    ∙ ap some (
        Stats-ext (plus none_yet bs) _ (omega arith) (omega arith) (omega arith) (omega arith)
          (omega arith))
