-- ===== src/Kmalloc.antt =====
-- mm/kmalloc.c: the kernel heap, a chain of block headers in memory. Each loop runs on fuel, and
-- `none` means that the fuel ran out.
pub mod Chain
pub mod Split
pub mod Search
pub mod Coalesce
pub mod Live
pub mod Merged
pub mod Calls
pub mod Free
pub mod Contract
pub mod Sample
pub mod Counts
pub mod Round
pub mod Init
mod Tests
use stak_os.Base.{
  ℕ, zero, suc, ◌+◌, ◌-◌, Bool, true, false, not, ◌&&◌, ◌||◌, Option, none, some, ◌==◌, ltb, leb,
  if◌then◌else◌, bit_and,
}
use stak_os.Base.Words.{add32, sub32, not32}
use stak_os.Memory.{Mem, load32, store32}
use stak_os.Pmm.{Pmm, page_size, pmm_alloc_frame}

-- `block_t`: four words, `magic`, `size`, `free` and `next`.
abbrev pub block_header_size : ℕ
block_header_size = 16

abbrev pub block_magic : ℕ
block_magic = 0xB10C0DE0

abbrev pub min_split_size : ℕ
min_split_size = 8

module _ (m : Mem) (blk : ℕ) where
  abbrev pub magic : ℕ
  magic = load32 m blk

  abbrev pub size : ℕ
  size = load32 m (blk + 4)

  abbrev pub free : ℕ
  free = load32 m (blk + 8)

  abbrev pub next : ℕ
  next = load32 m (blk + 12)

  abbrev pub set_magic : ℕ → Mem
  set_magic v = store32 m blk v

  abbrev pub set_size : ℕ → Mem
  set_size v = store32 m (blk + 4) v

  abbrev pub set_free : ℕ → Mem
  set_free v = store32 m (blk + 8) v

  abbrev pub set_next : ℕ → Mem
  set_next v = store32 m (blk + 12) v

-- The statics `heap_start` and `heap_total_bytes`.
pub record Heap : Type 0 where
  pub heap_start : ℕ
  pub heap_total_bytes : ℕ

-- The loop of `kmalloc_init`, with the pages that are left; `prev` is the last block, 0 at first.
init_loop : (pages : ℕ) → (prev : ℕ) → Heap → Mem → Pmm → Heap × Mem × Pmm
init_loop zero prev h m p = (h, m, p)
init_loop (suc pages) prev h m p =
    let (phys, p') = pmm_alloc_frame p in
    let m' =
      set_next
        (set_free (set_size (set_magic m phys block_magic) phys (page_size - block_header_size))
          phys 1)
        phys 0 in
    let h' : Heap = record {
      heap_start = if h.heap_start == 0 then phys else h.heap_start;
      heap_total_bytes = add32 h.heap_total_bytes page_size;
    } in
    let rest = init_loop pages phys h' (if prev == 0 then m' else set_next m' prev phys) p' in
    if phys == 0 then (h, m, p') else rest

pub kmalloc_init : ℕ → Heap → Mem → Pmm → Heap × Mem × Pmm
unfolding init_loop
kmalloc_init pages h m p =
    if pages == 0 then (h, m, p) else init_loop pages 0 (record h { heap_total_bytes = 0 }) m p

-- `(size + 3) & ~3`
pub align4 : ℕ → ℕ
align4 size = bit_and (add32 size 3) (not32 3)

pub split : Mem → (blk : ℕ) → (size : ℕ) → Mem
split m blk wanted =
    let new_blk = add32 blk (add32 block_header_size wanted) in
    let m1 = set_magic m new_blk block_magic in
    let m2 = set_size m1 new_blk (sub32 (sub32 (size m1 blk) wanted) block_header_size) in
    let m3 = set_free m2 new_blk 1 in
    let m4 = set_next m3 new_blk (next m3 blk) in
    let m5 = set_size m4 blk wanted in
    let m6 = set_next m5 blk new_blk in
    if leb (size m blk) (add32 wanted (block_header_size + min_split_size)) then m else m6

-- The first-fit loop: the pointer that `kmalloc` returns (0 is NULL), and the memory.
pub search : (fuel : ℕ) → Mem → (cur : ℕ) → (size : ℕ) → Option (ℕ × Mem)
search zero m cur wanted = none
search (suc fuel) m cur wanted =
    let rest = search fuel m (next m cur) wanted in
    if cur == 0
    then some (0, m)
    else if not (free m cur == 0) && leb wanted (size m cur)
    then some (add32 cur block_header_size, set_free (split m cur wanted) cur 0)
    else rest

pub kmalloc : (fuel : ℕ) → Heap → Mem → (size : ℕ) → Option (ℕ × Mem)
kmalloc fuel h m wanted =
    if wanted == 0 || h.heap_start == 0
    then some (0, m)
    else search fuel m h.heap_start (align4 wanted)

pub coalesce_loop : (fuel : ℕ) → Mem → (cur : ℕ) → Option Mem
coalesce_loop zero m cur = none
coalesce_loop (suc fuel) m cur =
    let nxt = next m cur in
    let end_of_cur = add32 cur (add32 block_header_size (size m cur)) in
    let grown = set_size m cur (add32 (size m cur) (add32 block_header_size (size m nxt))) in
    let merge = coalesce_loop fuel (set_next grown cur (next grown (next grown cur))) cur in
    let advance = coalesce_loop fuel m nxt in
    if cur == 0 || nxt == 0
    then some m
    else if not (free m cur == 0) && (not (free m nxt == 0) && nxt == end_of_cur)
    then merge
    else advance

pub coalesce : (fuel : ℕ) → Heap → Mem → Option Mem
coalesce fuel h m = coalesce_loop fuel m h.heap_start

-- How `kfree` ends: it returns, or it stops the kernel by `kpanic`.
pub data Outcome : Type 0 where
  returns : Mem → Outcome
  panics : Outcome

pub kfree : (fuel : ℕ) → Heap → Mem → (ptr : ℕ) → Option Outcome
kfree fuel h m ptr =
    let blk = sub32 ptr block_header_size in
    let done : Option Outcome = elim (coalesce fuel h (set_free m blk 1)) [
      | none ↦ none
      | some m' ↦ some (returns m')
    ] in
    if ptr == 0
    then some (returns m)
    else if not (magic m blk == block_magic) || not (free m blk == 0)
    then some panics
    else done

-- What `kmalloc_print_stats` counts.
pub record Stats : Type 0 where
  pub total_blocks : ℕ
  pub free_blocks : ℕ
  pub used_blocks : ℕ
  pub free_bytes : ℕ
  pub used_bytes : ℕ

stats_loop : (fuel : ℕ) → Mem → (cur : ℕ) → Stats → Option Stats
stats_loop zero m cur t = none
stats_loop (suc fuel) m cur t =
    let counted =
      if not (free m cur == 0)
      then record t {
        total_blocks = add32 t.total_blocks 1;
        free_blocks = add32 t.free_blocks 1;
        free_bytes = add32 t.free_bytes (size m cur);
      }
      else record t {
        total_blocks = add32 t.total_blocks 1;
        used_blocks = add32 t.used_blocks 1;
        used_bytes = add32 t.used_bytes (size m cur);
      } in
    let rest = stats_loop fuel m (next m cur) counted in if cur == 0 then some t else rest

pub kmalloc_stats : (fuel : ℕ) → Heap → Mem → Option Stats
kmalloc_stats fuel h m =
    stats_loop fuel m h.heap_start (record {
      total_blocks = 0;
      free_blocks = 0;
      used_blocks = 0;
      free_bytes = 0;
      used_bytes = 0;
    })
