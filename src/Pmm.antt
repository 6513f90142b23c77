-- ===== src/Pmm.antt =====
-- kernel/pmm.c: the physical frame allocator, a bitmap with one bit for each 4 KB frame
-- (0 free, 1 used).
pub mod Bitmap
pub mod Scan
pub mod Alloc
pub mod Free
pub mod Taken
pub mod Region
pub mod Map
pub mod Init
pub mod Requests
pub mod Sample
mod Tests
use stak_os.Base.{
  ℕ, zero, suc, ◌+◌, ◌-◌, ◌*◌, ◌/◌, ◌%◌, ◌^◌, bit_and, bit_or, Bool, true, false, Option, none,
  some, List, ◌==◌, ltb, leb, if◌then◌else◌, get_or, set, replicate, min,
}
use stak_os.Memory.{Mem, load32, load64}
use stak_os.Base.Words.{u32_mod, add32, sub32, mul32, not32, shr}

abbrev pub page_size : ℕ
page_size = 4096

-- `MAX_FRAMES`, and the number of words of the bitmap
abbrev pub max_frames : ℕ
max_frames = 32768

abbrev pub bitmap_words : ℕ
bitmap_words = 1024

abbrev all_used : ℕ
all_used = 0xFFFF_FFFF

pub record Pmm : Type 0 where
  pub bitmap : List ℕ
  pub total_frames : ℕ
  pub free_frames : ℕ

pub frame_set : List ℕ → ℕ → List ℕ
frame_set bitmap frame =
    set bitmap (frame / 32) (bit_or (get_or bitmap (frame / 32) 0) (2 ^ (frame % 32)))

pub frame_clear : List ℕ → ℕ → List ℕ
frame_clear bitmap frame =
    set bitmap (frame / 32) (bit_and (get_or bitmap (frame / 32) 0) (not32 (2 ^ (frame % 32))))

unfoldable pub frame_test : List ℕ → ℕ → ℕ
frame_test bitmap frame = bit_and (shr (get_or bitmap (frame / 32) 0) (frame % 32)) 1

-- The loop over the bits of word `i`, with the rounds that are left.
pub find_bit : List ℕ → (i : ℕ) → (rounds bit : ℕ) → Option ℕ
find_bit bitmap i zero bit = none
find_bit bitmap i (suc n) bit =
    let rest = find_bit bitmap i n (bit + 1) in
    if frame_test bitmap (i * 32 + bit) == 0 then some (i * 32 + bit) else rest

-- The loop over the words, which skips a full one.
pub find_frame : List ℕ → (rounds i : ℕ) → Option ℕ
find_frame bitmap zero i = none
find_frame bitmap (suc n) i =
    let rest = find_frame bitmap n (i + 1) in
    if get_or bitmap i 0 == all_used
    then rest
    else elim (find_bit bitmap i 32 0) [ some frame ↦ some frame | none ↦ rest ]

-- The address of the frame, 0 on failure.
pub pmm_alloc_frame : Pmm → ℕ × Pmm
pmm_alloc_frame p =
    if p.free_frames == 0 then (0, p) else elim (find_frame p.bitmap bitmap_words 0) [
      | none ↦ (0, p)
      | some frame ↦ (
        mul32 frame page_size,
        record p { bitmap = frame_set p.bitmap frame; free_frames = sub32 p.free_frames 1 },
      )
    ]

pub pmm_free_frame : Pmm → ℕ → Pmm
pmm_free_frame p phys_addr =
    let frame = phys_addr / page_size in
    if leb max_frames frame
    then p
    else if frame_test p.bitmap frame == 0
    then p
    else record p { bitmap = frame_clear p.bitmap frame; free_frames = add32 p.free_frames 1 }

-- The frames of an available region, `n` of them left, from `f` on.
free_region : (n : ℕ) → (f : ℕ) → Pmm → Pmm
free_region zero f p = p
free_region (suc n) f p = free_region n (f + 1) (record {
  bitmap = frame_clear p.bitmap f;
  free_frames = add32 p.free_frames 1;
  total_frames = add32 p.total_frames 1;
})

abbrev u64_mod : ℕ
u64_mod = u32_mod * u32_mod

-- What `pmm_init` does for the memory map entry at `e`.
pub add_entry : Mem → (e : ℕ) → Pmm → Pmm
add_entry m e p =
    let start = load64 m e in
    let stop = (start + load64 m (e + 8)) % u64_mod in
    let frame_start = (start + page_size - 1) % u64_mod / page_size % u32_mod in
    let frame_end = stop / page_size % u32_mod in
    if load32 m (e + 16) == 1
    then free_region (min frame_end max_frames - frame_start) frame_start p
    else p

-- The entries of a memory map tag, from `entry_ptr` up to `mmap_end`.
add_entries : (fuel : ℕ) → Mem → (entry_size mmap_end entry_ptr : ℕ) → Pmm → Option Pmm
add_entries zero m entry_size mmap_end entry_ptr p = none
add_entries (suc fuel) m entry_size mmap_end entry_ptr p =
    let rest =
      add_entries fuel m entry_size mmap_end (entry_ptr + entry_size) (add_entry m entry_ptr p) in
    if ltb entry_ptr mmap_end then rest else some p

-- The tags from `tag` on, up to the end tag.
pub walk_tags : (fuel : ℕ) → Mem → (tag : ℕ) → Pmm → Option Pmm
walk_tags zero m tag p = none
walk_tags (suc fuel) m tag p =
    let size = load32 m (tag + 4) in
    let following = bit_and (add32 (add32 tag size) 7) (not32 7) in
    let after : Option Pmm =
      if load32 m tag == 6
      then add_entries fuel m (load32 m (tag + 8)) (tag + size) (tag + 16) p
      else some p in
    let rest : Option Pmm = elim after [ none ↦ none | some p' ↦ walk_tags fuel m following p' ] in
    if load32 m tag == 0 then some p else rest

-- A frame that is in use from the start.
reserve : (f : ℕ) → Pmm → Pmm
reserve f p =
    if frame_test p.bitmap f == 0
    then record p { bitmap = frame_set p.bitmap f; free_frames = sub32 p.free_frames 1 }
    else p

-- The frames below the end of the kernel, `n` of them left, from `f` on.
reserve_from : (n : ℕ) → (f : ℕ) → Pmm → Pmm
reserve_from zero f p = p
reserve_from (suc n) f p = reserve_from n (f + 1) (reserve f p)

-- `kernel_end` is the address of the linker's symbol `_kernel_end`.
pub pmm_init : (fuel : ℕ) → Mem → (mboot_ptr kernel_end : ℕ) → Pmm → Option Pmm
pmm_init fuel m mboot_ptr kernel_end p =
    let kernel_end_frame = add32 kernel_end (page_size - 1) / page_size in
    let mb_frame = mboot_ptr / page_size in
    elim (walk_tags fuel m (mboot_ptr + 8)
      (record p { bitmap = replicate bitmap_words all_used })) [
        | none ↦ none
        | some p1 ↦
            let p2 = record p1 { bitmap = frame_set p1.bitmap 0 } in
            let p3 = reserve_from (min (kernel_end_frame + 1) max_frames) 0 p2 in
            some (if ltb mb_frame max_frames then reserve mb_frame p3 else p3)
      ]
