-- ===== src/Elf.antt =====
-- kernel/elf.c: the check of an ELF image, its program headers, and the loading of its segments into
-- an address space. An image is the memory from the address `d` on.
pub mod Header
pub mod Pages
mod Tests
use stak_os.Base.{
  ℕ, zero, suc, ◌+◌, ◌-◌, ◌*◌, ◌/◌, Bool, true, false, not, ◌||◌, Option, none, some, ◌==◌,
  if◌then◌else◌, ltb, leb, bit_and, bit_or,
}
use stak_os.Base.Words.{add32, sub32, mul32}
use stak_os.Memory.{Mem, load8, load16, load32, store8}
use stak_os.Pmm.{pmm_alloc_frame, page_size}
use stak_os.Paging.{Vm, frame_of, paging_map_into}

-- The fields of `elf32_header_t`.
abbrev pub magic : Mem → ℕ → ℕ
magic m d = load32 m d

abbrev pub ei_class : Mem → ℕ → ℕ
ei_class m d = load8 m (d + 4)

abbrev pub ei_data : Mem → ℕ → ℕ
ei_data m d = load8 m (d + 5)

abbrev pub e_type : Mem → ℕ → ℕ
e_type m d = load16 m (d + 16)

abbrev pub machine : Mem → ℕ → ℕ
machine m d = load16 m (d + 18)

abbrev pub entry : Mem → ℕ → ℕ
entry m d = load32 m (d + 24)

abbrev pub phoff : Mem → ℕ → ℕ
phoff m d = load32 m (d + 28)

abbrev pub phentsize : Mem → ℕ → ℕ
phentsize m d = load16 m (d + 42)

abbrev pub phnum : Mem → ℕ → ℕ
phnum m d = load16 m (d + 44)

-- The entry point, `none` where the source returns 0.
pub elf32_validate : Mem → (d : ℕ) → Option ℕ
elf32_validate m d =
    if not (magic m d == 0x464C_457F)
    then none
    else if not (ei_class m d == 1)
    then none
    else if not (ei_data m d == 1)
    then none
    else if not (e_type m d == 2)
    then none
    else if not (machine m d == 3)
    then none
    else if not (phentsize m d == 32)
    then none
    else if phnum m d == 0
    then none
    else some (entry m d)

-- The address of header `i`, `none` for NULL.
pub elf32_get_phdr : Mem → (d i : ℕ) → Option ℕ
elf32_get_phdr m d i =
    if leb (phnum m d) i then none else some (add32 (add32 d (phoff m d)) (mul32 i (phentsize m d)))

abbrev pub elf32_phdr_count : Mem → (d : ℕ) → ℕ
elf32_phdr_count m d = phnum m d

-- `elf32_phdr_t`
pub record Phdr : Type 0 where
  pub p_type : ℕ
  pub p_offset : ℕ
  pub vaddr : ℕ
  pub filesz : ℕ
  pub memsz : ℕ
  pub p_flags : ℕ

pub read_phdr : Mem → (ph : ℕ) → Phdr
read_phdr m ph = record {
  p_type = load32 m ph;
  p_offset = load32 m (ph + 4);
  vaddr = load32 m (ph + 8);
  filesz = load32 m (ph + 16);
  memsz = load32 m (ph + 20);
  p_flags = load32 m (ph + 24);
}

-- The first `n` bytes of a frame are 0.
pub zero_bytes : (n : ℕ) → Mem → (dst : ℕ) → Mem
zero_bytes zero m dst = m
zero_bytes (suc n) m dst = store8 (zero_bytes n m dst) (dst + n) 0

pub copy_bytes : (n : ℕ) → Mem → (dst src : ℕ) → Mem
copy_bytes zero m dst src = m
copy_bytes (suc n) m dst src =
    let m' = copy_bytes n m dst src in store8 m' (dst + n) (load8 m' (src + n))

-- What the file fills of the page at `va`: the bytes of the segment from `copy_start` to `copy_end`.
abbrev pub copy_start : Phdr → (va : ℕ) → ℕ
copy_start ph va = if ltb ph.vaddr va then va else ph.vaddr

abbrev pub copy_end : Phdr → (va : ℕ) → ℕ
copy_end ph va =
    let page_va_end = add32 va page_size in
    let seg_va_end = add32 ph.vaddr ph.filesz in
    if ltb page_va_end seg_va_end then page_va_end else seg_va_end

pub fill_page : Mem → (d : ℕ) → Phdr → (va frame : ℕ) → Mem
fill_page m d ph va frame =
    let zeroed = zero_bytes page_size m frame in
    let start = copy_start ph va in
    let stop = copy_end ph va in
    if ltb start stop
    then copy_bytes (stop - start) zeroed (frame + (start - va))
        (add32 d (add32 ph.p_offset (sub32 start ph.vaddr)))
    else zeroed

-- The end of `elf32_load`: it returned 1, or 0 for want of a frame.
pub data Loaded : Type 0 where
  loaded out_of_memory : Vm → Loaded

abbrev pub segment_flags : Phdr → ℕ
segment_flags ph = if not (bit_and ph.p_flags 2 == 0) then bit_or 5 2 else 5

-- The pages of a segment, `n` of them left, from `va` on.
pub load_pages : (n : ℕ) → Vm → (d pd : ℕ) → Phdr → (va : ℕ) → Option Loaded
load_pages zero vm d pd ph va = some (loaded vm)
load_pages (suc n) vm d pd ph va =
    let (frame, pmm) = pmm_alloc_frame vm.pmm in
    let filled = record vm { pmm = pmm; mem = fill_page vm.mem d ph va frame } in
    let mapped : Option Loaded = elim (paging_map_into filled pd va frame (segment_flags ph)) [
      | none ↦ none
      | some vm' ↦ load_pages n vm' d pd ph (add32 va page_size)
    ] in
    if frame == 0 then some (out_of_memory (record vm { pmm = pmm })) else mapped

abbrev pub seg_start : Phdr → ℕ
seg_start ph = frame_of ph.vaddr

abbrev pub seg_end : Phdr → ℕ
seg_end ph = frame_of (add32 (add32 ph.vaddr ph.memsz) 4095)

pub load_segment : Vm → (d pd : ℕ) → Phdr → Option Loaded
load_segment vm d pd ph =
    if not (ph.p_type == 1)
    then some (loaded vm)
    else if ph.memsz == 0
    then some (loaded vm)
    else load_pages ((seg_end ph - seg_start ph) / page_size) vm d pd ph (seg_start ph)

-- The loop of `elf32_load`, with `n` headers left, from `i` on.
pub load_segments : (n : ℕ) → Vm → (d pd i : ℕ) → Option Loaded
load_segments zero vm d pd i = some (loaded vm)
load_segments (suc n) vm d pd i =
    let segment : Option Loaded = elim (elf32_get_phdr vm.mem d i) [
      | none ↦ some (loaded vm)
      | some ph ↦ load_segment vm d pd (read_phdr vm.mem ph)
    ] in
    elim segment [
      | none ↦ none
      | some (out_of_memory vm') ↦ some (out_of_memory vm')
      | some (loaded vm') ↦ load_segments n vm' d pd (i + 1)
    ]

pub elf32_load : Vm → (d pd_phys : ℕ) → Option Loaded
elf32_load vm d pd_phys = load_segments (elf32_phdr_count vm.mem d) vm d pd_phys 0
