-- ===== src/Elf/Tests.antt =====
-- The header of a small image.
use stak_os.Base.{◌⊎◌, inl, ℕ, ◌+◌, ◌≤◌, ◌<◌, ◌≡◌, ◌==◌, if◌then◌else◌, some, none, arith}
use stak_os.Memory.{Mem}
use stak_os.Elf.{Phdr, fill_page, elf32_validate}
use stak_os.Pmm.{page_size}
use stak_os.Elf.Pages.{segment_byte, fill_page_lem}
use stak_os.Elf.Header.{IsImage, start_address, elf32_validate_lem}

-- Entry point 64, one program header at offset 52.
abbrev image : Mem
image k =
    if k == 0
    then 127
    else if k == 1
    then 69
    else if k == 2
    then 76
    else if k == 3
    then 70
    else if k == 4
    then 1
    else if k == 5
    then 1
    else if k == 16
    then 2
    else if k == 18
    then 3
    else if k == 24
    then 64
    else if k == 28
    then 52
    else if k == 42
    then 32
    else if k == 44
    then 1
    else 0

elf32_validate_lem_example :
    (IsImage image 0 × (elf32_validate image 0 ≡ some (start_address image 0)))
    ⊎ ((¬ IsImage image 0) × (elf32_validate image 0 ≡ none))
elf32_validate_lem_example = elf32_validate_lem image 0

-- A segment of 5 bytes that starts inside its page.
abbrev segment : Phdr
segment = record { p_type = 1; p_offset = 4; vaddr = 4194308; filesz = 5; memsz = 9; p_flags = 5 }

fill_page_lem_example :
    ((o : ℕ)
      → o < page_size
      → fill_page image 0 segment 4194304 8192 (8192 + o)
        ≡ segment_byte image 0 segment (4194304 + o))
    × ((x : ℕ)
        → (x < 8192) ⊎ (8192 + page_size ≤ x)
        → fill_page image 0 segment 4194304 8192 x ≡ image x)
fill_page_lem_example = fill_page_lem image 0 segment 4194304 8192 (record {
  page_word = omega arith;
  segment_word = omega arith;
  image_word = omega arith;
  apart = inl (omega arith);
})
