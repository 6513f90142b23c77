-- ===== src/Descriptors/Tables.antt =====
-- `gdt_init` and `write_tss` of kernel/gdt.c: the segment table and the task state segment.
use stak_os.Base.{ℕ, ◌-◌, List, [], ◌∷◌}
use stak_os.Descriptors.{GdtEntry, gdt_set_entry}

-- The fields of `tss_entry_t` that the kernel writes; all others are 0.
pub record Tss : Type 0 where
  pub esp0 : ℕ
  pub ss0 : ℕ
  pub iomap_base : ℕ

-- `sizeof(tss_entry_t)`
abbrev pub tss_size : ℕ
tss_size = 104

-- The structure, and the descriptor of it at `tss_at`.
pub write_tss : (tss_at ss0 : ℕ) → GdtEntry × Tss
write_tss tss_at ss0 = (
  gdt_set_entry tss_at (tss_size - 1) 0x89 0,
  record { esp0 = 0; ss0 = ss0; iomap_base = tss_size },
)

pub gdt_init : (tss_at : ℕ) → List GdtEntry × Tss
gdt_init tss_at =
    let (entry, tss) = write_tss tss_at 0x10 in
    (
      gdt_set_entry 0 0 0 0
          ∷ gdt_set_entry 0 0xFFFF_FFFF 0x9A 0xCF
          ∷ gdt_set_entry 0 0xFFFF_FFFF 0x92 0xCF
          ∷ gdt_set_entry 0 0xFFFF_FFFF 0xFA 0xCF
          ∷ gdt_set_entry 0 0xFFFF_FFFF 0xF2 0xCF
          ∷ entry
          ∷ [],
      tss,
    )

pub tss_set_kernel_stack : Tss → (esp0 : ℕ) → Tss
tss_set_kernel_stack tss esp0 = record tss { esp0 = esp0 }
