-- ===== src/Descriptors.antt =====
-- kernel/gdt.c and kernel/idt.c: the packed descriptors of segments and of interrupt gates.
pub mod Fields
pub mod Tables
use stak_os.Base.{ℕ, bit_and, bit_or}
use stak_os.Base.Words.{shr}

-- `gdt_entry_t`
pub record GdtEntry : Type 0 where
  pub limit_low : ℕ
  pub base_low : ℕ
  pub base_mid : ℕ
  pub access : ℕ
  pub granularity : ℕ
  pub base_high : ℕ

-- The entry that `gdt_set_entry` writes.
pub gdt_set_entry : (base limit access gran : ℕ) → GdtEntry
gdt_set_entry base limit access gran = record {
  base_low = bit_and base 65535;
  base_mid = bit_and (shr base 16) 255;
  base_high = bit_and (shr base 24) 255;
  limit_low = bit_and limit 65535;
  granularity = bit_or (bit_and (shr limit 16) 15) (bit_and gran 240);
  access = access;
}

-- `idt_entry_t`; its field `zero` is 0.
pub record IdtEntry : Type 0 where
  pub offset_low : ℕ
  pub selector : ℕ
  pub flags : ℕ
  pub offset_high : ℕ

-- The entry that `idt_set_gate` writes.
unfoldable pub idt_set_gate : (base sel flags : ℕ) → IdtEntry
idt_set_gate base sel flags = record {
  offset_low = bit_and base 65535;
  offset_high = bit_and (shr base 16) 65535;
  selector = sel;
  flags = flags;
}
