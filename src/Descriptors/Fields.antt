-- ===== src/Descriptors/Fields.antt =====
-- The fields of a descriptor put together give what it was made from.
use stak_os.Base.{ℕ, ◌+◌, ◌*◌, ◌/◌, ◌<◌, ◌≡◌, arith}
use stak_os.Base.Words.{u32_mod}
use stak_os.Base.Words.Bits.{bit_and-mask}
use stak_os.Descriptors.{GdtEntry, gdt_set_entry, IdtEntry, idt_set_gate}

-- The address that the processor puts together from a segment descriptor.
unfoldable pub segment_base : GdtEntry → ℕ
segment_base g = g.base_low + 65536 * g.base_mid + 16777216 * g.base_high

-- The address that the processor puts together from a gate.
unfoldable pub gate_base : IdtEntry → ℕ
gate_base g = g.offset_low + 65536 * g.offset_high

-- The fields that `gdt_set_entry` and `idt_set_gate` write give back a base address of 32 bits.
pub descriptor_bases :
    (base limit access gran sel flags : ℕ)
    → base < u32_mod
    → (segment_base (gdt_set_entry base limit access gran) ≡ base)
      × (gate_base (idt_set_gate base sel flags) ≡ base)
unfolding segment_base gate_base gdt_set_entry idt_set_gate
descriptor_bases base limit access gran sel flags l = (
  omega (
    arith,
    l,
    bit_and-mask 16 base,
    bit_and-mask 8 (base / 65536),
    bit_and-mask 8 (base / 16777216),
  ),
  omega (arith, l, bit_and-mask 16 base, bit_and-mask 16 (base / 65536)),
)
