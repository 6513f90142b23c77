-- ===== src/Interrupt/Tests.antt =====
-- The gate of the system calls, and the divisor for 100 Hz.
use stak_os.Base.{ℕ, ◌+◌, ◌*◌, ◌≡◌, refl, get_or, arith}
use stak_os.Descriptors.{idt_set_gate}
use stak_os.Interrupt.{zero_gate, idt_init}
use stak_os.Interrupt.Gates.{privilege, gate_of, idt_init_lem, user_gate}

-- Entry points 16 bytes apart.
abbrev isr : ℕ → ℕ
isr n = 0x10_0000 + 16 * n

abbrev irq : ℕ → ℕ
irq n = 0x11_0000 + 16 * n

called : privilege (gate_of isr irq 0x12_0000 128) ≡ 3
unfolding privilege gate_of idt_set_gate
called = refl

callable : privilege (get_or (idt_init isr irq 0x12_0000) 128 zero_gate) ≡ 3
unfolding privilege idt_set_gate
callable = rw (idt_init_lem isr irq 0x12_0000 128 (omega arith)) called

abbrev vector : ℕ
vector = 128

user_gate_example :
    (vector ≡ 128)
    × (get_or (idt_init isr irq 0x12_0000) vector zero_gate ≡ idt_set_gate 0x12_0000 8 0xEE)
user_gate_example = user_gate isr irq 0x12_0000 vector (omega arith) callable
