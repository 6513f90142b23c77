-- ===== src/Interrupt.antt =====
-- kernel/idt.c and `pit_init` of kernel/pit.c: the gates, the interrupt controller, the exception
-- reports and the table of interrupt handlers. A write to a port is the pair of the port and the
-- byte.
pub mod Gates
mod Tests
use stak_os.Base.{
  ℕ, zero, suc, ◌+◌, ◌*◌, ◌/◌, ◌%◌, ◌<◌, ◌≡◌, Bool, true, false, Option, none, some, List, [], ◌∷◌,
  ◌++◌, ◌==◌, if◌then◌else◌, ltb, leb, get_or, set, replicate, bit_and,
}
use stak_os.Base.Text.{text}
use stak_os.Base.Words.{sub32, shr}
use stak_os.Vga.{Vga}
use stak_os.Kernel.Print.{
  Piece, lit, str, int, hex, color, print_all, kpanic, light_grey, light_green, light_red, yellow,
}
use stak_os.Descriptors.{IdtEntry, idt_set_gate}

abbrev pub idt_entries : ℕ
idt_entries = 256

abbrev pub zero_gate : IdtEntry
zero_gate = record { offset_low = 0; selector = 0; flags = 0; offset_high = 0 }

-- The `n` calls of idt_set_gate from vector `first` on, for the entry points `stub`.
unfoldable pub set_gates : (n first : ℕ) → (stub : ℕ → ℕ) → List IdtEntry → List IdtEntry
set_gates zero first stub idt = idt
set_gates (suc n) first stub idt =
    set (set_gates n first stub idt) (first + n) (idt_set_gate (stub n) 8 0x8E)

-- The table that idt_init fills, for the entry points `isr0` to `isr31`, `irq0` to `irq15` and
-- `isr128`.
pub idt_init : (isr irq : ℕ → ℕ) → (isr128 : ℕ) → List IdtEntry
idt_init isr irq isr128 =
    let exceptions = set_gates 32 0 isr (replicate idt_entries zero_gate) in
    set (set_gates 16 32 irq exceptions) 128 (idt_set_gate isr128 8 0xEE)

-- `m1` and `m2` are the masks that it has read.
pub pic_remap : (m1 m2 : ℕ) → List (ℕ × ℕ)
pic_remap m1 m2 =
    (0x20, 0x11)
    ∷ (0xA0, 0x11)
    ∷ (0x21, 0x20)
    ∷ (0xA1, 0x28)
    ∷ (0x21, 0x04)
    ∷ (0xA1, 0x02)
    ∷ (0x21, 0x01)
    ∷ (0xA1, 0x01)
    ∷ (0x21, m1)
    ∷ (0xA1, m2)
    ∷ []

abbrev pub reserved : List ℕ
reserved = text "Reserved"

abbrev pub exception_names : List (List ℕ)
exception_names =
    text "Division By Zero"
    ∷ text "Debug"
    ∷ text "Non Maskable Interrupt"
    ∷ text "Breakpoint"
    ∷ text "Overflow"
    ∷ text "Out of Bounds"
    ∷ text "Invalid Opcode"
    ∷ text "No Coprocessor"
    ∷ text "Double Fault"
    ∷ text "Coprocessor Segment Overrun"
    ∷ text "Bad TSS"
    ∷ text "Segment Not Present"
    ∷ text "Stack Fault"
    ∷ text "General Protection Fault"
    ∷ text "Page Fault"
    ∷ text "Unknown Interrupt"
    ∷ text "Coprocessor Fault"
    ∷ text "Alignment Check"
    ∷ text "Machine Check"
    ∷ replicate 13 reserved

-- What isr_handler prints for a page fault at `fault_addr`, and for another exception, up to the
-- halt of kpanic.
page_fault : (fault_addr err_code eip : ℕ) → List Piece
page_fault fault_addr err_code eip =
    (color light_red
      ∷ lit "\n[PAGE FAULT] addr="
      ∷ hex fault_addr
      ∷ lit "  err="
      ∷ hex err_code
      ∷ lit "  eip="
      ∷ hex eip
      ∷ lit "\n  "
      ∷ (if bit_and err_code 1 == 0 then lit "not-present " else lit "protection ")
      ∷ (if bit_and err_code 2 == 0 then lit "read " else lit "write ")
      ∷ (if bit_and err_code 4 == 0 then lit "kernel" else lit "user")
      ∷ lit "\n"
      ∷ [])
    ++ kpanic (text "Page fault") []

exception : (int_no : ℕ) → List Piece
exception int_no =
    let exc_name = if ltb int_no 32 then get_or exception_names int_no [] else text "Unknown" in
    (color yellow ∷ lit "ISR HIT: " ∷ int int_no ∷ lit "\n" ∷ [])
    ++ kpanic (text "EXCEPTION: ") exc_name

-- The screen when isr_handler halts the machine; `fault_addr` is the register CR2.
pub isr_handler : Vga → (int_no err_code eip fault_addr : ℕ) → Option Vga
isr_handler v int_no err_code eip fault_addr =
    print_all v (if int_no == 14 then page_fault fault_addr err_code eip else exception int_no)

-- The table of handlers; `A` is the type of the function pointers and `none` is NULL.
module _ {A : Type 0} where
  pub irq_register : List (Option A) → (irq : ℕ) → A → List (Option A)
  irq_register handlers irq handler =
      if ltb irq 16 then set handlers irq (some handler) else handlers

  -- The acknowledgements, and the handler that is called.
  pub irq_handler : List (Option A) → (int_no : ℕ) → List (ℕ × ℕ) × Option A
  irq_handler handlers int_no =
      let irq = sub32 int_no 32 % 256 in
      let first : List (ℕ × ℕ) = if leb 40 int_no then (0xA0, 0x20) ∷ [] else [] in
      (first ++ ((0x20, 0x20) ∷ []), if ltb irq 16 then get_or handlers irq none else none)

abbrev pub pit_base_freq : ℕ
pit_base_freq = 1193182

-- The bytes that `pit_init` sends for a frequency above 0.
pub pit_divisor : (hz : ℕ) → List (ℕ × ℕ)
pit_divisor hz =
    let divisor = pit_base_freq / hz in
    (0x43, 0x36) ∷ (0x40, bit_and divisor 255) ∷ (0x40, bit_and (shr divisor 8) 255) ∷ []

pub pit_report : (hz : ℕ) → List Piece
pit_report hz =
    color light_green ∷ lit "[OK] PIT initialized (" ∷ int hz ∷ lit " Hz)\n" ∷ color light_grey ∷ []
