-- ===== src/Interrupt/Gates.antt =====
-- Which vector of the table leads where, which handler an interrupt calls, and the frequency of
-- the timer.
use stak_os.Base.{
  ℕ, zero, suc, ◌+◌, ◌-◌, ◌*◌, ◌/◌, ◌%◌, ◌≤◌, ◌<◌, ◌≡◌, ◌≢◌, refl, sym, ◌∙◌, Option, none, some,
  List, [], ◌∷◌, ◌==◌, if◌then◌else◌, ltb, get_or, replicate, length, length-set, length-replicate,
  get_or-set_self, get_or-set_ne, get_or-replicate, arith, Bool-cases, bit_and, inl, inr, eq→==,
  ne→==, lt→ltb, le→ltb, lt→leb,
}
use native.Mathlib.Nat.{mul-div-le, lt-mul-div-succ, mul-le-mul_right, mul_comm}
use native.Mathlib.Decide.{ℕ_discrete, dec_lt}
use stak_os.Base.Words.{sub32}
use stak_os.Base.Words.Bits.{bit_and-mask}
use stak_os.Descriptors.{IdtEntry, idt_set_gate}
use stak_os.Interrupt.{
  idt_entries, zero_gate, set_gates, idt_init, irq_register, irq_handler, pit_divisor,
  pit_base_freq,
}

length-set_gates :
    (n first : ℕ) (stub : ℕ → ℕ) (idt : List IdtEntry)
    → length (set_gates n first stub idt) ≡ length idt
unfolding set_gates
length-set_gates zero first stub idt = refl
length-set_gates (suc n) first stub idt =
    length-set (set_gates n first stub idt) (first + n) _ ∙ length-set_gates n first stub idt

set_gates-outside :
    (n first : ℕ) (stub : ℕ → ℕ) (idt : List IdtEntry) (v : ℕ)
    → ((i : ℕ) → i < n → first + i ≢ v)
    → get_or (set_gates n first stub idt) v zero_gate ≡ get_or idt v zero_gate
unfolding set_gates
set_gates-outside zero first stub idt v out = refl
set_gates-outside (suc n) first stub idt v out =
    get_or-set_ne (set_gates n first stub idt) (first + n) v _ zero_gate (out n (omega arith))
    ∙ set_gates-outside n first stub idt v (λ i l. out i (omega arith))

set_gates-inside :
    (n first : ℕ) (stub : ℕ → ℕ) (idt : List IdtEntry) (i : ℕ)
    → i < n
    → first + n ≤ length idt
    → get_or (set_gates n first stub idt) (first + i) zero_gate ≡ idt_set_gate (stub i) 8 0x8E
unfolding set_gates
set_gates-inside zero first stub idt i l room = absurd (omega arith)
set_gates-inside (suc n) first stub idt i l room = elim (ℕ_discrete i n) [
  | yes e ↦ rw e (
      get_or-set_self (set_gates n first stub idt) (first + n) _ zero_gate
        (omega (arith, length-set_gates n first stub idt)))
  | no ne ↦
      get_or-set_ne (set_gates n first stub idt) (first + n) (first + i) _ zero_gate (omega arith)
      ∙ set_gates-inside n first stub idt i (omega arith) (omega arith)
]

-- The gate that belongs to vector `v`.
unfoldable pub gate_of : (isr irq : ℕ → ℕ) → (isr128 v : ℕ) → IdtEntry
gate_of isr irq isr128 v =
    if ltb v 32
    then idt_set_gate (isr v) 8 0x8E
    else if ltb v 48
    then idt_set_gate (irq (v - 32)) 8 0x8E
    else if v == 128
    then idt_set_gate isr128 8 0xEE
    else zero_gate

abbrev blank : List IdtEntry
blank = replicate idt_entries zero_gate

-- Every vector of the table has its gate: the 32 exceptions, the 16 interrupts, the system call at
-- 128, and all others are not present.
pub idt_init_lem :
    (isr irq : ℕ → ℕ) (isr128 v : ℕ)
    → v < idt_entries
    → get_or (idt_init isr irq isr128) v zero_gate ≡ gate_of isr irq isr128 v
unfolding idt_init gate_of
idt_init_lem isr irq isr128 v l =
    let first : List IdtEntry = set_gates 32 0 isr blank in
    let second : List IdtEntry = set_gates 16 32 irq first in
    let blank_length : length blank ≡ 256 = length-replicate idt_entries zero_gate in
    let first_length : length first ≡ 256 = length-set_gates 32 0 isr blank ∙ blank_length in
    let second_length : length second ≡ 256 = length-set_gates 16 32 irq first ∙ first_length in
    elim (dec_lt v 32) [
      | yes e ↦
          let same : 0 + v ≡ v = omega arith in
          rw (lt→ltb v 32 e) (
            get_or-set_ne second 128 v _ zero_gate (omega (arith, e))
            ∙ set_gates-outside 16 32 irq first v (λ i m. omega (arith, e))
            ∙ (rw same at (set_gates-inside 32 0 isr blank v e (omega (arith, blank_length)))))
      | no above ↦ elim (dec_lt v 48) [
        | yes e ↦
            let back : 32 + (v - 32) ≡ v = omega (arith, above) in
            rw (le→ltb v 32 (omega (arith, above)), lt→ltb v 48 e)
              (get_or-set_ne second 128 v _ zero_gate (omega (arith, e))
                ∙ (rw back at (
                    set_gates-inside 16 32 irq first (v - 32) (omega (arith, e))
                      (omega (arith, first_length)))))
        | no higher ↦ elim (ℕ_discrete v 128) [
          | yes e ↦ rw e (get_or-set_self second 128 _ zero_gate (omega (arith, second_length)))
          | no other ↦
              rw
                (
                  le→ltb v 32 (omega (arith, above)),
                  le→ltb v 48 (omega (arith, higher)),
                  ne→== v 128 other,
                )
                (get_or-set_ne second 128 v _ zero_gate (λ e. other (sym e))
                  ∙ set_gates-outside 16 32 irq first v (λ i m. omega (arith, higher))
                  ∙ set_gates-outside 32 0 isr blank v (λ i m. omega (arith, above))
                  ∙ get_or-replicate idt_entries v zero_gate zero_gate l)
        ]
      ]
    ]

-- The privilege level from which a program may call a gate.
unfoldable pub privilege : IdtEntry → ℕ
privilege g = g.flags / 32 % 4

-- Of the 256 gates, one that a program in user mode may call is number 128, and leads to the entry
-- point of the system calls.
pub user_gate :
    (isr irq : ℕ → ℕ) (isr128 v : ℕ)
    → v < idt_entries
    → privilege (get_or (idt_init isr irq isr128) v zero_gate) ≡ 3
    → (v ≡ 128) × (get_or (idt_init isr irq isr128) v zero_gate ≡ idt_set_gate isr128 8 0xEE)
unfolding privilege gate_of idt_set_gate
user_gate isr irq isr128 v l p =
    let lem = idt_init_lem isr irq isr128 v l in
    let at_gate : privilege (gate_of isr irq isr128 v) ≡ 3 = rw lem at p in
    elim (ℕ_discrete v 128) [
      | yes e ↦ (e, lem ∙ rw e refl)
      | no other ↦ elim (dec_lt v 32) [
        | yes e ↦ absurd (omega (arith, rw (lt→ltb v 32 e) at at_gate))
        | no above ↦ elim (dec_lt v 48) [
          | yes e ↦
              absurd
                (omega (arith, rw (le→ltb v 32 (omega (arith, above)), lt→ltb v 48 e) at at_gate))
          | no higher ↦ absurd (
              omega (
                arith,
                rw
                    (
                      le→ltb v 32 (omega (arith, above)),
                      le→ltb v 48 (omega (arith, higher)),
                      ne→== v 128 other,
                    )
                    at at_gate,
              ))
        ]
      ]
    ]

-- After a registration, an interrupt of the controller calls the handler registered for its
-- line, and any other interrupt the same handler as before.
pub irq_handler-register :
    {A : Type 0} (handlers : List (Option A)) (irq : ℕ) (handler : A) (int_no : ℕ)
    → length handlers ≡ 16
    → irq < 16
    → 32 ≤ int_no
    → int_no < 288
    → (irq_handler (irq_register handlers irq handler) int_no).1
      ≡ (if int_no == irq + 32 then some handler else (irq_handler handlers int_no).1)
unfolding irq_register irq_handler
irq_handler-register handlers irq handler int_no size l lo hi =
    let line : sub32 int_no 32 % 256 ≡ int_no - 32 = omega (arith, lo, hi) in
    rw (line, lt→ltb irq 16 l)
      (elim (ℕ_discrete int_no (irq + 32)) [
        | yes e ↦
            let at_line : int_no - 32 ≡ irq = omega (arith, e) in
            rw (at_line, lt→ltb irq 16 l, eq→== int_no (irq + 32) e)
              (get_or-set_self handlers irq (some handler) none (omega (arith, size, l)))
        | no ne ↦
            rw
              (
                ne→== int_no (irq + 32) ne,
                get_or-set_ne handlers irq (int_no - 32) (some handler) none
                    (omega (arith, ne, lo)),
              )
              refl
      ])

pub length-irq_register :
    {A : Type 0} (handlers : List (Option A)) (irq : ℕ) (handler : A)
    → length (irq_register handlers irq handler) ≡ length handlers
unfolding irq_register
length-irq_register handlers irq handler = elim (Bool-cases (ltb irq 16)) [
  | inl e ↦ rw e (length-set handlers irq (some handler))
  | inr e ↦ rw e refl
]

pub irq_handler-first :
    {A : Type 0} (handlers : List (Option A)) (int_no : ℕ)
    → int_no < 40
    → (irq_handler handlers int_no).0 ≡ (0x20, 0x20) ∷ []
unfolding irq_handler
irq_handler-first handlers int_no l = rw (lt→leb 40 int_no l) refl

-- For a frequency that the divisor's 16 bits allow, the two data bytes sent to the timer are the
-- low and the high half of the divisor, which is the base frequency divided by `hz`.
pub pit_divisor_lem :
    (hz : ℕ)
    → 19 ≤ hz
    → hz ≤ pit_base_freq
    → (low : ℕ) × (high : ℕ) × (low < 256)
      × (high < 256)
      × (pit_divisor hz ≡ (0x43, 0x36) ∷ (0x40, low) ∷ (0x40, high) ∷ [])
      × ((low + 256 * high) * hz ≤ pit_base_freq)
      × (pit_base_freq < (low + 256 * high + 1) * hz)
unfolding pit_divisor
pit_divisor_lem hz lo hi =
    let d : ℕ = pit_base_freq / hz in
    let below : hz * d ≤ pit_base_freq = mul-div-le pit_base_freq hz in
    let small : 19 * d ≤ hz * d = mul-le-mul_right d lo in
    let above : pit_base_freq < hz * (d + 1) = lt-mul-div-succ pit_base_freq (omega (arith, lo)) in
    let low : bit_and d 255 ≡ d % 256 = bit_and-mask 8 d in
    let high : bit_and (d / 256) 255 ≡ d / 256 % 256 = bit_and-mask 8 (d / 256) in
    let whole : bit_and d 255 + 256 * bit_and (d / 256) 255 ≡ d =
      omega (arith, low, high, small, below) in
    (
      bit_and d 255,
      bit_and (d / 256) 255,
      omega (arith, low),
      omega (arith, high),
      refl,
      rw whole (rw (mul_comm hz d) at below),
      rw whole (rw (mul_comm hz (d + 1)) at above),
    )
