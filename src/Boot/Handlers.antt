-- ===== src/Boot/Handlers.antt =====
-- What the interrupts run once the kernel has started.
use stak_os.Base.{
  ℕ, ◌≤◌, ◌<◌, ◌≡◌, refl, ap, ◌∙◌, Option, some, List, [], ◌∷◌, ◌++◌, ◌==◌, if◌then◌else◌, length,
  arith,
}
use stak_os.Base.Run.{done, ◌>>=◌}
use stak_os.Keyboard.{keyboard_handler}
use stak_os.Interrupt.{irq_register, irq_handler}
use stak_os.Interrupt.Gates.{irq_handler-register, irq_handler-first, length-irq_register}
use stak_os.Kernel.{Kernel}
use stak_os.Kernel.Exit.{pit_handler}
use stak_os.Boot.{
  Handler, pit_handler_fn, keyboard_handler_fn, Links, Machine, init_tables, interrupt,
  running_machine,
}

module _ (fuel sc : ℕ) (m : Machine) where
  abbrev acknowledged : Machine
  acknowledged = record m { ports = m.ports ++ ((0x20, 0x20) ∷ []) }

  interrupt-timer :
      (irq_handler m.handlers 32).1 ≡ some pit_handler_fn
      → interrupt fuel m 32 sc
        ≡ (pit_handler fuel m.kernel >>= (λ k'. done (record acknowledged { kernel = k' })))
  unfolding interrupt
  interrupt-timer e = rw (interrupt, e, irq_handler-first m.handlers 32 (omega arith)) refl

  interrupt-keyboard :
      (irq_handler m.handlers 33).1 ≡ some keyboard_handler_fn
      → interrupt fuel m 33 sc
        ≡ done (record acknowledged { keyboard = keyboard_handler m.keyboard sc })
  unfolding interrupt
  interrupt-keyboard e = rw (interrupt, e, irq_handler-first m.handlers 33 (omega arith)) refl

-- `m0` is the machine before kernel_main, and `k` the kernel that its initialisation ends with.
module _ (l : Links) (m0 : Machine) (k : Kernel) (size : length m0.handlers ≡ 16) where
  handler_of :
      (int_no : ℕ)
      → 32 ≤ int_no
      → int_no < 288
      → (irq_handler (running_machine (init_tables l m0) k).handlers int_no).1 ≡ (
          if int_no == 32
          then some pit_handler_fn
          else if int_no == 33
          then some keyboard_handler_fn
          else (irq_handler m0.handlers int_no).1)
  unfolding init_tables
  handler_of int_no lo hi =
      let first : List (Option Handler) = irq_register m0.handlers 1 keyboard_handler_fn in
      irq_handler-register first 0 pit_handler_fn int_no
        (length-irq_register m0.handlers 1 keyboard_handler_fn ∙ size) (omega arith) lo hi
      ∙ ap (λ h. if int_no == 32 then some pit_handler_fn else h)
          (irq_handler-register m0.handlers 1 keyboard_handler_fn int_no size (omega arith) lo hi)

  -- On the machine that kernel_main leaves, with 16 lines for handlers, interrupt 32 runs the
  -- handler of the timer, interrupt 33 gives the byte of the port to the keyboard, and both are
  -- acknowledged at the first controller alone.
  pub interrupt-started :
      (fuel sc : ℕ)
      → (let m = running_machine (init_tables l m0) k in
          let told = record m { ports = m.ports ++ ((0x20, 0x20) ∷ []) } in
          (interrupt fuel m 32 sc
            ≡ (pit_handler fuel k >>= (λ k'. done (record told { kernel = k' }))))
          × (interrupt fuel m 33 sc
              ≡ done (record told { keyboard = keyboard_handler m.keyboard sc })))
  interrupt-started fuel sc =
      let m = running_machine (init_tables l m0) k in
      (
        interrupt-timer fuel sc m (handler_of 32 (omega arith) (omega arith)),
        interrupt-keyboard fuel sc m (handler_of 33 (omega arith) (omega arith)),
      )
