-- ===== src/Boot.antt =====
-- kernel/kernel.c: `kernel_main` up to the shell, and what an interrupt of the controller runs.
pub mod Handlers
pub mod Start
pub mod Main
mod Tests
use stak_os.Base.{
  ℕ, Bool, true, false, not, Option, none, some, List, [], ◌∷◌, ◌++◌, ◌==◌, if◌then◌else◌,
  replicate, map,
}
use stak_os.Base.Run.{Run, done, halted, ◌>>=◌, fueled}
use stak_os.Base.Text.{text}
use stak_os.Pmm.{pmm_init}
use stak_os.Kmalloc.{kmalloc_init}
use stak_os.Scheduler.{Sched, scheduler_init}
use stak_os.Keyboard.{Keyboard, keyboard_handler}
use stak_os.RamFs.{ramfs_init, ramfs_register}
use stak_os.Vga.{vga_init}
use stak_os.Paging.{Vm, paging_init}
use stak_os.Descriptors.{GdtEntry, IdtEntry}
use stak_os.Descriptors.Tables.{Tss, gdt_init}
use stak_os.Interrupt.{idt_init, pic_remap, irq_register, irq_handler, pit_divisor, pit_report}
use stak_os.Kernel.{Kernel, Image, vm_of, with_vm, with_pmm, with_sched}
use stak_os.Kernel.Create.{process_init}
use stak_os.Kernel.Exit.{pit_handler}
use stak_os.Kernel.Print.{
  Piece, lit, int, color, say, kpanic, pmm_print_stats, kmalloc_print_stats, light_grey,
  light_green, light_cyan,
}

-- The functions that the kernel registers for interrupts.
pub data Handler : Type 0 where
  pit_handler_fn keyboard_handler_fn : Handler

-- What the linker, the boot loader and the ports give: addresses, entry points, the masks of the
-- interrupt controllers, and the embedded program.
pub record Links : Type 0 where
  pub image : Image
  pub fuel : ℕ
  pub kernel_end : ℕ
  pub kernel_pd : ℕ
  pub identity_pts : ℕ
  pub tss_at : ℕ
  pub isr : ℕ → ℕ
  pub irq : ℕ → ℕ
  pub isr128 : ℕ
  pub mask1 : ℕ
  pub mask2 : ℕ
  pub test_prog_blob : ℕ
  pub test_prog_blob_size : ℕ

-- The kernel, the keyboard, the tables of the processor and of the handlers, and the bytes written to
-- ports, in their order.
pub record Machine : Type 0 where
  pub kernel : Kernel
  pub keyboard : Keyboard
  pub gdt : List GdtEntry
  pub tss : Tss
  pub idt : List IdtEntry
  pub handlers : List (Option Handler)
  pub ports : List (ℕ × ℕ)

abbrev pub multiboot2_magic : ℕ
multiboot2_magic = 0x36D76289

abbrev pub heap_pages : ℕ
heap_pages = 16

pub debug_print : List ℕ → List (ℕ × ℕ)
debug_print s = map (λ c. (0xE9, c)) s

-- The line that an initialised part reports.
abbrev pub report : Piece → List Piece
report p = color light_green ∷ p ∷ color light_grey ∷ []

-- The tables of the processor, and the handler of the keyboard.
pub init_tables : Links → Machine → Machine
init_tables l m =
    let (gdt, tss) = gdt_init l.tss_at in
    record m {
      kernel = record m.kernel { screen = vga_init m.kernel.screen };
      gdt = gdt;
      tss = tss;
      idt = idt_init l.isr l.irq l.isr128;
      ports = m.ports ++ pic_remap l.mask1 l.mask2;
      handlers = irq_register m.handlers 1 keyboard_handler_fn;
    }

abbrev pub banner : List Piece
banner =
    color light_cyan
    ∷ lit "StakOS\n"
    ∷ color light_grey
    ∷ lit "----------------------------------------\n"
    ∷ color light_green
    ∷ lit "[OK] GDT initialized\n"
    ∷ lit "[OK] IDT initialized\n"
    ∷ lit "[OK] PIC remapped\n"
    ∷ lit "[OK] Interrupts enabled\n"
    ∷ lit "[OK] Keyboard initialized\n"
    ∷ []

-- `pmm_init`, `paging_init` and `kmalloc_init` with their reports.
pub init_memory : Links → Kernel → (mboot_ptr : ℕ) → Run Kernel
init_memory l k mboot_ptr = do
  pmm ← fueled (pmm_init l.fuel k.mem mboot_ptr l.kernel_end k.pmm)
  k1 ← say (with_pmm k pmm) (pmm_print_stats pmm)
  let k2 = record k1 { kernel_pd = l.kernel_pd; sched = record k1.sched { cr3 = l.kernel_pd } }
  k3 ← say (with_vm k2 (paging_init (vm_of k2) l.identity_pts)) (
      color light_green
      ∷ lit "[OK] Paging enabled (identity 0 - "
      ∷ int 32
      ∷ lit "MB)\n"
      ∷ color light_grey
      ∷ [])
  let r = kmalloc_init heap_pages k3.heap k3.mem k3.pmm
  kmalloc_print_stats l.fuel (record k3 { heap = r.0; mem = r.1; pmm = r.2 })

-- `process_init` and `scheduler_init` with their reports.
pub init_processes : Links → Kernel → Run Kernel
init_processes l k = do
  k1 ←
      say (process_init l.image k)
        (report (lit "[OK] Process subsystem initialized (idle PID=0)\n"))
  say (with_sched k1 (scheduler_init k1.sched))
      (report (lit "[OK] Scheduler initialized (round-robin + priority)\n"))

-- The file table with the embedded program.
pub init_files : Links → Kernel → Kernel
init_files l k =
    let files = ramfs_init k.files in
    elim (ramfs_register files (text "test.elf") l.test_prog_blob l.test_prog_blob_size) [
      | none ↦ record k { files = files }
      | some (i, registered) ↦ record k { files = registered }
    ]

-- What kernel_main does to the kernel behind the check of the boot loader.
pub init_kernel : Links → Kernel → (mboot_ptr : ℕ) → Run Kernel
init_kernel l k mboot_ptr = do
  k1 ← say k banner
  k2 ← init_memory l k1 mboot_ptr
  k3 ← init_processes l k2
  k4 ← say k3 (pit_report 100)
  done (init_files l k4)

-- `pit_init` registers the handler of the timer; the message at the end goes to the debug port.
abbrev pub running_machine : Machine → Kernel → Machine
running_machine m k = record m {
  kernel = k;
  handlers = irq_register m.handlers 0 pit_handler_fn;
  ports = m.ports ++ (pit_divisor 100 ++ debug_print (text "STAKOS_BOOT_OK\n"));
}

-- `kernel_main` up to the call of shell_run, when no interrupt comes.
pub kernel_main : Links → Machine → (magic mboot_ptr : ℕ) → Run Machine
kernel_main l m magic mboot_ptr =
    let m1 = init_tables l m in
    let started : Run Machine = do
      k ← init_kernel l m1.kernel mboot_ptr
      done (running_machine m1 k)
    in if magic == multiboot2_magic then started else halted

-- An interrupt of the controller: the acknowledgement and its handler; `sc` is the byte at the port
-- of the keyboard.
pub interrupt : (fuel : ℕ) → Machine → (int_no sc : ℕ) → Run Machine
interrupt fuel m int_no sc =
    let (acknowledged, handler) = irq_handler m.handlers int_no in
    let m' = record m { ports = m.ports ++ acknowledged } in
    elim handler [
      | none ↦ done m'
      | some pit_handler_fn ↦ do k ← pit_handler fuel m'.kernel; done (record m' { kernel = k })
      | some keyboard_handler_fn ↦ done (record m' { keyboard = keyboard_handler m'.keyboard sc })
    ]
