-- ===== src/Boot/Main.antt =====
-- `kernel_main` from the boot loader to the shell.
use stak_os.Base.{ℕ, ◌≡◌, ◌≢◌, refl, ◌∙◌, none, some, List, [], ◌∷◌, ne→==}
use stak_os.Base.Run.{done}
use stak_os.Base.Text.{text}
use stak_os.Scheduler.{scheduler_init}
use stak_os.Scheduler.Lists.{IsSched}
use stak_os.Scheduler.Run.{scheduler_init-IsSched}
use stak_os.RamFs.{RamFile, ramfs_init, ramfs_register}
use stak_os.Interrupt.{pit_report}
use stak_os.Pmm.Map.{Tag}
use stak_os.Kernel.{Kernel}
use stak_os.Kernel.Create.{process_init}
use stak_os.Kernel.Print.{lit}
use stak_os.Kernel.Print.Said.{say-done}
use stak_os.Boot.{
  Links, Machine, multiboot2_magic, report, banner, init_tables, init_processes, init_files,
  init_kernel, running_machine, kernel_main,
}
use stak_os.Boot.Start.{IsLoaded, HasMemory, init_memory_lem}

-- The kernel at the call of `shell_run`.
pub record IsStarted (l : Links) (mboot_ptr : ℕ) (ts : List Tag) (k : Kernel) : Type 0 where
  pub memory : HasMemory l mboot_ptr ts k.mem k.heap k.pmm
  pub lists : IsSched k.sched (l.image.idle_pcb ∷ []) []

module _ (l : Links) (mboot_ptr : ℕ) (ts : List Tag) (idle : l.image.idle_pcb ≢ 0) where
  init_processes_lem :
      (k : Kernel)
      → HasMemory l mboot_ptr ts k.mem k.heap k.pmm
      → k.sched.zombie_head ≡ 0
      → (k' : Kernel) × (init_processes l k ≡ done k') × IsStarted l mboot_ptr ts k'
  unfolding init_processes process_init
  init_processes_lem k v z =
      let k1 : Kernel = process_init l.image k in
      let (w1, e1) =
        say-done k1 (report (lit "[OK] Process subsystem initialized (idle PID=0)\n")) in
      let k2 : Kernel = record k1 { screen = w1; sched = scheduler_init k1.sched } in
      let (w2, e2) =
        say-done k2 (report (lit "[OK] Scheduler initialized (round-robin + priority)\n")) in
      (
        record k2 { screen = w2 },
        rw (init_processes, e1) e2,
        record {
          memory = v;
          lists = rw (ne→== l.image.idle_pcb 0 idle) at (scheduler_init-IsSched k1.sched z);
        },
      )

  init_files-IsStarted :
      (k : Kernel) → IsStarted l mboot_ptr ts k → IsStarted l mboot_ptr ts (init_files l k)
  unfolding init_files
  init_files-IsStarted k v =
      let started : (files : List RamFile) → IsStarted l mboot_ptr ts (record k { files = files }) =
        λ files. record { memory = v.memory; lists = v.lists } in
      let files = ramfs_init k.files in
      elim (ramfs_register files (text "test.elf") l.test_prog_blob l.test_prog_blob_size)
        as (λ o. IsStarted l mboot_ptr ts (elim o [
          | none ↦ record k { files = files }
          | some (i, registered) ↦ record k { files = registered }
        ])) [ none ↦ started files | some (i, registered) ↦ started registered ]

  init_kernel-IsStarted :
      (k : Kernel)
      → IsLoaded l mboot_ptr ts k.mem k.heap k.pmm
      → k.sched.zombie_head ≡ 0
      → (k' : Kernel) × (init_kernel l k mboot_ptr ≡ done k') × IsStarted l mboot_ptr ts k'
  unfolding init_kernel
  init_kernel-IsStarted k v z =
      let (w1, e1) = say-done k banner in
      let (k2, e2, memory, rest) = init_memory_lem l (record k { screen = w1 }) mboot_ptr ts v in
      let (k3, e3, started) = init_processes_lem k2 memory (rest.zombies ∙ z) in
      let (w4, e4) = say-done k3 (pit_report 100) in
      (
        init_files l (record k3 { screen = w4 }),
        rw (init_kernel, e1, e2, e3, e4) refl,
        init_files-IsStarted (record k3 { screen = w4 })
            (record { memory = started.memory; lists = started.lists }),
      )

  -- Loaded by a Multiboot2 loader whose memory map lists at most 100,000 tags and entries, with the
  -- statics at 0 and the tables of paging.c inside the kernel, and with fuel for the tags, `kernel_main`
  -- reaches the shell: the heap is well formed, the counter of the frames is that of the bitmap or ahead
  -- of it, a free frame is available by the memory map and outside the kernel, addresses below 32 MB
  -- are mapped to themselves, and the idle process is alone in the ready queue.
  pub kernel_main-IsStarted :
      (m : Machine)
      → IsLoaded l mboot_ptr ts m.kernel.mem m.kernel.heap m.kernel.pmm
      → m.kernel.sched.zombie_head ≡ 0
      → (m' : Machine) × (kernel_main l m multiboot2_magic mboot_ptr ≡ done m')
        × IsStarted l mboot_ptr ts m'.kernel
  unfolding kernel_main init_tables
  kernel_main-IsStarted m v z =
      let m1 : Machine = init_tables l m in
      let (k, e, started) = init_kernel-IsStarted m1.kernel v z in
      (running_machine m1 k, rw (kernel_main, e) refl, started)
