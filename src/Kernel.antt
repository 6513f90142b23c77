-- ===== src/Kernel.antt =====
-- kernel/process.c, kernel/pit.c, and what of kernel/scheduler.c and kernel/syscall.c needs the whole
-- kernel: processes are created and end, the timer ticks, and system calls are dispatched.
--
-- A process structure is its record in `sched.procs`; the bytes of its block of the heap matter to
-- the heap alone. The fuel is for the loops over the heap, the lists and the ELF tables.
pub mod Create
pub mod Context
pub mod Exit
pub mod Print
pub mod Calls
pub mod Ending
pub mod Release
pub mod Ticking
pub mod Sample
mod Tests
use stak_os.Base.{
  ℕ, zero, suc, ◌+◌, ◌-◌, ◌*◌, Bool, true, false, not, ◌&&◌, ◌||◌, Option, none, some, List, [],
  ◌∷◌, ◌==◌, if◌then◌else◌, ltb, replicate,
}
use stak_os.Base.Run.{Run, done, halted, no_fuel, ◌>>=◌, fueled, unless_panic}
use stak_os.Base.Text.{text}
use stak_os.Base.Words.{add32, sub32}
use stak_os.Memory.{Mem, load8, store32}
use stak_os.Pmm.{Pmm, page_size, pmm_alloc_frame, pmm_free_frame}
use stak_os.Kmalloc.{Heap, kmalloc, kfree, Outcome, returns, panics}
use stak_os.Process.{
  Process, FdEntry, ready, running, zombie, put, kstrncpy, max_fds_per_process, proc_table_add,
  proc_table_remove,
}
use stak_os.Scheduler.{
  Sched, set_state, scheduler_enqueue, scheduler_dequeue, scheduler_mark_zombie, scheduler_yield,
  scheduler_reap_zombies, wake_loop, quantum,
}
use stak_os.RamFs.{RamFile}
use stak_os.Vga.{Vga, vga_set_color, kprint, kprint_int}
use stak_os.Syscall.{Io, minus_one, sys_write, sys_open, sys_read, sys_close}
use stak_os.Paging.{Vm, paging_create_user_pd, paging_free_pd, paging_map_into}
use stak_os.Elf.{Loaded, loaded, out_of_memory, zero_bytes, elf32_validate, elf32_load}

pub record Kernel : Type 0 where
  pub mem : Mem
  pub pmm : Pmm
  pub heap : Heap
  pub kernel_pd : ℕ
  pub sched : Sched
  pub proc_table : List ℕ
  pub next_pid : ℕ
  pub files : List RamFile
  pub screen : Vga
  pub tick_count : ℕ

-- The addresses that the linker gives to the statics and functions of process.c.
pub record Image : Type 0 where
  pub idle_pcb : ℕ
  pub stack_top : ℕ
  pub process_exit_at : ℕ
  pub trampoline_at : ℕ

abbrev pub vm_of : Kernel → Vm
vm_of k = record { mem = k.mem; pmm = k.pmm; kernel_pd = k.kernel_pd }

abbrev pub with_vm : Kernel → Vm → Kernel
with_vm k vm = record k { mem = vm.mem; pmm = vm.pmm }

abbrev pub with_sched : Kernel → Sched → Kernel
with_sched k s = record k { sched = s }

abbrev pub with_pmm : Kernel → Pmm → Kernel
with_pmm k p = record k { pmm = p }

abbrev pub process_of : Kernel → ℕ → Process
process_of k p = k.sched.procs p

abbrev pub set_process : Kernel → ℕ → Process → Kernel
set_process k p v = with_sched k (record k.sched { procs = put k.sched.procs p v })

pub heap_alloc : (fuel : ℕ) → Kernel → (size : ℕ) → Run (ℕ × Kernel)
heap_alloc fuel k size = do
  r ← fueled (kmalloc fuel k.heap k.mem size)
  done (r.0, record k { mem = r.1 })

pub heap_free : (fuel : ℕ) → Kernel → (ptr : ℕ) → Run Kernel
heap_free fuel k ptr = do
  o ← fueled (kfree fuel k.heap k.mem ptr)
  elim o [ returns m ↦ done (record k { mem = m }) | panics ↦ halted ]
