-- ===== src/Kernel/Exit.antt =====
-- The end of processes, the timer tick and the dispatch of system calls.
use stak_os.Base.{
  Bool, false, ◌||◌, length, ℕ, zero, suc, ◌+◌, Option, none, some, List, [], ◌∷◌, ◌==◌,
  if◌then◌else◌,
}
use stak_os.Base.Run.{Run, done, halted, unmodelled, ◌>>=◌, fueled}
use stak_os.Base.Text.{text}
use stak_os.Base.Words.{add32}
use stak_os.Memory.{Mem, load8}
use stak_os.Pmm.{pmm_free_frame}
use stak_os.Process.{zombie, proc_table_remove}
use stak_os.Scheduler.{
  scheduler_mark_zombie, scheduler_yield, scheduler_reap_zombies, wake_loop, quantum,
}
use stak_os.Vga.{vga_set_color, kprint, kprint_int}
use stak_os.Syscall.{Io, minus_one, sys_write, sys_open, sys_read, sys_close}
use stak_os.Paging.{paging_free_pd}
use stak_os.Kernel.{
  Kernel, vm_of, with_vm, with_sched, with_pmm, process_of, set_process, heap_free,
}

-- What `process_free` frees, the table being the caller's.
unfoldable pub free_memory : (fuel : ℕ) → Kernel → (proc : ℕ) → Run Kernel
free_memory fuel k proc =
    let p = process_of k proc in
    let k1 = with_pmm k (pmm_free_frame (pmm_free_frame k.pmm p.stack_frame_lo) p.stack_frame_hi) in
    heap_free fuel (with_vm k1 (paging_free_pd (vm_of k1) p.cr3)) proc

pub process_free : (fuel : ℕ) → Kernel → (proc : ℕ) → Run Kernel
process_free fuel k proc =
    if proc == 0
    then done k
    else free_memory fuel (record k { proc_table = proc_table_remove k.proc_table proc }) proc

-- The end of the current process: it is switched away from and does not come back, or, without a process
-- to switch to, the machine halts with interrupts off.
unfoldable pub process_exit : (fuel : ℕ) → Kernel → (exit_code : ℕ) → Run Kernel
process_exit fuel k exit_code =
    let cur = k.sched.current_process in
    let k1 =
      set_process k cur (record (process_of k cur) { exit_code = exit_code; state = zombie }) in
    do
      s ← fueled (scheduler_mark_zombie fuel k1.sched cur)
      let s' = scheduler_yield s
      if s'.current_process == cur then halted else done (with_sched k1 s')

unfoldable pub free_all : (fuel : ℕ) → Kernel → List ℕ → Run Kernel
free_all fuel k [] = done k
free_all fuel k (p ∷ ps) = do k1 ← free_memory fuel k p; free_all fuel k1 ps

-- `scheduler_reap_zombies` with the memory of the orphans given back.
unfoldable pub reap : (fuel : ℕ) → Kernel → Run Kernel
reap fuel k = do
  r ← fueled (scheduler_reap_zombies fuel k.sched k.proc_table)
  let (s, table, orphans) = r
  free_all fuel (record k { sched = s; proc_table = table }) orphans

unfoldable pub scheduler_tick : (fuel : ℕ) → Kernel → Run Kernel
scheduler_tick fuel k =
    let ticked : Run Kernel = do
      k1 ← reap fuel k
      procs ← fueled (wake_loop fuel k1.sched.procs k1.sched.queue_head)
      done (with_sched k1 (quantum (record k1.sched { procs = procs })))
    in if k.sched.current_process == 0 then done k else ticked

unfoldable pub pit_handler : (fuel : ℕ) → Kernel → Run Kernel
pit_handler fuel k = scheduler_tick fuel (record k { tick_count = add32 k.tick_count 1 })

-- The string at an address.
unfoldable pub string_at : (fuel : ℕ) → Mem → (p : ℕ) → Option (List ℕ)
string_at zero m p = none
string_at (suc fuel) m p =
    let rest : Option (List ℕ) = elim (string_at fuel m (p + 1)) [
      | none ↦ none
      | some s ↦ some (load8 m p ∷ s)
    ] in
    if load8 m p == 0 then some [] else rest

abbrev pub io_of : Kernel → Io
io_of k = record {
  mem = k.mem;
  files = k.files;
  screen = k.screen;
  proc = process_of k k.sched.current_process;
}

abbrev pub with_io : Kernel → ℕ × Io → ℕ × Kernel
with_io k (result, io) =
    let k1 = set_process k k.sched.current_process io.proc in
    (result, record k1 { mem = io.mem; files = io.files; screen = io.screen })

unfoldable pub unknown_call : Kernel → (number : ℕ) → Run (ℕ × Kernel)
unknown_call k number =
    let v1 = kprint (vga_set_color k.screen 12) (text "[syscall] unknown number: ") in
    do
      v2 ← fueled (kprint_int v1 number)
      done (minus_one, record k { screen = vga_set_color (kprint v2 (text "\n")) 7 })

-- The registers of a call: the number and the arguments.
pub record Registers : Type 0 where
  pub eax : ℕ
  pub ebx : ℕ
  pub ecx : ℕ
  pub edx : ℕ

-- One of the `n` bytes from `p` on is an address of `own`.
unfoldable pub touches : (own : ℕ → Bool) → (n p : ℕ) → Bool
touches own zero p = false
touches own (suc n) p = own p || touches own n (p + 1)

-- The source checks no address. `own` are the addresses of the static variables and of the process
-- structures, which the model keeps next to the byte memory: what a call does whose buffer or path
-- reaches them is left open.
unfoldable pub syscall_handler :
    (own : ℕ → Bool) → (fuel : ℕ) → Kernel → Registers → Run (ℕ × Kernel)
syscall_handler own fuel k r =
    let exit : Run (ℕ × Kernel) = do k1 ← process_exit fuel k r.ebx; done (0, k1)
    in let open_path : Run (ℕ × Kernel) = do
      path ← fueled (string_at fuel k.mem r.ebx)
      if touches own (length path + 1) r.ebx
          then unmodelled
          else done (with_io k (sys_open (io_of k) (some path)))
      in if r.eax == 0
        then if touches own r.edx r.ecx
          then unmodelled
          else done (with_io k (sys_write (io_of k) r.ebx r.ecx r.edx))
        else if r.eax == 1
        then exit
        else if r.eax == 2
        then done (0, with_sched k (scheduler_yield k.sched))
        else if r.eax == 3
        then if r.ebx == 0 then done (with_io k (sys_open (io_of k) none)) else open_path
        else if r.eax == 4
        then if touches own r.edx r.ecx
          then unmodelled
          else done (with_io k (sys_read (io_of k) r.ebx r.ecx r.edx))
        else if r.eax == 5
        then done (with_io k (sys_close (io_of k) r.ebx))
        else unknown_call k r.eax
