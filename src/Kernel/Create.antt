-- ===== src/Kernel/Create.antt =====
-- The creation of processes in kernel/process.c.
pub mod Enter
use stak_os.Base.{
  ℕ, zero, suc, ◌+◌, ◌-◌, ◌*◌, Bool, true, false, ◌||◌, none, some, List, [], ◌∷◌, ◌==◌,
  if◌then◌else◌, replicate,
}
use stak_os.Base.Run.{Run, done, ◌>>=◌, fueled, unless_panic}
use stak_os.Base.Text.{text}
use stak_os.Base.Words.{add32}
use stak_os.Memory.{Mem, store32}
use stak_os.Pmm.{page_size, pmm_alloc_frame, pmm_free_frame}
use stak_os.Process.{
  Process, FdEntry, ready, running, zombie, kstrncpy, max_fds_per_process, proc_table_add,
}
use stak_os.Scheduler.{set_state, scheduler_enqueue, scheduler_dequeue, scheduler_mark_zombie}
use stak_os.Paging.{paging_create_user_pd, paging_free_pd, paging_map_into}
use stak_os.Elf.{loaded, out_of_memory, zero_bytes, elf32_validate, elf32_load}
use stak_os.Kernel.{
  Kernel, Image, vm_of, with_vm, with_sched, with_pmm, process_of, set_process, heap_alloc,
  heap_free,
}

-- `sizeof(process_t)`
abbrev pub process_size : ℕ
process_size = 188

abbrev pub no_fd : FdEntry
no_fd = record { in_use = 0; file_idx = 0; offset = 0 }

-- A structure whose bytes are all 0.
abbrev pub zeroed : Process
zeroed = record {
  pid = 0;
  name = [];
  state = ready;
  esp = 0;
  cr3 = 0;
  parent_pid = 0;
  priority = 0;
  ticks_remaining = 0;
  sleep_ticks = 0;
  exit_code = 0;
  kernel_stack_top = 0;
  stack_frame_lo = 0;
  stack_frame_hi = 0;
  user_entry = 0;
  user_stack_top = 0;
  fds = replicate max_fds_per_process no_fd;
  next = 0;
}

unfoldable pub process_init : Image → Kernel → Kernel
process_init image k =
    let idle = record (process_of k image.idle_pcb) {
      pid = k.next_pid;
      state = running;
      parent_pid = 0;
      priority = 0;
      ticks_remaining = 1;
      sleep_ticks = 0;
      exit_code = 0;
      next = 0;
      name = kstrncpy (text "idle") 32;
      esp = 0;
      kernel_stack_top = image.stack_top;
      cr3 = k.kernel_pd;
    } in
    let k1 = set_process k image.idle_pcb idle in
    let table : List ℕ = elim (proc_table_add k.proc_table image.idle_pcb) [
      | none ↦ k.proc_table
      | some t ↦ t
    ] in
    record k1 {
      next_pid = add32 k.next_pid 1;
      sched = record k1.sched { current_process = image.idle_pcb };
      proc_table = table;
    }

-- The words that `process_create` pushes, the first one at the highest address.
unfoldable pub push_words : Mem → (stack : ℕ) → List ℕ → ℕ × Mem
push_words m stack [] = (stack, m)
push_words m stack (w ∷ ws) = push_words (store32 m (stack - 4) w) (stack - 4) ws

-- `eflags` with interrupts on, and what `context_switch` pops on the first switch to the process.
abbrev pub first_frame : Image → (entry : ℕ) → List ℕ
first_frame image entry = image.process_exit_at ∷ entry ∷ 0x202 ∷ 0 ∷ 0 ∷ 0 ∷ 0 ∷ 0 ∷ 0 ∷ 0 ∷ []

-- The end of `process_create`: the process enters the queue and the table, or all is given back.
pub create_enter : (fuel : ℕ) → Kernel → (proc : ℕ) → Run (ℕ × Kernel)
create_enter fuel k proc =
    let k1 = with_sched k (scheduler_enqueue k.sched proc) in
    let p = process_of k1 proc in
    let undone : Run (ℕ × Kernel) = do
      s ← fueled (scheduler_dequeue fuel k1.sched proc)
      let k2 =
          with_pmm (with_sched k1 s)
            (pmm_free_frame (pmm_free_frame k1.pmm p.stack_frame_lo) p.stack_frame_hi)
      k3 ← heap_free fuel (with_vm k2 (paging_free_pd (vm_of k2) p.cr3)) proc
      done (0, k3)
    in elim (proc_table_add k1.proc_table proc) [
      | none ↦ undone
      | some t ↦ done (proc, record k1 { proc_table = t })
    ]

-- The middle of `process_create`: the frames of the kernel stack and what stands on it first.
pub create_stack : Image → (fuel : ℕ) → Kernel → (proc entry : ℕ) → Run (ℕ × Kernel)
create_stack image fuel k proc entry =
    let (stack_lo, pmm1) = pmm_alloc_frame k.pmm in
    let (stack_hi, pmm2) = pmm_alloc_frame pmm1 in
    let pmm3 = if stack_lo == 0 then pmm2 else pmm_free_frame pmm2 stack_lo in
    let pmm4 = if stack_hi == 0 then pmm3 else pmm_free_frame pmm3 stack_hi in
    let undone : Run (ℕ × Kernel) = do
      let k1 = with_pmm k pmm4
      k2 ← heap_free fuel (with_vm k1 (paging_free_pd (vm_of k1) (process_of k proc).cr3)) proc
      done (0, k2)
    in let top = stack_hi + page_size in
      let (esp, m) = push_words k.mem top (first_frame image entry) in
      let p = record (process_of k proc) {
        stack_frame_lo = stack_lo;
        stack_frame_hi = stack_hi;
        kernel_stack_top = top;
        esp = esp;
      } in
      if stack_lo == 0 || stack_hi == 0
      then undone
      else create_enter fuel (set_process (record k { pmm = pmm2; mem = m }) proc p) proc

-- The result is the process, 0 for NULL.
pub process_create :
    Image → (fuel : ℕ) → Kernel → (name : List ℕ) → (entry priority : ℕ) → Run (ℕ × Kernel)
process_create image fuel k name entry priority = do
  r ← heap_alloc fuel k process_size
  let proc = r.0
  let k1 = record r.1 { mem = zero_bytes process_size r.1.mem proc }
  let (pd, vm) = paging_create_user_pd (vm_of k1)
  let k2 = with_vm k1 vm
  let current = k2.sched.current_process
  let rate = if priority == 0 then 1 else priority
  let p = record zeroed {
    cr3 = pd;
    pid = k2.next_pid;
    parent_pid = if current == 0 then 0 else (process_of k2 current).pid;
    priority = rate;
    ticks_remaining = rate;
    name = kstrncpy name 32;
  }
  let no_pd : Run (ℕ × Kernel) = do k3 ← heap_free fuel k2 proc; done (0, k3)
  if proc == 0
      then done (0, r.1)
      else if pd == 0
      then no_pd
      else create_stack image fuel
          (record (set_process k2 proc p) { next_pid = add32 k2.next_pid 1 }) proc entry

abbrev pub user_stack_pages : ℕ
user_stack_pages = 4

abbrev pub user_stack_base : ℕ
user_stack_base = 0x50_0000

-- The process is marked as a zombie for the reaper.
pub give_up : (fuel : ℕ) → Kernel → (proc : ℕ) → Run (ℕ × Kernel)
give_up fuel k proc = do
  s ← fueled (
      scheduler_mark_zombie fuel (record k.sched { procs = set_state k.sched.procs proc zombie })
        proc)
  done (0, with_sched k s)

-- The pages of the user stack, `n` of them left, from page `i` on: `none` where no frame is left.
pub map_stack : (n : ℕ) → Kernel → (pd i : ℕ) → Run (Bool × Kernel)
map_stack zero k pd i = done (true, k)
map_stack (suc n) k pd i =
    let (frame, pmm) = pmm_alloc_frame k.pmm in
    let k1 = with_pmm k pmm in
    let mapped : Run (Bool × Kernel) = do
      vm ← unless_panic (paging_map_into (vm_of k1) pd (user_stack_base + i * page_size) frame 7)
      map_stack n (with_vm k1 vm) pd (i + 1)
    in if frame == 0 then done (false, k1) else mapped

-- The end of `process_create_from_elf`, with the segments loaded.
pub create_user_stack : (fuel : ℕ) → Kernel → (proc entry : ℕ) → Run (ℕ × Kernel)
create_user_stack fuel k proc entry = do
  r ← map_stack user_stack_pages k (process_of k proc).cr3 0
  let p = record (process_of r.1 proc) {
    user_entry = entry;
    user_stack_top = user_stack_base + user_stack_pages * page_size;
  }
  if r.0 then done (proc, set_process r.1 proc p) else give_up fuel r.1 proc

pub process_create_from_elf :
    Image → (fuel : ℕ) → Kernel → (name : List ℕ) → (elf_data priority : ℕ) → Run (ℕ × Kernel)
process_create_from_elf image fuel k name elf_data priority = elim (elf32_validate k.mem elf_data) [
  | none ↦ done (0, k)
  | some entry ↦ do
    r ← process_create image fuel k name image.trampoline_at priority
    let load : Run (ℕ × Kernel) = do
      o ← unless_panic (elf32_load (vm_of r.1) elf_data (process_of r.1 r.0).cr3)
      elim o [
        | out_of_memory vm ↦ give_up fuel (with_vm r.1 vm) r.0
        | loaded vm ↦ create_user_stack fuel (with_vm r.1 vm) r.0 entry
      ]
    if r.0 == 0 then done (0, r.1) else load
]

-- The first code of a loaded program: the stack for its interrupts, and the entry point and the stack
-- with which `enter_usermode` of boot/usermode.asm leaves the kernel.
pub user_mode_trampoline : Kernel → Kernel × ℕ × ℕ
user_mode_trampoline k =
    let self = process_of k k.sched.current_process in
    (
      with_sched k (record k.sched { esp0 = self.kernel_stack_top }),
      self.user_entry,
      self.user_stack_top,
    )
