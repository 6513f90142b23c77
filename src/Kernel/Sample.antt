-- ===== src/Kernel/Sample.antt =====
-- A kernel for tests: one free frame, an empty heap, and the processes at 100 (running) and 200 in the
-- queue.
use stak_os.Base.{[], ◌∷◌, ◌==◌, if◌then◌else◌}
pub use stak_os.Pmm.Sample.{sample_pmm}
use stak_os.Process.{running, ready, Procs}
use stak_os.Scheduler.{Sched}
use stak_os.Kernel.{Kernel}
use stak_os.Kernel.Create.{zeroed}

abbrev sample_procs : Procs
sample_procs p =
    if p == 100
    then record zeroed { pid = 1; state = running; priority = 5; next = 200 }
    else record zeroed { pid = 2; state = ready; priority = 5 }

abbrev pub sample_sched : Sched
sample_sched = record {
  procs = sample_procs;
  queue_head = 100;
  queue_tail = 200;
  queue_size = 2;
  zombie_head = 0;
  current_process = 100;
  esp0 = 0;
  esp = 0;
  cr3 = 0;
}

abbrev pub sample_kernel : Kernel
sample_kernel = record {
  mem = λ a. 0;
  pmm = sample_pmm;
  heap = record { heap_start = 0; heap_total_bytes = 0 };
  kernel_pd = 0;
  sched = sample_sched;
  proc_table = 100 ∷ 200 ∷ [];
  next_pid = 3;
  files = [];
  screen = record { vga_buf = λ i. 0; vga_row = 0; vga_col = 0; vga_color = 7 };
  tick_count = 4_294_967_295;
}
