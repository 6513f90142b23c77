-- ===== src/Process/Tests.antt =====
-- A table of processes with the process at 100, to which the process at 200 is added.
use stak_os.Base.{ℕ, ◌≡◌, refl, List, [], ◌∷◌, ◌==◌, if◌then◌else◌, arith}
use stak_os.Process.{Process, ready, Procs, proc_table_add, process_lookup}
use stak_os.Process.Table.{Added, proc_table_add-Added}

abbrev process : (pid : ℕ) → Process
process number = record {
  pid = number;
  name = [];
  state = ready;
  esp = 0;
  cr3 = 0;
  parent_pid = 0;
  priority = 5;
  ticks_remaining = 5;
  sleep_ticks = 0;
  exit_code = 0;
  kernel_stack_top = 0;
  stack_frame_lo = 0;
  stack_frame_hi = 0;
  user_entry = 0;
  user_stack_top = 0;
  fds = [];
  next = 0;
}

abbrev processes : Procs
processes p = if p == 100 then process 1 else process 2

abbrev table : List ℕ
table = 100 ∷ 0 ∷ 0 ∷ []

two_is_new : process_lookup processes table 2 ≡ 0
unfolding process_lookup
two_is_new = refl

proc_table_add-Added_example : Added processes 200 table (proc_table_add table 200)
proc_table_add-Added_example =
    proc_table_add-Added processes 200 (omega arith) table
      (omega arith, (omega arith, (omega arith, tt))) two_is_new
