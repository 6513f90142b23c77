-- ===== src/Kernel/Ending.antt =====
-- process_exit of kernel/process.c.
use stak_os.Base.{ℕ, ◌<◌, ◌≡◌, ◌≢◌, List, ◌∷◌, ◌++◌, length}
use stak_os.Base.Distinct.{NotIn}
use stak_os.Process.{Process, ready, zombie}
use stak_os.Scheduler.Erase.{erase}
use stak_os.Scheduler.Pick.{NoneReady, ready_in}
use stak_os.Scheduler.Lists.{IsSched}
use stak_os.Kernel.{Kernel, process_of, set_process}

-- Another process runs: `next`, the first READY one of the queue without the process that ends, which
-- is the first zombie, before the ones there were.
pub record Switches (k : Kernel) (qs zs : List ℕ) (k' : Kernel) : Type 0 where
  pub before : List ℕ
  pub next : ℕ
  pub behind : List ℕ
  pub split : erase k.sched.current_process qs ≡ before ++ (next ∷ behind)
  pub skip : NoneReady (ready_in k.sched) before
  pub hit : (k.sched.procs next).state ≡ ready
  pub current : k'.sched.current_process ≡ next
  pub other : next ≢ k.sched.current_process
  pub queue : List ℕ
  pub lists : IsSched k'.sched queue (k.sched.current_process ∷ zs)

-- The current process is marked as a zombie.
abbrev pub marked : Kernel → (exit_code : ℕ) → Kernel
marked k exit_code =
    let cur = k.sched.current_process in
    set_process k cur (record (process_of k cur) { exit_code = exit_code; state = zombie })

module _ (fuel : ℕ) (k : Kernel) (exit_code : ℕ) (qs zs : List ℕ) (v : IsSched k.sched qs zs)
    (nz : k.sched.current_process ≢ 0) (off : NotIn k.sched.current_process zs)
    (enough : length qs < fuel) where
  abbrev cur : ℕ
  cur = k.sched.current_process
