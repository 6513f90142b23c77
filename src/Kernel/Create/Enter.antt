-- ===== src/Kernel/Create/Enter.antt =====
-- The end of `process_create`: the process enters the queue and the table, or all is given back.
use stak_os.Base.{◌≤◌, ◌≢◌, ℕ, ◌+◌, ◌<◌, ◌≡◌, List, [], ◌∷◌, ◌++◌, length}
use stak_os.Base.Words.{u32_mod}
use stak_os.Base.Distinct.{NotIn}
use stak_os.Pmm.Alloc.{IsValid}
use stak_os.Kmalloc.{block_header_size}
use stak_os.Kmalloc.Chain.{Block}
use stak_os.Kmalloc.Live.{Live}
use stak_os.Kmalloc.Calls.{IsHeap}
use stak_os.Process.{process_lookup}
use stak_os.Process.Table.{AllUsed}
use stak_os.Scheduler.{Sched, scheduler_enqueue}
use stak_os.Scheduler.Lists.{IsSched}
use stak_os.Paging.{identity_pt_count, entries}
use stak_os.Paging.Returned.{TableFree, Returned}
use stak_os.Kernel.Release.{FramesFree}
use stak_os.Kernel.{Kernel, process_of}

-- The process is in the table and at the end of the queue.
pub record Entered (k k' : Kernel) (proc : ℕ) (qs zs : List ℕ) : Type 0 where
  pub lists : IsSched k'.sched (qs ++ (proc ∷ [])) zs
  pub found : process_lookup k'.sched.procs k'.proc_table (process_of k proc).pid ≡ proc

-- The table was full: the lists and the table are those of before, and what the process had is free
-- again: its block, its stack frames, its page directory and what that maps of its own.
pub record Undone (k k' : Kernel) (a slack : ℕ) (qs zs : List ℕ) : Type 0 where
  pub full : AllUsed k.proc_table
  pub lists : IsSched k'.sched qs zs
  pub table : k'.proc_table ≡ k.proc_table
  pub frames : IsValid slack k'.pmm
  pub stack : FramesFree k k'.pmm (a + block_header_size)
  pub tables :
      (process_of k (a + block_header_size)).cr3 ≢ 0
      → (i : ℕ) → identity_pt_count ≤ i
      → i < entries
      → TableFree k.mem k'.pmm (process_of k (a + block_header_size)).cr3 i
  pub blocks : List Block
  pub heap : IsHeap k'.mem k'.heap blocks
  pub freed : (n : ℕ) → ¬ (Live a n blocks)

module _ (fuel : ℕ) (k : Kernel) (a n slack : ℕ) (qs zs : List ℕ) (bs : List Block)
    (v : IsSched k.sched qs zs) (off : NotIn (a + block_header_size) qs)
    (off' : NotIn (a + block_header_size) zs) (small : length qs + 1 < u32_mod)
    (enough : length qs + 1 < fuel) (h : IsHeap k.mem k.heap bs) (live : Live a n bs)
    (enough_heap : length bs < fuel) (frames : IsValid slack k.pmm) where
  abbrev proc : ℕ
  proc = a + block_header_size

  queued : Sched
  queued = scheduler_enqueue k.sched proc
