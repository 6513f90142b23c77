-- ===== src/Kernel/Ticking.antt =====
-- pit_handler of kernel/pit.c and scheduler_tick.
use stak_os.Base.{ℕ, ◌<◌, ◌≡◌, ◌≢◌, refl, List, [], length, ne→==}
use stak_os.Base.Run.{done}
use stak_os.Base.Words.{add32}
use stak_os.Pmm.{Pmm}
use stak_os.Scheduler.{Sched}
use stak_os.Scheduler.Lists.{IsSched, SameLists, SameLists-IsSched}
use stak_os.Scheduler.Reap.{scheduler_reap_zombies_lem}
use stak_os.Scheduler.Sweep.{sweep}
use stak_os.Scheduler.Wake.{wake_loop_lem}
use stak_os.Scheduler.Run.{quantum-Keeps, reap-IsSched}
use stak_os.Base.Distinct.{NotIn, AllOf}
use stak_os.Pmm.Alloc.{IsValid}
use stak_os.Kmalloc.Chain.{Block}
use stak_os.Kmalloc.Calls.{IsHeap}
use stak_os.Kernel.Release.{Allocated, FramesFree}
use stak_os.Kernel.{Kernel}
use stak_os.Kernel.Exit.{reap, free_all, scheduler_tick, pit_handler}

-- On well-formed lists, with a current process and no orphan to release, a tick ends when the fuel
-- exceeds the queued processes and the zombies; the counter is one higher, up to its wrap, and the
-- lists are well-formed with the zombies that `sweep` keeps.
pub pit_handler-IsSched :
    (fuel : ℕ) (k : Kernel) (qs zs : List ℕ)
    → IsSched k.sched qs zs
    → k.sched.current_process ≢ 0
    → (sweep k.sched.procs k.proc_table zs).0 ≡ []
    → length qs < fuel
    → length zs < fuel
    → (k' : Kernel) × (pit_handler fuel k ≡ done k')
      × (k'.tick_count ≡ add32 k.tick_count 1)
      × (qs' : List ℕ) × IsSched k'.sched qs' (sweep k.sched.procs k.proc_table zs).1
unfolding pit_handler scheduler_tick reap free_all
pit_handler-IsSched fuel k qs zs v nz none_orphan l lz =
    let kept = sweep k.sched.procs k.proc_table zs in
    let w = scheduler_reap_zombies_lem fuel k.proc_table k.sched zs v.zombies v.once lz in
    let v1 : IsSched w.after qs kept.1 = reap-IsSched v w in
    let u = wake_loop_lem w.after qs fuel v1.queue l in
    let woken : Sched = record w.after { procs = u.after } in
    let same : SameLists w.after woken = record {
      links = u.links;
      head = refl;
      tail = refl;
      size = refl;
      zombies = refl;
    } in
    let (qs', v2) = quantum-Keeps (SameLists-IsSched same v1) in
    rw (ne→== k.sched.current_process 0 nz, w.result, none_orphan, u.result)
      (_, refl, refl, qs', v2)

-- How a tick ends that finds orphans, kept zombies and a table without the orphans.
pub record Ticked (k k' : Kernel) (slack : ℕ) (bs : List Block) (found : List ℕ × List ℕ × List ℕ)
    : Type 0 where
  pub counted : k'.tick_count ≡ add32 k.tick_count 1
  pub table : k'.proc_table ≡ found.2
  pub queue : List ℕ
  pub lists : IsSched k'.sched queue found.1
  pub blocks : List Block
  pub heap : IsHeap k'.mem k'.heap blocks
  pub frames : IsValid slack k'.pmm
  pub gone : AllOf (λ p. ¬ Allocated blocks p) found.0
  pub framed : AllOf (FramesFree k k'.pmm) found.0
  pub stays : (p : ℕ) → NotIn p found.0 → Allocated bs p → Allocated blocks p
