-- ===== src/Kernel/Release.antt =====
-- process_free of kernel/process.c, for the orphans of a tick.
use stak_os.Base.{
  ap, ◌/◌, ◌≢◌, some, ℕ, ◌+◌, ◌≤◌, ◌<◌, ◌≡◌, refl, ◌∙◌, List, [], ◌∷◌, length, arith,
}
use stak_os.Base.Distinct.{NotIn, Distinct, AllOf, AllOf-imp, AllOf-map}
use stak_os.Base.Run.{done}
use stak_os.Pmm.{Pmm, page_size, pmm_free_frame}
use stak_os.Pmm.Alloc.{IsValid}
use stak_os.Pmm.Free.{free-IsValid, free-clears, free-keeps}
use stak_os.Kmalloc.{block_header_size, kfree, returns}
use stak_os.Kmalloc.Chain.{Block}
use stak_os.Kmalloc.Live.{Live, footprint}
use stak_os.Kmalloc.Calls.{IsHeap}
use stak_os.Kmalloc.Contract.{kfree-releases}
use stak_os.Paging.{paging_free_pd}
use stak_os.Paging.Returned.{
  IsFree, KeepsFree, IsFree-keeps, paging_free_pd-Returned, paging_free_pd-keeps,
}
use stak_os.Paging.Release.{paging_free_pd-IsValid, paging_free_pd-mem}
use stak_os.Kernel.{Kernel, vm_of, with_vm, with_pmm, process_of, heap_free}
use stak_os.Kernel.Exit.{free_memory, free_all}

-- `p` is the data of a block of the heap in use.
abbrev pub Allocated : List Block → ℕ → Type 0
Allocated bs p = (a : ℕ) × (n : ℕ) × (p ≡ a + block_header_size) × Live a n bs

length-footprint : (bs : List Block) → length bs ≤ footprint bs
unfolding footprint
length-footprint [] = omega arith
length-footprint (b ∷ bs) = omega (arith, length-footprint bs)

-- The frames of the kernel stack of a process, and of its page directory, are free.
abbrev pub FramesFree : Kernel → Pmm → (proc : ℕ) → Type 0
FramesFree k pmm proc =
    IsFree pmm (process_of k proc).stack_frame_lo
    × IsFree pmm (process_of k proc).stack_frame_hi
    × ((process_of k proc).cr3 ≢ 0 → IsFree pmm (process_of k proc).cr3)

FramesFree-sched :
    (k k1 : Kernel) (pmm : Pmm) (q : ℕ)
    → k1.sched ≡ k.sched
    → FramesFree k1 pmm q
    → FramesFree k pmm q
FramesFree-sched k k1 pmm q e g =
    let procs : k1.sched.procs ≡ k.sched.procs = ap (λ s. s.procs) e in rw procs at g

-- The blocks of the processes `ps` and the frames of their stacks and directories are free, and other
-- blocks in use are not.
pub record Released (k k' : Kernel) (slack : ℕ) (bs : List Block) (ps : List ℕ) : Type 0 where
  pub blocks : List Block
  pub heap : IsHeap k'.mem k'.heap blocks
  pub bytes : footprint blocks ≡ footprint bs
  pub frames : IsValid slack k'.pmm
  pub gone : AllOf (λ p. ¬ Allocated blocks p) ps
  pub kept : (p : ℕ) → NotIn p ps → Allocated bs p → Allocated blocks p
  pub framed : AllOf (FramesFree k k'.pmm) ps
  pub keeps : KeepsFree k.pmm k'.pmm
  pub only : (p : ℕ) → Allocated blocks p → Allocated bs p
  pub sched : k'.sched ≡ k.sched
  pub proc_table : k'.proc_table ≡ k.proc_table
  pub tick_count : k'.tick_count ≡ k.tick_count

module _ (fuel slack : ℕ) where
  free_memory-Released :
      (k : Kernel) (bs : List Block) (p : ℕ)
      → IsHeap k.mem k.heap bs
      → IsValid slack k.pmm
      → footprint bs < fuel
      → Allocated bs p
      → (k' : Kernel) × (free_memory fuel k p ≡ done k') × Released k k' slack bs (p ∷ [])
  unfolding free_memory heap_free
  free_memory-Released k bs p h v enough (a, n, e, live) =
      let q = process_of k p in
      let k1 : Kernel =
        with_pmm k (pmm_free_frame (pmm_free_frame k.pmm q.stack_frame_lo) q.stack_frame_hi) in
      let k2 : Kernel = with_vm k1 (paging_free_pd (vm_of k1) q.cr3) in
      let (after, bs', freed, heap', bytes, gone, kept, only, _) =
        kfree-releases h fuel a n live (omega (arith, length-footprint bs, enough)) in
      let freed' : kfree fuel k.heap k.mem p ≡ some (returns after) = rw e freed in
      let v1 = free-IsValid v q.stack_frame_lo in
      let v2 = free-IsValid v1 q.stack_frame_hi in
      let pd_keeps : KeepsFree k1.pmm k2.pmm = paging_free_pd-keeps (vm_of k1) q.cr3 v2 in
      let same : k2.mem ≡ k.mem = paging_free_pd-mem (vm_of k1) q.cr3 in
      (
        record k2 { mem = after },
        rw (same, freed') refl,
        record {
          blocks = bs';
          heap = heap';
          bytes = bytes;
          frames =
              paging_free_pd-IsValid (vm_of k1) q.cr3
                (free-IsValid (free-IsValid v q.stack_frame_lo) q.stack_frame_hi);
          gone = (
            λ (a', n', e', live').
                let same : a' ≡ a = omega (arith, e, e') in gone n' (rw same at live'),
            tt,
          );
          kept = λ x (ne, _) (a', n', e', live').
              (a', n', e', kept a' n' (λ z. ne (omega (arith, e, e', z))) live');
          framed = (
            (
              λ l. pd_keeps (q.stack_frame_lo / page_size) (
                  free-keeps v1 q.stack_frame_hi (q.stack_frame_lo / page_size)
                    (free-clears v q.stack_frame_lo l)),
              λ l. pd_keeps (q.stack_frame_hi / page_size) (free-clears v1 q.stack_frame_hi l),
              λ nz. (paging_free_pd-Returned (vm_of k1) q.cr3 v2 nz).directory,
            ),
            tt,
          );
          keeps = λ f free.
              pd_keeps f (free-keeps v1 q.stack_frame_hi f (free-keeps v q.stack_frame_lo f free));
          only = λ x (a', n', e', live'). (a', n', e', only a' n' live');
          sched = refl;
          proc_table = refl;
          tick_count = refl;
        },
      )

  -- The processes of a list without repetition are freed one after the other.
  pub free_all-Released :
      (ps : List ℕ) (k : Kernel) (bs : List Block)
      → IsHeap k.mem k.heap bs
      → IsValid slack k.pmm
      → footprint bs < fuel
      → Distinct ps
      → AllOf (Allocated bs) ps
      → (k' : Kernel) × (free_all fuel k ps ≡ done k') × Released k k' slack bs ps
  unfolding free_all
  free_all-Released [] k bs h v enough d all = (
    k,
    refl,
    record {
      blocks = bs;
      heap = h;
      bytes = refl;
      frames = v;
      gone = tt;
      framed = tt;
      keeps = λ f free. free;
      kept = λ x out live. live;
      only = λ x live. live;
      sched = refl;
      proc_table = refl;
      tick_count = refl;
    },
  )
  free_all-Released (p ∷ ps) k bs h v enough (out, d) (here, all) =
      let (k1, e1, r1) = free_memory-Released k bs p h v enough here in
      let all' : AllOf (Allocated r1.blocks) ps =
        AllOf-map (Allocated bs) (Allocated r1.blocks) p ps (λ q ne. r1.kept q (ne, tt)) out all in
      let (k2, e2, r2) =
        free_all-Released ps k1 r1.blocks r1.heap r1.frames (omega (arith, r1.bytes, enough)) d
          all' in
      (
        k2,
        rw e1 e2,
        record {
          blocks = r2.blocks;
          heap = r2.heap;
          bytes = r2.bytes ∙ r1.bytes;
          frames = r2.frames;
          gone = (λ live. r1.gone.0 (r2.only p live), r2.gone);
          kept = λ x (ne, off) live. r2.kept x off (r1.kept x (ne, tt) live);
          framed = (
            (
              IsFree-keeps k1.pmm k2.pmm (process_of k p).stack_frame_lo r2.keeps r1.framed.0.0,
              IsFree-keeps k1.pmm k2.pmm (process_of k p).stack_frame_hi r2.keeps r1.framed.0.1,
              λ nz. IsFree-keeps k1.pmm k2.pmm (process_of k p).cr3 r2.keeps (r1.framed.0.2 nz),
            ),
            AllOf-imp (FramesFree k1 k2.pmm) (FramesFree k k2.pmm) ps
                (λ q g. FramesFree-sched k k1 k2.pmm q r1.sched g) r2.framed,
          );
          keeps = λ f free. r2.keeps f (r1.keeps f free);
          only = λ x live. r1.only x (r2.only x live);
          sched = r2.sched ∙ r1.sched;
          proc_table = r2.proc_table ∙ r1.proc_table;
          tick_count = r2.tick_count ∙ r1.tick_count;
        },
      )
