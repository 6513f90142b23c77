-- ===== src/Boot/Start.antt =====
-- The memory behind `kernel_main`: the frame allocator, the identity map and the heap together.
use stak_os.Base.{
  ℕ, ◌+◌, ◌/◌, ◌%◌, ◌≤◌, ◌<◌, ◌≡◌, inl, inr, refl, true, not, ◌&&◌, some, List, [], ◌∷◌,
  if◌then◌else◌, map, length, length-map, arith,
}
use stak_os.Base.Distinct.{NotIn, AllOf, NotIn-AllOf, both_or_NotIn}
use stak_os.Base.Run.{done}
use stak_os.Base.Words.{u32_mod}
use stak_os.Memory.{Mem}
use stak_os.Pmm.{Pmm, page_size, max_frames, frame_test}
use stak_os.Pmm.Alloc.{IsValid}
use stak_os.Pmm.Map.{Tag, AreTags, available, items}
use stak_os.Pmm.Init.{reserved, pmm_init_lem}
use stak_os.Kmalloc.{Heap, kmalloc_init}
use stak_os.Kmalloc.Chain.{Block}
use stak_os.Kmalloc.Calls.{IsHeap}
use stak_os.Kmalloc.Init.{kmalloc_init-Initialised}
use stak_os.Kmalloc.Round.{frame_block}
use stak_os.Paging.{Vm, paging_init}
use stak_os.Paging.Walk.{walk}
use stak_os.Paging.Identity.{TablesApart, InTables, paging_init-kept}
use stak_os.Kernel.{Kernel, vm_of, with_vm, with_pmm}
use stak_os.Kernel.Print.{color, lit, int, light_green, light_grey, pmm_print_stats}
use stak_os.Kernel.Print.Said.{say-done, kmalloc_print_stats-done}
use stak_os.Boot.{Links, heap_pages, init_memory}

-- What the linker and the boot loader see to: the tables of the memory map, and the statics of
-- paging.c in the image of the kernel.
pub record IsLoaded (l : Links) (mboot_ptr : ℕ) (ts : List Tag) (m : Mem) (h : Heap) (p : Pmm)
    : Type 0 where
  pub tags : AreTags m (mboot_ptr + 8) ts
  pub few : items ts ≤ 100_000
  pub end_word : l.kernel_end + page_size < u32_mod
  pub tables_page : l.identity_pts % 4096 ≡ 0
  pub directory_page : l.kernel_pd % 4096 ≡ 0
  pub tables_inside : l.identity_pts + 32768 ≤ l.kernel_end
  pub directory_inside : l.kernel_pd + 4096 ≤ l.kernel_end
  pub apart : TablesApart l.identity_pts l.kernel_pd
  pub heap_zero : h ≡ record { heap_start = 0; heap_total_bytes = 0 }
  pub none_free : p.free_frames ≡ 0
  pub fuel_tags : items ts < l.fuel
  pub fuel_heap : heap_pages < l.fuel

-- The memory that the kernel starts its processes with.
pub record HasMemory (l : Links) (mboot_ptr : ℕ) (ts : List Tag) (m : Mem) (h : Heap) (p : Pmm)
    : Type 0 where
  pub blocks : List Block
  pub heap : IsHeap m h blocks
  pub few : length blocks ≤ heap_pages
  pub slack : ℕ
  pub frames : IsValid slack p
  pub safe :
      (f : ℕ)
      → f < max_frames
      → frame_test p.bitmap f ≡ 0
      → (available ts f && not (reserved mboot_ptr l.kernel_end f)) ≡ true
  pub identity : (a : ℕ) → a < 0x200_0000 → walk m l.kernel_pd a ≡ some a

module _ (l : Links) (mboot_ptr : ℕ) (ts : List Tag) {m : Mem} {h : Heap} {p : Pmm}
    (v : IsLoaded l mboot_ptr ts m h p) (q : Pmm) where
  abbrev at_first : Vm
  at_first = record { mem = m; pmm = q; kernel_pd = l.kernel_pd }

  abbrev paged : Mem
  paged = (paging_init at_first l.identity_pts).mem

  abbrev Bits : Type 0
  Bits =
      (f : ℕ)
      → f < max_frames
      → frame_test q.bitmap f
        ≡ (if available ts f && not (reserved mboot_ptr l.kernel_end f) then 0 else 1)

  -- A byte of the image lies in no frame that was free.
  inside-NotIn :
      (ns : List ℕ) (x : ℕ)
      → Bits
      → x < l.kernel_end
      → AllOf (λ f. (f < max_frames) × (frame_test q.bitmap f ≡ 0)) ns
      → NotIn (x / page_size) ns
  inside-NotIn ns x bits lt free =
      NotIn-AllOf _ (x / page_size) ns (λ f e (in_ram, z). ground (arith, bits f in_ram, e)) free

  heap-HasMemory :
      (slack : ℕ)
      → IsValid slack q
      → Bits
      → (let r = kmalloc_init heap_pages h paged q in HasMemory l mboot_ptr ts (r.1) (r.0) (r.2))
  heap-HasMemory slack valid bits =
      let zero_used : frame_test q.bitmap 0 ≡ 1 = ground (arith, bits 0) in
      let t = kmalloc_init-Initialised paged valid zero_used heap_pages in
      rw v.heap_zero (record {
        blocks = map frame_block t.ns;
        heap = t.heap;
        few = ground (arith, length-map frame_block t.ns, t.count);
        slack = slack;
        frames = t.taken.valid;
        safe = λ f l z. elim (both_or_NotIn _ _ f t.ns t.taken.free_before t.taken.used_after) [
          | inl (_, used) ↦ absurd (omega (arith, used, z))
          | inr out ↦ ground (arith, bits f l, t.taken.others f out)
        ];
        identity = λ a.
            paging_init-kept at_first l.identity_pts _ v.tables_page v.directory_page
              (omega (arith, v.tables_inside, v.end_word)) v.apart
              (λ x i. t.outside x (inside-NotIn t.ns x bits (inside x i) t.taken.free_before)) a;
      })
    where
      inside : (x : ℕ) → InTables l.identity_pts l.kernel_pd x → x < l.kernel_end
      inside x (inl i) = omega (arith, v.tables_inside)
      inside x (inr i) = omega (arith, v.directory_inside)

-- The parts of the kernel that the start of the memory leaves.
pub record SameRest (k k' : Kernel) : Type 0 where
  pub zombies : k'.sched.zombie_head ≡ k.sched.zombie_head
  pub files : k'.files ≡ k.files
  pub ticks : k'.tick_count ≡ k.tick_count

pub init_memory_lem :
    (l : Links) (k : Kernel) (mboot_ptr : ℕ) (ts : List Tag)
    → IsLoaded l mboot_ptr ts k.mem k.heap k.pmm
    → (k' : Kernel) × (init_memory l k mboot_ptr ≡ done k')
      × HasMemory l mboot_ptr ts k'.mem k'.heap k'.pmm
      × SameRest k k'
unfolding init_memory paging_init
init_memory_lem l k mboot_ptr ts v =
    let (slack, q, started, valid, bits) =
      pmm_init_lem l.fuel k.mem mboot_ptr l.kernel_end ts k.pmm v.tags v.none_free v.fuel_tags v.few
        v.end_word in
    let g = heap-HasMemory l mboot_ptr ts v q slack valid bits in
    let (w1, e1) = say-done (with_pmm k q) (pmm_print_stats q) in
    let k1 : Kernel = record k {
      pmm = q;
      screen = w1;
      kernel_pd = l.kernel_pd;
      sched = record k.sched { cr3 = l.kernel_pd };
    } in
    let k2 : Kernel = with_vm k1 (paging_init (vm_of k1) l.identity_pts) in
    let (w2, e2) = say-done k2 (
      color light_green
      ∷ lit "[OK] Paging enabled (identity 0 - "
      ∷ int 32
      ∷ lit "MB)\n"
      ∷ color light_grey
      ∷ []) in
    let r = kmalloc_init heap_pages k2.heap k2.mem k2.pmm in
    let k3 : Kernel = record k2 { screen = w2; heap = r.0; mem = r.1; pmm = r.2 } in
    let (w3, e3) =
      kmalloc_print_stats-done l.fuel k3 g.blocks g.heap (omega (arith, g.few, v.fuel_heap)) in
    (
      record k3 { screen = w3 },
      rw (init_memory, started, e1, e2) e3,
      g,
      record { zombies = refl; files = refl; ticks = refl },
    )
