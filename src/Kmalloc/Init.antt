-- ===== src/Kmalloc/Init.antt =====
-- `kmalloc_init`: the frames that the PMM hands out become the blocks of the heap, in address order.
use stak_os.Base.{
  ℕ, zero, suc, ◌+◌, ◌*◌, ◌/◌, ◌≤◌, ◌<◌, ◌≡◌, ◌≢◌, ◌⊎◌, inl, inr, refl, ap, ◌∙◌, sym, none, some,
  Option, List, [], ◌∷◌, ◌==◌, if◌then◌else◌, map, length, arith, ne→==,
}
use native.Mathlib.Decide.{dec_lt}
use stak_os.Base.Words.{add32}
use stak_os.Memory.{Mem}
use stak_os.Base.Distinct.{NotIn}
use stak_os.Memory.Writes.{SameBelow, load32-SameBelow}
use stak_os.Pmm.{Pmm, page_size, max_frames, frame_test, pmm_alloc_frame}
use stak_os.Pmm.Alloc.{IsValid, Differs, Allocates, alloc_result, alloc-IsValid}
use stak_os.Pmm.Scan.{FirstFree}
use stak_os.Pmm.Taken.{Taken, Taken-none, Taken-cons}
use stak_os.Kmalloc.{Heap, next, init_loop, kmalloc_init}
use stak_os.Kmalloc.Chain.{block_end, HasHeader, Chain, Ordered, Ordered-weaken, HasHeader-same}
use stak_os.Kmalloc.Calls.{IsHeap}
use stak_os.Kmalloc.Round.{
  frame_block, round, round-HasHeader, round-next, round-linked, round-keeps, round-SameBelow,
  round-outside,
}

-- No frame is free.
abbrev pub Exhausted : Pmm → Type 0
Exhausted p = (g : ℕ) → g < max_frames → frame_test p.bitmap g ≡ 1

-- The state between two rounds, with `g` the frame of the last block.
record Building (k g : ℕ) (h : Heap) (m : Mem) (p : Pmm) : Type 0 where
  valid : IsValid k p
  used : (e : ℕ) → e ≤ g → frame_test p.bitmap e ≡ 1
  in_ram : g < max_frames
  so_far : h.heap_total_bytes ≤ g * page_size
  not_first : g ≢ 0
  started : h.heap_start ≢ 0
  header : HasHeader m (frame_block g)
  last : next m (g * page_size) ≡ 0

-- What the other rounds give.
record Built (k pages g : ℕ) (h : Heap) (m : Mem) (p : Pmm) (r : Heap × Mem × Pmm) : Type 0 where
  ns : List ℕ
  taken : Taken k p (r.2) ns
  chain : Chain (r.1) (g * page_size) (frame_block g ∷ map frame_block ns)
  ordered : Ordered (g * page_size) (frame_block g ∷ map frame_block ns)
  below : SameBelow (g * page_size) m (r.1)
  outside : (x : ℕ) → NotIn (x / page_size) (g ∷ ns) → (r.1) x ≡ m x
  start : r.0.heap_start ≡ h.heap_start
  total : r.0.heap_total_bytes ≡ h.heap_total_bytes + length ns * page_size
  count : (length ns ≡ pages) ⊎ ((length ns < pages) × Exhausted (r.2))

Built-none :
    {k pages g : ℕ} {h : Heap} {m : Mem} {p : Pmm}
    → Building k g h m p
    → (pages ≡ 0) ⊎ ((0 < pages) × Exhausted p)
    → Built k pages g h m p (h, m, p)
Built-none {k} {pages} {g} {h} {m} {p} b ended = record {
  ns = [];
  taken = Taken-none k p b.valid;
  chain = (refl, b.header, b.last);
  ordered = omega (arith, b.in_ram, b.not_first);
  below = λ a l. refl;
  outside = λ x out. refl;
  start = refl;
  total = omega arith;
  count = elim ended [ inl e ↦ inl (sym e) | inr full ↦ inr full ];
}

-- The state behind a round that gets frame `f`.
abbrev next_heap : Heap → ℕ → Heap
next_heap h f = record {
  heap_start = if h.heap_start == 0 then f * page_size else h.heap_start;
  heap_total_bytes = add32 h.heap_total_bytes page_size;
}

module _ {k g f : ℕ} (h : Heap) (m : Mem) (p p1 : Pmm) (above : g < f) (l : f < max_frames)
    (d : Differs p.bitmap p1.bitmap f 1) (v : IsValid k p1) where
  Building-next :
      h.heap_total_bytes ≤ g * page_size
      → ((e : ℕ) → e < f → frame_test p.bitmap e ≡ 1)
      → Building k f (next_heap h f) (round g f m above l) p1
  Building-next small below = record {
    valid = v;
    used = λ e le. d e ∙ ground (arith, below e);
    in_ram = l;
    so_far = omega arith;
    not_first = omega arith;
    started = ground arith;
    header = round-HasHeader g f m above l;
    last = round-next g f m above l;
  }

  Built-cons :
      {pages : ℕ} {r : Heap × Mem × Pmm}
      → Building k g h m p
      → frame_test p.bitmap f ≡ 0
      → p1.free_frames + 1 ≡ p.free_frames
      → Built k pages f (next_heap h f) (round g f m above l) p1 r
      → Built k (suc pages) g h m p r
  Built-cons {pages} {r} b free c t =
      let header =
        HasHeader-same (round g f m above l) (r.1) (frame_block g)
          (inr (λ x le. t.below x (omega (arith, above))))
          (round-keeps g f m above l b.not_first b.header) in
      let link : next (r.1) (g * page_size) ≡ f * page_size =
        load32-SameBelow (round g f m above l) (r.1) (f * page_size) (g * page_size + 12) t.below
          (omega (arith, above))
        ∙ round-linked g f m above l b.not_first in
      record {
        ns = f ∷ t.ns;
        taken = Taken-cons f l free d c t.taken;
        chain = (refl, header, rw link t.chain);
        ordered = (
          omega arith,
          omega (arith, b.not_first),
          omega arith,
          refl,
          Ordered-weaken (block_end (frame_block g)) (f * page_size) (map frame_block (f ∷ t.ns))
              (omega (arith, above)) t.ordered,
        );
        below = λ x le. t.below x (omega (arith, above)) ∙ round-SameBelow g f m above l x le;
        outside = λ x (ne, out). t.outside x out ∙ round-outside g f m above l x (out.0) (inr ne);
        start = t.start ∙ rw (ne→== h.heap_start 0 b.started) refl;
        total = omega (arith, t.total, b.so_far, b.in_ram);
        count = elim t.count [
          | inl e ↦ inl (ap suc e)
          | inr (less, full) ↦ inr (omega arith, full)
        ];
      }

build_round :
    (k pages g : ℕ) (h : Heap) (m : Mem) (p : Pmm) (o : Option ℕ)
    → FirstFree p.bitmap 0 max_frames o
    → Allocates p o
    → Building k g h m p
    → ((f : ℕ) (h1 : Heap) (m1 : Mem) (p1 : Pmm)
        → Building k f h1 m1 p1
        → Built k pages f h1 m1 p1 (init_loop pages (f * page_size) h1 m1 p1))
    → Built k (suc pages) g h m p (init_loop (suc pages) (g * page_size) h m p)
unfolding init_loop round
build_round k pages g h m p none found failed b rest =
    rw failed (Built-none b (inr (omega arith, λ e l. found e (omega arith) l)))
build_round k pages g h m p (some f) (_, l, free, below) (e, d, c, w) b rest =
    let above : g < f = elim (dec_lt g f) [
      | yes y ↦ y
      | no n ↦ absurd (omega (arith, free, b.used f (omega arith)))
    ] in
    let p1 : Pmm = (pmm_alloc_frame p).1 in
    let b1 : Building k f (next_heap h f) (round g f m above l) p1 =
      Building-next h m p p1 above l d (alloc-IsValid b.valid) b.so_far
        (λ x y. below x (omega arith) y) in
    rw (e, ne→== (f * page_size) 0 (omega (arith, above)))
      (Built-cons h m p p1 above l d (alloc-IsValid b.valid) b free c
        (rest f (next_heap h f) (round g f m above l) p1 b1))

build :
    (k pages g : ℕ) (h : Heap) (m : Mem) (p : Pmm)
    → Building k g h m p
    → Built k pages g h m p (init_loop pages (g * page_size) h m p)
unfolding init_loop
build k zero g h m p b = Built-none b (inl refl)
build k (suc pages) g h m p b =
    let (o, found, answer) = alloc_result b.valid in
    build_round k pages g h m p o found answer b (λ f h1 m1 p1 b1. build k pages f h1 m1 p1 b1)

-- What `kmalloc_init` gives: `ns` are the frames that it takes.
pub record Initialised (k pages : ℕ) (m : Mem) (p : Pmm) (r : Heap × Mem × Pmm) : Type 0 where
  pub ns : List ℕ
  pub taken : Taken k p (r.2) ns
  pub heap : IsHeap (r.1) (r.0) (map frame_block ns)
  pub outside : (x : ℕ) → NotIn (x / page_size) ns → (r.1) x ≡ m x
  pub total : r.0.heap_total_bytes ≡ length ns * page_size
  pub count : (length ns ≡ pages) ⊎ ((length ns < pages) × Exhausted (r.2))

module _ {k : ℕ} {p : Pmm} (m : Mem) (v : IsValid k p) (reserved : frame_test p.bitmap 0 ≡ 1) where
  abbrev at_rest : Heap
  at_rest = record { heap_start = 0; heap_total_bytes = 0 }

  Initialised-none :
      (pages : ℕ)
      → (pages ≡ 0) ⊎ ((0 < pages) × Exhausted p)
      → Initialised k pages m p (at_rest, m, p)
  Initialised-none pages ended = record {
    ns = [];
    taken = Taken-none k p v;
    heap = record { chain = refl; ordered = omega arith };
    outside = λ x out. refl;
    total = refl;
    count = elim ended [ inl e ↦ inl (sym e) | inr full ↦ inr full ];
  }

  first_round :
      (pages : ℕ) (o : Option ℕ)
      → FirstFree p.bitmap 0 max_frames o
      → Allocates p o
      → Initialised k (suc pages) m p (init_loop (suc pages) 0 at_rest m p)
  unfolding init_loop round
  first_round pages none found failed =
      rw failed (Initialised-none (suc pages) (inr (omega arith, λ e l. found e (omega arith) l)))
  first_round pages (some f) (_, l, free, below) (e, d, c, w) =
      let above : 0 < f = elim (dec_lt 0 f) [
        | yes y ↦ y
        | no n ↦
            let z : f ≡ 0 = omega arith in
            absurd (omega (arith, free, reserved, ap (λ x. frame_test p.bitmap x) z))
      ] in
      let p1 : Pmm = (pmm_alloc_frame p).1 in
      let h1 : Heap = next_heap at_rest f in
      let m1 : Mem = round 0 f m above l in
      let b1 : Building k f h1 m1 p1 =
        Building-next at_rest m p p1 above l d (alloc-IsValid v) (omega arith)
          (λ x y. below x (omega arith) y) in
      let t : Built k pages f h1 m1 p1 (init_loop pages (f * page_size) h1 m1 p1) =
        build k pages f h1 m1 p1 b1 in
      rw (e, ne→== (f * page_size) 0 (omega (arith, above)))
        (record {
          ns = f ∷ t.ns;
          taken = Taken-cons f l free d c t.taken;
          heap = record {
            chain = rw t.start t.chain;
            ordered =
                Ordered-weaken 0 (f * page_size) (map frame_block (f ∷ t.ns)) (omega arith)
                  t.ordered;
          };
          outside = λ x out. t.outside x out ∙ round-outside 0 f m above l x (out.0) (inl refl);
          total = omega (arith, t.total);
          count = elim t.count [
            | inl e ↦ inl (ap suc e)
            | inr (less, full) ↦ inr (omega arith, full)
          ];
        })

  -- With a valid counter, frame 0 in use and the statics of the heap still 0, `kmalloc_init` leaves a
  -- well-formed heap: each frame that it takes, and no other one, is a free block of 4080 bytes, in
  -- address order, `heap_total_bytes` counts their bytes, and no byte outside those frames changes. It takes as many frames as it is asked
  -- for, or every frame there is.
  pub kmalloc_init-Initialised :
      (pages : ℕ)
      → Initialised k pages m p
          (kmalloc_init pages (record { heap_start = 0; heap_total_bytes = 0 }) m p)
  unfolding kmalloc_init
  kmalloc_init-Initialised zero = Initialised-none zero (inl refl)
  kmalloc_init-Initialised (suc pages) =
      let (o, found, answer) = alloc_result v in
      rw (ne→== (suc pages) 0 (omega arith)) (first_round pages o found answer)
