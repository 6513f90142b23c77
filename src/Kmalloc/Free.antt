-- ===== src/Kmalloc/Free.antt =====
-- `kfree` on a well-formed heap.
use stak_os.Base.{
  ℕ, zero, suc, ◌+◌, ◌≤◌, ◌<◌, ◌≡◌, ◌≢◌, ◌⊎◌, inl, inr, refl, ◌∙◌, true, Option, none, some, List,
  [], ◌∷◌, ◌==◌, arith, length, Bool-cases, ==→ne, ==→eq, ne→==, ap,
}
use stak_os.Base.Words.{sub32}
use stak_os.Memory.{Mem, load32, store32_ne, load32-store32_self, load32-store32_ne}
use stak_os.Memory.Writes.{load32-SameBelow}
use stak_os.Kmalloc.{
  block_header_size, block_magic, Heap, magic, free, next, set_free, coalesce_loop, coalesce,
  Outcome, returns, panics, kfree,
}
use stak_os.Kmalloc.Chain.{
  Block, ram_end, block_end, HasHeader, HasHeader-same, Chain, Chain-frame, Ordered, Ordered-le,
  coalesce_blocks, mark_free,
}
use stak_os.Kmalloc.Search.{OutsideFree, KeepsUsed}
use stak_os.Kmalloc.Coalesce.{coalesce-Merged}
use stak_os.Kmalloc.Live.{Live, Live-above}
use stak_os.Kmalloc.Calls.{IsHeap}

-- A block in use has its header in memory.
Live-header :
    (m : Mem) (p lo a n : ℕ) (bs : List Block)
    → Chain m p bs
    → Ordered lo bs
    → Live a n bs
    → (0 < a) × (a + block_header_size + n ≤ ram_end) × (magic m a ≡ block_magic) × (free m a ≡ 0)
Live-header m p lo a n [] c o l = absurd l
Live-header m p lo a n (b ∷ bs) (e, h, c) o (inl (x, y, u)) =
    ground (arith, h, o, Ordered-le (block_end b) bs (o.4))
Live-header m p lo a n (b ∷ bs) (e, h, c) o (inr l) =
    Live-header m (next m b.addr) (block_end b) a n bs c (o.4) l

Live-behind :
    (lo a n : ℕ) (b : Block) (bs : List Block) → Live a n (b ∷ bs) → b.addr ≢ a → Live a n bs
Live-behind lo a n b bs (inl (e, _, _)) ne = absurd (ne e)
Live-behind lo a n b bs (inr l) ne = l

-- Setting the flag of a block in use gives the chain in which it is free.
module _ (m : Mem) (a n : ℕ) where
  marked : Mem
  marked = set_free m a 1

  marked-same : (x : ℕ) → (x < a + 8) ⊎ (a + 12 ≤ x) → marked x ≡ m x
  unfolding marked
  marked-same x out = store32_ne m (a + 8) x 1 (ground arith)

  mark_head :
      (lo : ℕ) (b : Block) (bs : List Block)
      → HasHeader m b
      → Chain m (next m b.addr) bs
      → Ordered lo (b ∷ bs)
      → b.addr ≡ a
      → Chain marked b.addr (record b { is_free = true } ∷ bs)
  unfolding marked
  mark_head lo b bs h c o e = (
    refl,
    record {
      is_magic = load32-store32_ne m (a + 8) b.addr 1 (omega arith) ∙ h.is_magic;
      has_size = load32-store32_ne m (a + 8) (b.addr + 4) 1 (omega arith) ∙ h.has_size;
      has_free = ap (λ k. load32 (set_free m a 1) (k + 8)) e ∙ load32-store32_self m (a + 8) 1;
    },
    rw (load32-store32_ne m (a + 8) (b.addr + 12) 1 (omega arith)) (
        Chain-frame m (set_free m a 1) (block_end b) (next m b.addr) bs (o.4)
          (λ x l. store32_ne m (a + 8) x 1 (inr (omega arith))) c),
  )

  mark_free-Chain :
      (p lo : ℕ) (bs : List Block)
      → Chain m p bs
      → Ordered lo bs
      → Live a n bs
      → Chain marked p (mark_free a bs) × Ordered lo (mark_free a bs)
  unfolding mark_free
  mark_free-Chain p lo [] c o l = absurd l
  mark_free-Chain p lo (b ∷ bs) (e, h, c) o l = elim (Bool-cases (b.addr == a)) [
    | inl here ↦ rw (here, e) (mark_head lo b bs h c o (==→eq b.addr a here), o)
    | inr there ↦
        let behind = Live-behind lo a n b bs l (==→ne b.addr a there) in
        let above = Live-above (block_end b) a n bs (o.4) behind in
        let (c', o') = mark_free-Chain (next m b.addr) (block_end b) bs c (o.4) behind in
        rw there (
          (
            e,
            HasHeader-same m marked b (inr λ x l. marked-same x (inl (omega arith))) h,
            rw
                (load32-SameBelow m marked (block_end b) (b.addr + 12)
                  (λ x l. marked-same x (inl (omega arith))) (omega arith))
                c',
          ),
          (o.0, o.1, o.2, o.3, o'),
        )
  ]

  OutsideFree-mark :
      (x lo : ℕ) (bs : List Block)
      → Ordered lo bs
      → Live a n bs
      → OutsideFree x (mark_free a bs)
      → (x < a) ⊎ (a + block_header_size + n ≤ x)
  unfolding mark_free
  OutsideFree-mark x lo [] o l out = absurd l
  OutsideFree-mark x lo (b ∷ bs) o l out = elim (Bool-cases (b.addr == a)) [
    | inl here ↦ head (==→eq b.addr a here) l (rw here at out)
    | inr there ↦
        OutsideFree-mark x (block_end b) bs (o.4) (Live-behind lo a n b bs l (==→ne b.addr a there))
          ((rw there at out).1)
  ]
    where
      head :
          b.addr ≡ a
          → Live a n (b ∷ bs)
          → OutsideFree x (record b { is_free = true } ∷ bs)
          → (x < a) ⊎ (a + block_header_size + n ≤ x)
      head e (inl (_, k, u)) (inl f, _) = cc
      head e (inl (_, k, u)) (inr q, _) = ground arith
      head e (inr k) q = absurd (omega (arith, Live-above (block_end b) a n bs (o.4) k))

length-mark_free : (a : ℕ) (bs : List Block) → length (mark_free a bs) ≡ length bs
unfolding mark_free
length-mark_free a [] = refl
length-mark_free a (b ∷ bs) = ground (arith, length-mark_free a bs)

-- A free block starts at `a`.
abbrev pub FreeBlock : ℕ → List Block → Type 0
FreeBlock a [] = ⊥
FreeBlock a (b ∷ bs) = ((b.addr ≡ a) × (b.is_free ≡ true)) ⊎ FreeBlock a bs

FreeBlock-header :
    (m : Mem) (p lo a : ℕ) (bs : List Block)
    → Chain m p bs
    → Ordered lo bs
    → FreeBlock a bs
    → (0 < a) × (a + block_header_size ≤ ram_end) × (free m a ≡ 1)
FreeBlock-header m p lo a [] c o l = absurd l
FreeBlock-header m p lo a (b ∷ bs) (e, h, c) o (inl (x, f)) =
    ground (arith, h, o, Ordered-le (block_end b) bs (o.4))
FreeBlock-header m p lo a (b ∷ bs) (e, h, c) o (inr l) =
    FreeBlock-header m (next m b.addr) (block_end b) a bs c (o.4) l

-- How `kfree` of the block at `a` ends.
pub record Freed (m : Mem) (h : Heap) (a : ℕ) (bs : List Block) (r : Option Outcome) : Type 0 where
  pub after : Mem
  pub result : r ≡ some (returns after)
  pub heap : IsHeap after h (coalesce_blocks (mark_free a bs))
  pub keeps : KeepsUsed (mark_free a bs) m after

coalesce_lem :
    (m : Mem) (h : Heap) (fuel : ℕ) (bs : List Block)
    → IsHeap m h bs
    → length bs < fuel
    → (after : Mem) × (coalesce fuel h m ≡ some after)
      × IsHeap after h (coalesce_blocks bs)
      × KeepsUsed bs m after
unfolding coalesce coalesce_blocks coalesce_loop
coalesce_lem m h zero [] v l = absurd (omega arith)
coalesce_lem m h (suc fuel) [] v l = (m, rw (v.chain, coalesce_loop), v, λ x o. refl)
coalesce_lem m h fuel (b ∷ bs) v l =
    let (e, hd, c) = v.chain in
    let r = coalesce-Merged bs m b fuel 0 (refl, hd, c) v.ordered (omega arith) in
    (
      r.after,
      ap (λ p. coalesce_loop fuel m p) e ∙ r.result,
      record { chain = rw e r.chain; ordered = r.ordered },
      r.keeps,
    )

module _ {m : Mem} {h : Heap} {bs : List Block} (v : IsHeap m h bs) where
  kfree_run :
      (fuel a n : ℕ)
      → Live a n bs
      → kfree fuel h m (a + block_header_size)
        ≡ elim (coalesce fuel h (set_free m a 1)) [ none ↦ none | some m' ↦ some (returns m') ]
  unfolding kfree
  kfree_run fuel a n l =
      let (pos, ram, mg, fr) = Live-header m h.heap_start 0 a n bs v.chain v.ordered l in
      let blk : sub32 (a + block_header_size) block_header_size ≡ a = omega arith in
      rw (ne→== (a + block_header_size) 0 (omega arith), blk, mg, fr)

  -- `kfree` of a block in use returns, with that block free and every two free neighbours
  -- merged; the heap stays well formed and no byte outside the free blocks changes.
  pub kfree_lem :
      (fuel a n : ℕ)
      → Live a n bs
      → length bs < fuel
      → Freed m h a bs (kfree fuel h m (a + block_header_size))
  unfolding marked
  kfree_lem fuel a n l enough =
      let (chain, ordered) = mark_free-Chain m a n h.heap_start 0 bs v.chain v.ordered l in
      let (after, run, heap, keeps) =
        coalesce_lem (marked m a n) h fuel (mark_free a bs)
          (record { chain = chain; ordered = ordered }) (omega (arith, length-mark_free a bs)) in
      record {
        after = after;
        result = rw (kfree_run fuel a n l, run);
        heap = heap;
        keeps = λ x out.
            keeps x out
            ∙ marked-same m a n x (apart (OutsideFree-mark m a n x 0 bs v.ordered l out));
      }
    where
      apart : {x : ℕ} → (x < a) ⊎ (a + block_header_size + n ≤ x) → (x < a + 8) ⊎ (a + 12 ≤ x)
      apart (inl q) = inl (omega arith)
      apart (inr q) = inr (omega arith)

  -- `kfree(NULL)` does nothing.
  pub kfree_null : (fuel : ℕ) → kfree fuel h m 0 ≡ some (returns m)
  unfolding kfree
  kfree_null fuel = refl

  -- On a well-formed heap, `kfree` of the data pointer of a block that is free already stops the
  -- kernel.
  pub kfree_double :
      (fuel a : ℕ) → FreeBlock a bs → kfree fuel h m (a + block_header_size) ≡ some panics
  unfolding kfree
  kfree_double fuel a l =
      let (pos, ram, fr) = FreeBlock-header m h.heap_start 0 a bs v.chain v.ordered l in
      let blk : sub32 (a + block_header_size) block_header_size ≡ a = omega arith in
      rw (ne→== (a + block_header_size) 0 (omega arith), blk, fr) (ground arith)
