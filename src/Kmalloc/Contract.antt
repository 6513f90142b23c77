-- ===== src/Kmalloc/Contract.antt =====
-- What callers of the heap rely on: blocks in use never overlap, move or shrink.
use stak_os.Base.{
  ℕ, ◌+◌, ◌-◌, ◌≤◌, ◌<◌, ◌≡◌, ◌≢◌, ◌⊎◌, inl, inr, refl, ◌∙◌, false, ◌&&◌, some, List, leb, arith,
  length,
}
use native.Mathlib.Decide.{ℕ_discrete}
use stak_os.Base.Words.{u32_mod}
use stak_os.Memory.{Mem}
use stak_os.Kmalloc.{block_header_size, Heap, size, align4, kmalloc, returns, kfree}
use stak_os.Kmalloc.Chain.{Block, Ordered, alloc_ptr, alloc_blocks, coalesce_blocks, mark_free}
use stak_os.Kmalloc.Live.{Live}
use stak_os.Kmalloc.Merged.{
  coalesce_blocks-Live, coalesce_blocks-Live_only, coalesce_blocks-Settled,
  footprint-coalesce_blocks, footprint-mark_free, mark_free-Live, mark_free-Live_only,
  mark_free-gone,
}
use stak_os.Kmalloc.Calls.{IsHeap, align4_lem, kmalloc_lem}
use stak_os.Kmalloc.Free.{kfree_lem}
use stak_os.Kmalloc.Live.{
  AllBlocks, alloc-Live, alloc_blocks-Live, alloc_ptr-none, alloc_ptr-fresh, Live-apart, footprint,
  footprint-alloc_blocks,
}
use stak_os.Kmalloc.Merged.{
  coalesce_blocks-Live, coalesce_blocks-Live_only, coalesce_blocks-Settled,
  footprint-coalesce_blocks, footprint-mark_free, mark_free-Live, mark_free-Live_only,
  mark_free-gone, Settled,
}

-- The block of `n` bytes at `a` lies apart from every block in use of `bs`.
abbrev pub ApartFrom : ℕ → ℕ → List Block → Type 0
ApartFrom a n bs =
    (a' n' : ℕ)
    → Live a' n' bs
    → (a + block_header_size + n ≤ a') ⊎ (a' + block_header_size + n' ≤ a)

-- A call of `kmalloc` that hands out a block.
pub record GivesBlock (size : ℕ) (bs bs' : List Block) (ptr : ℕ) : Type 0 where
  pub addr : ℕ
  pub bytes : ℕ
  pub ptr_eq : ptr ≡ addr + block_header_size
  pub large : size ≤ bytes
  pub live : Live addr bytes bs'
  pub apart : ApartFrom addr bytes bs

module _ {m : Mem} {h : Heap} {bs : List Block} (v : IsHeap m h bs) where
  gives :
      (size ptr : ℕ)
      → ptr ≡ alloc_ptr (align4 size) bs
      → size ≤ align4 size
      → Ordered 0 (alloc_blocks (align4 size) bs)
      → ptr ≢ 0
      → GivesBlock size bs (alloc_blocks (align4 size) bs) ptr
  gives size ptr p al o ne =
      let (a, n, e, le, l) = alloc-Live (align4 size) bs (λ z. ne (p ∙ z)) in
      record {
        addr = a;
        bytes = n;
        ptr_eq = p ∙ e;
        large = omega arith;
        live = l;
        apart = λ a' n' k. disjoint a n a' n' e k (
            Live-apart 0 a n a' n' (alloc_blocks (align4 size) bs) o l
              (alloc_blocks-Live (align4 size) a' n' bs k));
      }
    where
      disjoint :
          (a n a' n' : ℕ)
          → alloc_ptr (align4 size) bs ≡ a + block_header_size
          → Live a' n' bs
          → ((a ≡ a') × (n ≡ n'))
            ⊎ ((a + block_header_size + n ≤ a') ⊎ (a' + block_header_size + n' ≤ a))
          → (a + block_header_size + n ≤ a') ⊎ (a' + block_header_size + n' ≤ a)
      disjoint a n a' n' e k (inl (same, _)) =
          absurd (alloc_ptr-fresh (align4 size) 0 a' n' bs v.ordered k (omega arith))
      disjoint a n a' n' e k (inr out) = out

  -- On a well-formed heap, with more fuel than blocks, `kmalloc` of 1 to 2^32 - 4 bytes returns; the heap stays well formed with as many bytes in
  -- all, and every block in use stays in use. The pointer is NULL exactly if no free block holds
  -- the rounded size; else it is the data of a block in use of at least `size` bytes that lies
  -- apart from every block in use before.
  pub kmalloc-fresh :
      (fuel size : ℕ)
      → size ≢ 0
      → size ≤ u32_mod - 4
      → length bs < fuel
      → (ptr : ℕ) × (after : Mem) × (bs' : List Block) × (kmalloc fuel h m size ≡ some (ptr, after))
        × IsHeap after h bs'
        × (footprint bs' ≡ footprint bs)
        × ((a n : ℕ) → Live a n bs → Live a n bs')
        × (((ptr ≡ 0) × AllBlocks (λ b. (b.is_free && leb (align4 size) b.bytes) ≡ false) bs)
            ⊎ ((ptr ≢ 0) × GivesBlock size bs bs' ptr))
  kmalloc-fresh fuel size ne le l =
      let r = kmalloc_lem v fuel size ne (omega arith) l in
      (
        alloc_ptr (align4 size) bs,
        r.after,
        alloc_blocks (align4 size) bs,
        r.result,
        r.heap,
        footprint-alloc_blocks (align4 size) bs,
        λ a n. alloc_blocks-Live (align4 size) a n bs,
        elim (ℕ_discrete (alloc_ptr (align4 size) bs) 0) [
          | yes e ↦ inl (e, alloc_ptr-none (align4 size) 0 bs e)
          | no ne' ↦ inr (
            ne',
            gives size (alloc_ptr (align4 size) bs) refl (ground (arith, align4_lem size))
                r.heap.ordered ne',
          )
        ],
      )

  -- On a well-formed heap, with more fuel than blocks, `kfree` of the data pointer of a block in use
  -- returns; the heap stays well formed with as many
  -- bytes in all, that block is in use no more, every other one stays, none comes into use,
  -- and no two free neighbours are left unmerged.
  pub kfree-releases :
      (fuel a n : ℕ)
      → Live a n bs
      → length bs < fuel
      → (after : Mem) × (bs' : List Block) × (kfree fuel h m (a + block_header_size)
          ≡ some (returns after))
        × IsHeap after h bs'
        × (footprint bs' ≡ footprint bs)
        × ((k : ℕ) → ¬ (Live a k bs'))
        × ((a' k : ℕ) → a' ≢ a → Live a' k bs → Live a' k bs')
        × ((a' k : ℕ) → Live a' k bs' → Live a' k bs)
        × Settled bs'
  kfree-releases fuel a n l enough =
      let r = kfree_lem v fuel a n l enough in
      (
        r.after,
        coalesce_blocks (mark_free a bs),
        r.result,
        r.heap,
        footprint-coalesce_blocks (mark_free a bs) ∙ footprint-mark_free a bs,
        λ k live.
            mark_free-gone 0 a k bs v.ordered (coalesce_blocks-Live_only a k (mark_free a bs) live),
        λ a' k ne live.
            coalesce_blocks-Live a' k (mark_free a bs) (mark_free-Live a a' k bs ne live),
        λ a' k live.
            mark_free-Live_only a a' k bs (coalesce_blocks-Live_only a' k (mark_free a bs) live),
        coalesce_blocks-Settled (mark_free a bs),
      )
