-- ===== src/Kmalloc/Live.antt =====
-- The blocks in use: allocation adds one, no operation loses or moves another, and they never
-- overlap.
use stak_os.Base.{
  ℕ, ◌+◌, ◌≤◌, ◌≡◌, ◌≢◌, ◌⊎◌, inl, inr, refl, true, false, ◌&&◌, List, [], ◌∷◌, leb, arith,
  Bool-cases,
}
use stak_os.Kmalloc.{block_header_size}
use stak_os.Kmalloc.Chain.{Block, block_end, Ordered, take_block, alloc_ptr, alloc_blocks}

-- A block of `n` bytes at address `a` is in use.
abbrev pub Live : ℕ → ℕ → List Block → Type 0
Live a n [] = ⊥
Live a n (b ∷ bs) = ((b.addr ≡ a) × (b.bytes ≡ n) × (b.is_free ≡ false)) ⊎ Live a n bs

abbrev pub AllBlocks : (Block → Type 0) → List Block → Type 0
AllBlocks P [] = Unit
AllBlocks P (b ∷ bs) = P b × AllBlocks P bs

-- The bytes of all blocks, headers included.
unfoldable pub footprint : List Block → ℕ
footprint [] = 0
footprint (b ∷ bs) = block_header_size + b.bytes + footprint bs

pub Live-above : (lo a n : ℕ) (bs : List Block) → Ordered lo bs → Live a n bs → lo ≤ a
Live-above lo a n [] o l = absurd l
Live-above lo a n (b ∷ bs) (x, _, _, _, o) (inl (e, _, _)) = omega arith
Live-above lo a n (b ∷ bs) (x, _, _, _, o) (inr l) =
    omega (arith, Live-above (block_end b) a n bs o l)

-- Two blocks in use are one and the same, or lie apart, headers included.
pub Live-apart :
    (lo a n a' n' : ℕ) (bs : List Block)
    → Ordered lo bs
    → Live a n bs
    → Live a' n' bs
    → ((a ≡ a') × (n ≡ n')) ⊎ ((a + block_header_size + n ≤ a') ⊎ (a' + block_header_size + n' ≤ a))
Live-apart lo a n a' n' [] o l k = absurd l
Live-apart lo a n a' n' (b ∷ bs) o (inl (p, q, _)) (inl (p', q', _)) =
    inl (omega arith, omega arith)
Live-apart lo a n a' n' (b ∷ bs) o (inl (p, q, _)) (inr k) =
    inr (inl (omega (arith, Live-above (block_end b) a' n' bs (o.4) k)))
Live-apart lo a n a' n' (b ∷ bs) o (inr l) (inl (p, q, _)) =
    inr (inr (omega (arith, Live-above (block_end b) a n bs (o.4) l)))
Live-apart lo a n a' n' (b ∷ bs) o (inr l) (inr k) = Live-apart (block_end b) a n a' n' bs (o.4) l k

-- Allocation.
take_block-Live :
    (wanted : ℕ) (b : Block) (bs : List Block)
    → wanted ≤ b.bytes
    → (n : ℕ) × (wanted ≤ n) × Live b.addr n (take_block wanted b bs)
unfolding take_block
take_block-Live wanted b bs fits = elim (Bool-cases (leb b.bytes (wanted + 24))) [
  | inl e ↦ (b.bytes, fits, rw e (inl (refl, refl, refl)))
  | inr e ↦ (wanted, omega arith, rw e (inl (refl, refl, refl)))
]

take_block-Live_old :
    (wanted : ℕ) (b : Block) (bs : List Block) (a n : ℕ)
    → Live a n bs
    → Live a n (take_block wanted b bs)
unfolding take_block
take_block-Live_old wanted b bs a n l = elim (Bool-cases (leb b.bytes (wanted + 24))) [
  | inl e ↦ rw e (inr l)
  | inr e ↦ rw e (inr (inr l))
]

pub Live-tail :
    (a n : ℕ) (b : Block) (bs : List Block) → b.is_free ≡ true → Live a n (b ∷ bs) → Live a n bs
Live-tail a n b bs f (inl (_, _, u)) = cc
Live-tail a n b bs f (inr l) = l

-- One more block in front, on both sides.
pub Live-cons :
    (a n : ℕ) (b : Block) (bs cs : List Block)
    → (Live a n bs → Live a n cs)
    → Live a n (b ∷ bs)
    → Live a n (b ∷ cs)
Live-cons a n b bs cs f (inl h) = inl h
Live-cons a n b bs cs f (inr l) = inr (f l)

-- A pointer that is not NULL is the data address of a block in use of at least the wanted size.
pub alloc-Live :
    (wanted : ℕ) (bs : List Block)
    → alloc_ptr wanted bs ≢ 0
    → (a n : ℕ) × (alloc_ptr wanted bs ≡ a + block_header_size)
      × (wanted ≤ n)
      × Live a n (alloc_blocks wanted bs)
unfolding alloc_ptr alloc_blocks
alloc-Live wanted [] h = absurd (h refl)
alloc-Live wanted (b ∷ bs) h = elim (Bool-cases (b.is_free && leb wanted b.bytes)) [
  | inl e ↦
      let (n, le, l) = take_block-Live wanted b bs (ground arith) in (b.addr, n, rw e, le, rw e l)
  | inr e ↦
      let (a, n, p, le, l) = alloc-Live wanted bs (rw e at h) in (a, n, rw e p, le, rw e (inr l))
]

-- Every block in use stays in use, where it is and as large as it is.
pub alloc_blocks-Live :
    (wanted a n : ℕ) (bs : List Block) → Live a n bs → Live a n (alloc_blocks wanted bs)
unfolding alloc_blocks
alloc_blocks-Live wanted a n [] l = l
alloc_blocks-Live wanted a n (b ∷ bs) l = elim (Bool-cases (b.is_free && leb wanted b.bytes)) [
  | inl e ↦ rw e (take_block-Live_old wanted b bs a n (Live-tail a n b bs (ground arith) l))
  | inr e ↦ rw e (Live-cons a n b bs (alloc_blocks wanted bs) (alloc_blocks-Live wanted a n bs) l)
]

alloc_ptr-above :
    (wanted lo : ℕ) (bs : List Block)
    → Ordered lo bs
    → (alloc_ptr wanted bs ≡ 0) ⊎ (lo + block_header_size ≤ alloc_ptr wanted bs)
unfolding alloc_ptr
alloc_ptr-above wanted lo [] o = inl refl
alloc_ptr-above wanted lo (b ∷ bs) o = ground (arith, alloc_ptr-above wanted (block_end b) bs (o.4))

-- The pointer is never that of a block already in use.
pub alloc_ptr-fresh :
    (wanted lo a n : ℕ) (bs : List Block)
    → Ordered lo bs
    → Live a n bs
    → alloc_ptr wanted bs ≢ a + block_header_size
unfolding alloc_ptr
alloc_ptr-fresh wanted lo a n [] o l = absurd l
alloc_ptr-fresh wanted lo a n (b ∷ bs) o l = elim (Bool-cases (b.is_free && leb wanted b.bytes)) [
  | inl e ↦
      rw e
        (omega (arith, Live-above (block_end b) a n bs (o.4) (Live-tail a n b bs (ground arith) l)))
  | inr e ↦ rw e (go l (alloc_ptr-fresh wanted (block_end b) a n bs (o.4)))
]
  where
    go :
        Live a n (b ∷ bs)
        → (Live a n bs → alloc_ptr wanted bs ≢ a + block_header_size)
        → alloc_ptr wanted bs ≢ a + block_header_size
    go (inl (p, _, _)) ih = ground (arith, alloc_ptr-above wanted (block_end b) bs (o.4))
    go (inr k) ih = ih k

-- It fails only if no free block is large enough.
pub alloc_ptr-none :
    (wanted lo : ℕ) (bs : List Block)
    → alloc_ptr wanted bs ≡ 0
    → AllBlocks (λ b. (b.is_free && leb wanted b.bytes) ≡ false) bs
unfolding alloc_ptr
alloc_ptr-none wanted lo [] e = tt
alloc_ptr-none wanted lo (b ∷ bs) e = elim (Bool-cases (b.is_free && leb wanted b.bytes)) [
  | inl fits ↦ absurd (omega (arith, rw fits at e))
  | inr skip ↦ (skip, alloc_ptr-none wanted lo bs (rw skip at e))
]

pub footprint-alloc_blocks :
    (wanted : ℕ) (bs : List Block) → footprint (alloc_blocks wanted bs) ≡ footprint bs
unfolding alloc_blocks take_block footprint
footprint-alloc_blocks wanted [] = refl
footprint-alloc_blocks wanted (b ∷ bs) = ground (arith, footprint-alloc_blocks wanted bs)
