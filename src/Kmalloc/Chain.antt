-- ===== src/Kmalloc/Chain.antt =====
-- What a chain of headers in memory stands for: a list of blocks in address order, and the
-- operations of the heap on such lists.
use stak_os.Base.{
  ℕ, ◌+◌, ◌-◌, ◌%◌, ◌≤◌, ◌<◌, ◌≡◌, ◌⊎◌, inl, inr, Bool, true, false, ◌&&◌, List, [], ◌∷◌, ◌==◌, leb,
  if◌then◌else◌, arith,
}
use stak_os.Memory.{Mem}
use stak_os.Memory.Writes.{SameFrom, SameBelow, load32-SameFrom, load32-SameBelow}
use stak_os.Kmalloc.{block_header_size, block_magic, min_split_size, magic, size, free, next}

pub record Block : Type 0 where
  pub addr : ℕ
  pub bytes : ℕ
  pub is_free : Bool

abbrev pub flag : Bool → ℕ
flag true = 1
flag false = 0

-- The end of the frames that the bitmap of the PMM covers.
abbrev pub ram_end : ℕ
ram_end = 0x800_0000

abbrev pub block_end : Block → ℕ
block_end b = b.addr + block_header_size + b.bytes

-- The header of `b` is in memory.
pub record HasHeader (m : Mem) (b : Block) : Type 0 where
  pub is_magic : magic m b.addr ≡ block_magic
  pub has_size : size m b.addr ≡ b.bytes
  pub has_free : free m b.addr ≡ flag b.is_free

-- From `p` the `next` pointers lead through the headers of `bs` to NULL.
abbrev pub Chain : Mem → ℕ → List Block → Type 0
Chain m p [] = p ≡ 0
Chain m p (b ∷ bs) = (p ≡ b.addr) × HasHeader m b × Chain m (next m b.addr) bs

-- The blocks are 4-aligned and follow one another from `lo` on without overlap.
abbrev pub Ordered : ℕ → List Block → Type 0
Ordered lo [] = lo ≤ ram_end
Ordered lo (b ∷ bs) =
    (lo ≤ b.addr) × (0 < b.addr) × (b.addr % 4 ≡ 0) × (b.bytes % 4 ≡ 0) × Ordered (block_end b) bs

pub Ordered-le : (lo : ℕ) (bs : List Block) → Ordered lo bs → lo ≤ ram_end
Ordered-le lo [] o = o
Ordered-le lo (b ∷ bs) (l, _, _, _, o) = omega (arith, Ordered-le (block_end b) bs o)

pub Ordered-weaken : (lo hi : ℕ) (bs : List Block) → lo ≤ hi → Ordered hi bs → Ordered lo bs
Ordered-weaken lo hi [] l o = omega arith
Ordered-weaken lo hi (b ∷ bs) l (a, p, q, r, o) = (omega arith, p, q, r, o)

pub HasHeader-same :
    (m m' : Mem) (b : Block)
    → SameFrom b.addr m m' ⊎ SameBelow (b.addr + 16) m m'
    → HasHeader m b
    → HasHeader m' b
HasHeader-same m m' b (inl same) h = omega (
  arith,
  h.is_magic,
  h.has_size,
  h.has_free,
  load32-SameFrom m m' b.addr b.addr same,
  load32-SameFrom m m' b.addr (b.addr + 4) same,
  load32-SameFrom m m' b.addr (b.addr + 8) same,
)
HasHeader-same m m' b (inr same) h = omega (
  arith,
  h.is_magic,
  h.has_size,
  h.has_free,
  load32-SameBelow m m' (b.addr + 16) b.addr same,
  load32-SameBelow m m' (b.addr + 16) (b.addr + 4) same,
  load32-SameBelow m m' (b.addr + 16) (b.addr + 8) same,
)

-- A chain survives every change below its first block.
pub Chain-frame :
    (m m' : Mem) (lo p : ℕ) (bs : List Block)
    → Ordered lo bs
    → SameFrom lo m m'
    → Chain m p bs
    → Chain m' p bs
Chain-frame m m' lo p [] o same c = c
Chain-frame m m' lo p (b ∷ bs) (l, _, _, _, o) same (e, h, c) = (
  e,
  HasHeader-same m m' b (inl (λ a k. same a (omega arith))) h,
  rw (load32-SameFrom m m' lo (b.addr + 12) same (omega arith))
      (Chain-frame m m' (block_end b) (next m b.addr) bs o (λ a k. same a (omega arith)) c),
)

-- First fit on the list: the block is taken, and what it has to spare is split off.
unfoldable pub take_block : ℕ → Block → List Block → List Block
take_block wanted b bs =
    if leb b.bytes (wanted + (block_header_size + min_split_size))
    then record b { is_free = false } ∷ bs
    else record b { bytes = wanted; is_free = false }
      ∷ record {
        addr = b.addr + block_header_size + wanted;
        bytes = b.bytes - wanted - block_header_size;
        is_free = true;
      }
      ∷ bs

-- The pointer that is handed out, 0 if no block fits.
unfoldable pub alloc_ptr : ℕ → List Block → ℕ
alloc_ptr wanted [] = 0
alloc_ptr wanted (b ∷ bs) =
    if b.is_free && leb wanted b.bytes then b.addr + block_header_size else alloc_ptr wanted bs

unfoldable pub alloc_blocks : ℕ → List Block → List Block
alloc_blocks wanted [] = []
alloc_blocks wanted (b ∷ bs) =
    if b.is_free && leb wanted b.bytes then take_block wanted b bs else b ∷ alloc_blocks wanted bs

-- Two free blocks with no gap between them.
unfoldable pub mergeable : Block → Block → Bool
mergeable b c = b.is_free && (c.is_free && c.addr == block_end b)

abbrev pub merge : Block → Block → Block
merge b c = record b { bytes = b.bytes + (block_header_size + c.bytes) }

-- One forward pass that merges neighbours, `b` being the block in hand.
unfoldable pub coalesce_from : Block → List Block → List Block
coalesce_from b [] = b ∷ []
coalesce_from b (c ∷ cs) = elim (mergeable b c) [
  | true ↦ coalesce_from (merge b c) cs
  | false ↦ b ∷ coalesce_from c cs
]

unfoldable pub coalesce_blocks : List Block → List Block
coalesce_blocks [] = []
coalesce_blocks (b ∷ bs) = coalesce_from b bs

-- The block at `a` is given back.
unfoldable pub mark_free : ℕ → List Block → List Block
mark_free a [] = []
mark_free a (b ∷ bs) = if b.addr == a then record b { is_free = true } ∷ bs else b ∷ mark_free a bs
