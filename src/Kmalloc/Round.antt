-- ===== src/Kmalloc/Round.antt =====
-- One round of `kmalloc_init`: the header of a new block, and the link of the block before it.
use stak_os.Base.{
  ℕ, ◌+◌, ◌-◌, ◌*◌, ◌/◌, ◌%◌, ◌<◌, ◌≡◌, ◌≢◌, ◌⊎◌, inl, inr, refl, ◌∙◌, true, List, [], ◌∷◌, ◌==◌,
  if◌then◌else◌, arith, Bool-cases,
}
use stak_os.Base.Words.{u32_mod}
use stak_os.Memory.{Mem, load32, store32_ne}
use stak_os.Memory.Writes.{
  SameBelow, writes, word_after, load32-store32, load32-writes, writes-Spares,
}
use stak_os.Pmm.{page_size, max_frames}
use stak_os.Kmalloc.{block_header_size, block_magic, next, set_magic, set_size, set_free, set_next}
use stak_os.Kmalloc.Chain.{Block, HasHeader}

-- The block that a frame becomes.
abbrev pub frame_block : ℕ → Block
frame_block f = record {
  addr = f * page_size;
  bytes = page_size - block_header_size;
  is_free = true;
}

-- The stores for the header of a new block.
abbrev header_writes : ℕ → List (ℕ × ℕ)
header_writes a =
    (a, block_magic) ∷ (a + 4, page_size - block_header_size) ∷ (a + 8, 1) ∷ (a + 12, 0) ∷ []

-- One round for frame `f`, with `g` the frame of the round before, 0 in the first one.
module _ (g f : ℕ) (m : Mem) (above : g < f) (l : f < max_frames) where
  unfoldable pub round : Mem
  round =
      let m' =
        set_next
          (set_free
            (set_size (set_magic m (f * page_size) block_magic) (f * page_size)
              (page_size - block_header_size))
            (f * page_size) 1)
          (f * page_size) 0 in
      if g * page_size == 0 then m' else set_next m' (g * page_size) (f * page_size)

  word :
      (a : ℕ)
      → a % 4 ≡ 0
      → load32 round a ≡ (
          if g * page_size == 0
          then word_after a (load32 m a) (header_writes (f * page_size))
          else if g * page_size + 12 == a
          then f * page_size % u32_mod
          else word_after a (load32 m a) (header_writes (f * page_size)))
  unfolding round
  word a q = elim (Bool-cases (g * page_size == 0)) [
    | inl e ↦ rw e (load32-writes (header_writes (f * page_size)) m a (omega arith) q)
    | inr e ↦ rw e (
        load32-store32 (writes m (header_writes (f * page_size))) (g * page_size + 12) a
          (f * page_size) (omega arith) q
        ∙ rw (load32-writes (header_writes (f * page_size)) m a (omega arith) q) refl)
  ]

  pub round-HasHeader : HasHeader round (frame_block f)
  round-HasHeader = record {
    is_magic = ground (arith, word (f * page_size));
    has_size = ground (arith, word (f * page_size + 4));
    has_free = ground (arith, word (f * page_size + 8));
  }

  pub round-next : next round (f * page_size) ≡ 0
  round-next = ground (arith, word (f * page_size + 12))

  pub round-linked : g ≢ 0 → next round (g * page_size) ≡ f * page_size
  round-linked nz = ground (arith, word (g * page_size + 12))

  pub round-keeps : g ≢ 0 → HasHeader m (frame_block g) → HasHeader round (frame_block g)
  round-keeps nz h = record {
    is_magic = ground (arith, word (g * page_size), h.is_magic);
    has_size = ground (arith, word (g * page_size + 4), h.has_size);
    has_free = ground (arith, word (g * page_size + 8), h.has_free);
  }

  -- Bytes below the last block stay.
  pub round-SameBelow : SameBelow (g * page_size) m round
  unfolding round
  round-SameBelow x below = elim (Bool-cases (g * page_size == 0)) [
    | inl e ↦ absurd (ground arith)
    | inr e ↦ rw e (
        store32_ne (writes m (header_writes (f * page_size))) (g * page_size + 12) x _ (omega arith)
        ∙ writes-Spares (header_writes (f * page_size)) m x (ground arith))
  ]

  -- So do bytes outside the frames of the two blocks.
  pub round-outside : (x : ℕ) → x / page_size ≢ f → (g ≡ 0) ⊎ (x / page_size ≢ g) → round x ≡ m x
  unfolding round
  round-outside x ne old = elim (Bool-cases (g * page_size == 0)) [
    | inl e ↦ rw e (writes-Spares (header_writes (f * page_size)) m x (ground arith))
    | inr e ↦ rw e (
        store32_ne (writes m (header_writes (f * page_size))) (g * page_size + 12) x _
          (ground arith)
        ∙ writes-Spares (header_writes (f * page_size)) m x (ground arith))
  ]
