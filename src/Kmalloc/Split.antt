-- ===== src/Kmalloc/Split.antt =====
-- `split`, and the store of `kmalloc` that follows it, do on memory what `take_block` does on the
-- list.
use stak_os.Base.{
  ℕ, ◌+◌, ◌-◌, ◌%◌, ◌≤◌, ◌<◌, ◌≡◌, ◌⊎◌, inl, inr, refl, ap, ap₂, ◌∙◌, Bool, true, false, List, [],
  ◌∷◌, leb, arith, Bool-cases,
}
use stak_os.Base.Words.{add32, sub32}
use stak_os.Memory.{Mem, load32, load32-lt, store32_ne, load32-store32_self, load32-store32_ne}
use stak_os.Memory.Writes.{writes, load32-writes, writes-Spares, word_after}
use stak_os.Kmalloc.{
  block_header_size, block_magic, min_split_size, size, next, split, set_magic, set_size, set_free,
  set_next,
}
use stak_os.Kmalloc.Chain.{
  Block, ram_end, block_end, HasHeader, Chain, Ordered, Ordered-le, Ordered-weaken, Chain-frame,
  take_block,
}

-- Outside the block `b` the memories agree.
abbrev pub SameOutside : Block → Mem → Mem → Type 0
SameOutside b m m' = (x : ℕ) → (x < b.addr) ⊎ (block_end b ≤ x) → m' x ≡ m x

-- `m'` holds the chain `l` where `m` held one that starts with `b`.
pub record Replaced (m m' : Mem) (b : Block) (l : List Block) (lo : ℕ) : Type 0 where
  pub chain : Chain m' b.addr l
  pub ordered : Ordered lo l
  pub outside : SameOutside b m m'

-- The stores of a `split` that goes through, and the one of `kmalloc` after it.
abbrev split_writes : (blk new wanted rest old_next : ℕ) → List (ℕ × ℕ)
split_writes blk new wanted rest old_next =
    (new, block_magic)
    ∷ (new + 4, rest)
    ∷ (new + 8, 1)
    ∷ (new + 12, old_next)
    ∷ (blk + 4, wanted)
    ∷ (blk + 12, new)
    ∷ (blk + 8, 0)
    ∷ []

module _ (m : Mem) (b : Block) (wanted : ℕ) (bs : List Block) (lo : ℕ) (h : HasHeader m b)
    (c : Chain m (next m b.addr) bs) (o : Ordered lo (b ∷ bs)) (fits : wanted ≤ b.bytes)
    (al : wanted % 4 ≡ 0) where
  small_split : Bool
  small_split = leb b.bytes (wanted + (block_header_size + min_split_size))

  size_test : leb (size m b.addr) (add32 wanted (block_header_size + min_split_size)) ≡ small_split
  unfolding small_split
  size_test = ap₂ leb h.has_size (omega (arith, Ordered-le (block_end b) bs (o.4)))

  module _ (small : small_split ≡ true) where
    m_small : Mem
    m_small = set_free m b.addr 0

    m_small-eq : set_free (split m b.addr wanted) b.addr 0 ≡ m_small
    unfolding split m_small
    m_small-eq = rw (size_test, small)

    outside_small : SameOutside b m m_small
    unfolding m_small
    outside_small x out = store32_ne m (b.addr + 8) x 0 (ground arith)

    took_whole : Replaced m m_small b (record b { is_free = false } ∷ bs) lo
    unfolding m_small
    took_whole = record {
      chain = (
        refl,
        record {
          is_magic = load32-store32_ne m (b.addr + 8) b.addr 0 (omega arith) ∙ h.is_magic;
          has_size = load32-store32_ne m (b.addr + 8) (b.addr + 4) 0 (omega arith) ∙ h.has_size;
          has_free = load32-store32_self m (b.addr + 8) 0;
        },
        rw (load32-store32_ne m (b.addr + 8) (b.addr + 12) 0 (omega arith)) (
            Chain-frame m _ (block_end b) (next m b.addr) bs (o.4)
              (λ x l. outside_small x (omega arith)) c),
      );
      ordered = o;
      outside = outside_small;
    }

  module _ (large : small_split ≡ false) where
    new : ℕ
    new = b.addr + block_header_size + wanted

    rest : ℕ
    rest = b.bytes - wanted - block_header_size

    m_large : Mem
    m_large = writes m (split_writes b.addr new wanted rest (next m b.addr))

    room : wanted + 24 < b.bytes
    unfolding small_split
    room = ground arith

    in_ram : block_end b ≤ ram_end
    in_ram = Ordered-le (block_end b) bs (o.4)

    m_large-eq : set_free (split m b.addr wanted) b.addr 0 ≡ m_large
    unfolding split m_large new rest
    m_large-eq =
        rw (size_test, large, new_eq, size_read, rest_eq) (ap (λ v. stores (next_of v)) next_read)
      where
        new_eq : add32 b.addr (add32 block_header_size wanted) ≡ new
        new_eq = omega (arith, in_ram, room)

        m1 : Mem
        m1 = set_magic m new block_magic

        size_read : size m1 b.addr ≡ b.bytes
        size_read = load32-store32_ne m new (b.addr + 4) block_magic (omega arith) ∙ h.has_size

        rest_eq : sub32 (sub32 b.bytes wanted) block_header_size ≡ rest
        rest_eq = omega (arith, in_ram, room)

        m3 : Mem
        m3 = set_free (set_size m1 new rest) new 1

        next_read : next m3 b.addr ≡ next m b.addr
        next_read =
            load32-store32_ne (set_size m1 new rest) (new + 8) (b.addr + 12) 1 (omega arith)
            ∙ load32-store32_ne m1 (new + 4) (b.addr + 12) rest (omega arith)
            ∙ load32-store32_ne m new (b.addr + 12) block_magic (omega arith)

        next_of : ℕ → Mem
        next_of v = set_next m3 new v

        stores : Mem → Mem
        stores g = set_free (set_next (set_size g b.addr wanted) b.addr new) b.addr 0

    word :
        (a : ℕ)
        → a % 4 ≡ 0
        → load32 m_large a
          ≡ word_after a (load32 m a) (split_writes b.addr new wanted rest (next m b.addr))
    unfolding m_large new
    word a q =
        load32-writes (split_writes b.addr new wanted rest (next m b.addr)) m a
          (omega (arith, o, al)) q

    outside_large : SameOutside b m m_large
    unfolding m_large new
    outside_large x out =
        writes-Spares (split_writes b.addr new wanted rest (next m b.addr)) m x
          (ground (arith, room))

    header_used : HasHeader m_large (record b { bytes = wanted; is_free = false })
    unfolding new
    header_used = record {
      is_magic = ground (arith, word b.addr, o, h.is_magic);
      has_size = ground (arith, word (b.addr + 4), o, in_ram, room);
      has_free = ground (arith, word (b.addr + 8), o);
    }

    header_rest : HasHeader m_large (record { addr = new; bytes = rest; is_free = true })
    unfolding new rest
    header_rest = record {
      is_magic = ground (arith, word new, o, al, room);
      has_size = ground (arith, word (new + 4), o, al, in_ram, room);
      has_free = ground (arith, word (new + 8), o, al, room);
    }

    next_used : next m_large b.addr ≡ new
    unfolding new
    next_used = ground (arith, word (b.addr + 12), o, in_ram, room)

    next_rest : next m_large new ≡ next m b.addr
    unfolding new
    next_rest = ground (arith, word (new + 12), o, al, room, load32-lt m (b.addr + 12))

    Ordered-split : Ordered lo (
        record b { bytes = wanted; is_free = false }
        ∷ record { addr = new; bytes = rest; is_free = true }
        ∷ bs)
    unfolding new rest
    Ordered-split =
        let (below, pos, al_addr, al_bytes, behind) = o in
        (
          below,
          pos,
          al_addr,
          al,
          (
            omega arith,
            omega arith,
            omega arith,
            omega (arith, room),
            Ordered-weaken _ (block_end b) bs (omega (arith, room)) behind,
          ),
        )

    took_split :
        Replaced m m_large b
          (record b { bytes = wanted; is_free = false }
            ∷ record { addr = new; bytes = rest; is_free = true }
            ∷ bs)
          lo
    took_split = record {
      chain = (
        refl,
        header_used,
        (
          next_used,
          header_rest,
          rw next_rest (
              Chain-frame m m_large (block_end b) (next m b.addr) bs (o.4)
                (λ x l. outside_large x (inr l)) c),
        ),
      );
      ordered = Ordered-split;
      outside = outside_large;
    }

  take_small : small_split ≡ true → take_block wanted b bs ≡ record b { is_free = false } ∷ bs
  unfolding small_split take_block
  take_small small = rw small

  take_large :
      small_split ≡ false
      → take_block wanted b bs
        ≡ record b { bytes = wanted; is_free = false }
          ∷ record {
            addr = b.addr + block_header_size + wanted;
            bytes = b.bytes - wanted - block_header_size;
            is_free = true;
          }
          ∷ bs
  unfolding small_split take_block
  take_large large = rw large

  -- Taking the first block of a chain is `take_block`.
  pub took : Replaced m (set_free (split m b.addr wanted) b.addr 0) b (take_block wanted b bs) lo
  unfolding new rest
  took = elim (Bool-cases small_split) [
    | inl small ↦ rw (m_small-eq small, take_small small) (took_whole small)
    | inr large ↦ rw (m_large-eq large, take_large large) (took_split large)
  ]
