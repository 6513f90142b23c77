-- ===== src/Kmalloc/Search.antt =====
-- The first-fit loop does on memory what `alloc_blocks` does on the list.
use stak_os.Base.{
  ℕ, zero, suc, ◌+◌, ◌%◌, ◌≤◌, ◌<◌, ◌≡◌, ◌⊎◌, inl, inr, refl, Bool, true, false, not, ◌&&◌, Option,
  some, List, [], ◌∷◌, ◌==◌, leb, arith, length, Bool-cases, ne→==, ap, ap₂,
}
use stak_os.Base.Words.{add32}
use stak_os.Memory.{Mem}
use stak_os.Memory.Writes.{load32-SameBelow}
use stak_os.Kmalloc.{block_header_size, size, free, next, split, search, set_free}
use stak_os.Kmalloc.Chain.{
  Block, flag, block_end, HasHeader, HasHeader-same, Chain, Ordered, Ordered-le, take_block,
  alloc_ptr, alloc_blocks,
}
use stak_os.Kmalloc.Split.{took}

-- Byte `x` lies in no free block.
abbrev pub OutsideFree : ℕ → List Block → Type 0
OutsideFree x [] = Unit
OutsideFree x (b ∷ bs) =
    ((b.is_free ≡ false) ⊎ ((x < b.addr) ⊎ (block_end b ≤ x))) × OutsideFree x bs

pub outside_of_free :
    (x : ℕ) (b : Block)
    → b.is_free ≡ true
    → (b.is_free ≡ false) ⊎ ((x < b.addr) ⊎ (block_end b ≤ x))
    → (x < b.addr) ⊎ (block_end b ≤ x)
outside_of_free x b f (inl used) = cc
outside_of_free x b f (inr out) = out

-- Memory outside the free blocks is the same.
abbrev pub KeepsUsed : List Block → Mem → Mem → Type 0
KeepsUsed bs m m' = (x : ℕ) → OutsideFree x bs → m' x ≡ m x

pub OutsideFree-below : (lo x : ℕ) (bs : List Block) → Ordered lo bs → x < lo → OutsideFree x bs
OutsideFree-below lo x [] o l = tt
OutsideFree-below lo x (b ∷ bs) (a, _, _, _, o) l =
    (inr (inl (omega arith)), OutsideFree-below (block_end b) x bs o (omega arith))

-- What a call of `search` on the chain `bs` gives.
pub record Found (wanted : ℕ) (m : Mem) (cur : ℕ) (bs : List Block) (lo : ℕ) (r : Option (ℕ × Mem))
    : Type 0 where
  pub after : Mem
  pub result : r ≡ some (alloc_ptr wanted bs, after)
  pub chain : Chain after cur (alloc_blocks wanted bs)
  pub ordered : Ordered lo (alloc_blocks wanted bs)
  pub keeps : KeepsUsed bs m after

fits_test : Block → ℕ → Bool
fits_test b wanted = b.is_free && leb wanted b.bytes

fits_free : (b : Block) (wanted : ℕ) → fits_test b wanted ≡ true → wanted ≤ b.bytes
unfolding fits_test
fits_free b wanted fits = ground arith

fits_is_free : (b : Block) (wanted : ℕ) → fits_test b wanted ≡ true → b.is_free ≡ true
unfolding fits_test
fits_is_free b wanted fits = ground arith

pub free_test : (f : Bool) (w : ℕ) → w ≡ flag f → not (w == 0) ≡ f
free_test true w e = ground arith
free_test false w e = ground arith

module _ (wanted : ℕ) (m : Mem) (b : Block) (h : HasHeader m b) (pos : 0 < b.addr) where
  memory_test : (not (free m b.addr == 0) && leb wanted (size m b.addr)) ≡ fits_test b wanted
  unfolding fits_test
  memory_test =
      ap₂ ◌&&◌ (free_test b.is_free (free m b.addr) h.has_free) (ap (leb wanted) h.has_size)

  search_fit :
      (fuel : ℕ)
      → fits_test b wanted ≡ true
      → search (suc fuel) m b.addr wanted
        ≡ some (add32 b.addr block_header_size, set_free (split m b.addr wanted) b.addr 0)
  unfolding search
  search_fit fuel fits = rw (ne→== b.addr 0 (omega arith), memory_test, fits)

  search_skip :
      (fuel : ℕ)
      → fits_test b wanted ≡ false
      → search (suc fuel) m b.addr wanted ≡ search fuel m (next m b.addr) wanted
  unfolding search
  search_skip fuel skip = rw (ne→== b.addr 0 (omega arith), memory_test, skip)

module _ (wanted : ℕ) (b : Block) (bs : List Block) where
  blocks_fit : fits_test b wanted ≡ true → alloc_blocks wanted (b ∷ bs) ≡ take_block wanted b bs
  unfolding fits_test alloc_blocks
  blocks_fit fits = rw fits

  ptr_fit : fits_test b wanted ≡ true → alloc_ptr wanted (b ∷ bs) ≡ b.addr + block_header_size
  unfolding fits_test alloc_ptr
  ptr_fit fits = rw fits

  blocks_skip :
      fits_test b wanted ≡ false → alloc_blocks wanted (b ∷ bs) ≡ b ∷ alloc_blocks wanted bs
  unfolding fits_test alloc_blocks
  blocks_skip skip = rw skip

  ptr_skip : fits_test b wanted ≡ false → alloc_ptr wanted (b ∷ bs) ≡ alloc_ptr wanted bs
  unfolding fits_test alloc_ptr
  ptr_skip skip = rw skip

Found-fit :
    (wanted : ℕ) (b : Block) (bs : List Block) (fuel : ℕ) (m : Mem) (lo : ℕ)
    → wanted % 4 ≡ 0
    → HasHeader m b
    → Chain m (next m b.addr) bs
    → Ordered lo (b ∷ bs)
    → fits_test b wanted ≡ true
    → Found wanted m b.addr (b ∷ bs) lo (search (suc fuel) m b.addr wanted)
Found-fit wanted b bs fuel m lo al h c o fits =
    let t = took m b wanted bs lo h c o (fits_free b wanted fits) al in
    record {
      after = set_free (split m b.addr wanted) b.addr 0;
      result =
          rw (search_fit wanted m b h (o.1) fuel fits, ptr_fit wanted b bs fits)
            (ap (λ a. some (a, set_free (split m b.addr wanted) b.addr 0))
              (omega (arith, Ordered-le (block_end b) bs (o.4))));
      chain = rw (blocks_fit wanted b bs fits) t.chain;
      ordered = rw (blocks_fit wanted b bs fits) t.ordered;
      keeps = λ x out. t.outside x (outside_of_free x b (fits_is_free b wanted fits) (out.0));
    }

Found-skip :
    (wanted : ℕ) (b : Block) (bs : List Block) (fuel : ℕ) (m : Mem) (lo : ℕ)
    → HasHeader m b
    → Ordered lo (b ∷ bs)
    → fits_test b wanted ≡ false
    → Found wanted m (next m b.addr) bs (block_end b) (search fuel m (next m b.addr) wanted)
    → Found wanted m b.addr (b ∷ bs) lo (search (suc fuel) m b.addr wanted)
Found-skip wanted b bs fuel m lo h o skip r =
    let below =
      (λ (x : ℕ) (l : x < block_end b). r.keeps x (OutsideFree-below (block_end b) x bs (o.4) l)) in
    record {
      after = r.after;
      result = rw (search_skip wanted m b h (o.1) fuel skip, ptr_skip wanted b bs skip) r.result;
      chain = rw (blocks_skip wanted b bs skip) (
        refl,
        HasHeader-same m r.after b (inr λ x l. below x (omega arith)) h,
        rw (load32-SameBelow m r.after (block_end b) (b.addr + 12) below (omega arith)) r.chain,
      );
      ordered = rw (blocks_skip wanted b bs skip) (o.0, o.1, o.2, o.3, r.ordered);
      keeps = λ x out. r.keeps x (out.1);
    }

pub search-Found :
    (wanted : ℕ) (bs : List Block) (fuel : ℕ) (m : Mem) (cur lo : ℕ)
    → wanted % 4 ≡ 0
    → Chain m cur bs
    → Ordered lo bs
    → length bs < fuel
    → Found wanted m cur bs lo (search fuel m cur wanted)
unfolding search alloc_ptr alloc_blocks
search-Found wanted bs zero m cur lo al c o l = absurd (omega arith)
search-Found wanted [] (suc fuel) m cur lo al c o l = record {
  after = m;
  result = rw c;
  chain = c;
  ordered = o;
  keeps = λ x h. refl;
}
search-Found wanted (b ∷ bs) (suc fuel) m cur lo al (e, h, c) o l =
    rw e (elim (Bool-cases (fits_test b wanted)) [
      | inl fits ↦ Found-fit wanted b bs fuel m lo al h c o fits
      | inr skip ↦
          Found-skip wanted b bs fuel m lo h o skip
            (search-Found wanted bs fuel m (next m b.addr) (block_end b) al c (o.4) (omega arith))
    ])
