-- ===== src/Kmalloc/Coalesce.antt =====
-- The merging pass does on memory what `coalesce_from` does on the list.
use stak_os.Base.{
  ℕ, zero, suc, ◌+◌, ◌%◌, ◌≤◌, ◌<◌, ◌≡◌, ◌⊎◌, inl, inr, refl, ◌∙◌, true, false, not, ◌&&◌, Option,
  some, List, [], ◌∷◌, ◌==◌, arith, length, Bool-cases, ne→==, ap, ap₂,
}
use stak_os.Base.Words.{add32}
use stak_os.Memory.{Mem, load32, load32-lt, load32-store32_ne}
use stak_os.Memory.Writes.{load32-SameBelow, writes, word_after, load32-writes, writes-Spares}
use stak_os.Kmalloc.{block_header_size, size, free, next, coalesce_loop, set_size}
use stak_os.Kmalloc.Chain.{
  Block, ram_end, block_end, HasHeader, HasHeader-same, Chain, Chain-frame, Ordered, Ordered-le,
  Ordered-weaken, mergeable, merge, coalesce_from,
}
use stak_os.Kmalloc.Search.{OutsideFree, KeepsUsed, OutsideFree-below, outside_of_free, free_test}

pub record Merged (m : Mem) (b : Block) (cs : List Block) (lo : ℕ) (r : Option Mem) : Type 0 where
  pub after : Mem
  pub result : r ≡ some after
  pub chain : Chain after b.addr (coalesce_from b cs)
  pub ordered : Ordered lo (coalesce_from b cs)
  pub keeps : KeepsUsed (b ∷ cs) m after

module _ (m : Mem) (b c : Block) (cs : List Block) (lo : ℕ) (chain : Chain m b.addr (b ∷ c ∷ cs))
    (o : Ordered lo (b ∷ c ∷ cs)) where
  nxt_eq : next m b.addr ≡ c.addr
  nxt_eq = chain.2.0

  merge_test :
      (not (free m b.addr == 0)
        && (not (free m c.addr == 0)
            && c.addr == add32 b.addr (add32 block_header_size (size m b.addr))))
      ≡ mergeable b c
  unfolding mergeable
  merge_test = ap₂ ◌&&◌ (free_test b.is_free (free m b.addr) chain.1.has_free) (
      ap₂ ◌&&◌ (free_test c.is_free (free m c.addr) chain.2.1.has_free) (
        ap (λ e. c.addr == e)
          (omega (arith, chain.1.has_size, o, Ordered-le (block_end c) cs (o.4.4)))))

  grown : ℕ
  grown = b.bytes + (block_header_size + c.bytes)

  in_ram : block_end c ≤ ram_end
  in_ram = Ordered-le (block_end c) cs (o.4.4)

  merge_writes : List (ℕ × ℕ)
  merge_writes = (b.addr + 4, grown) ∷ (b.addr + 12, next m c.addr) ∷ []

  m_merged : Mem
  m_merged = writes m merge_writes

  coalesce_merge :
      (fuel : ℕ)
      → mergeable b c ≡ true
      → coalesce_loop (suc fuel) m b.addr ≡ coalesce_loop fuel m_merged b.addr
  unfolding coalesce_loop m_merged merge_writes grown
  coalesce_merge fuel yes' = rw (
    nxt_eq,
    ne→== b.addr 0 (omega (arith, o)),
    ne→== c.addr 0 (omega (arith, o)),
    merge_test,
    yes',
    sum_eq,
    next_cur,
    next_nxt,
  )
    where
      sum_eq : add32 (size m b.addr) (add32 block_header_size (size m c.addr)) ≡ grown
      sum_eq = omega (arith, chain.1.has_size, chain.2.1.has_size, o, in_ram)

      next_cur : next (set_size m b.addr grown) b.addr ≡ c.addr
      next_cur = load32-store32_ne m (b.addr + 4) (b.addr + 12) grown (omega arith) ∙ nxt_eq

      next_nxt : next (set_size m b.addr grown) c.addr ≡ next m c.addr
      next_nxt = load32-store32_ne m (b.addr + 4) (c.addr + 12) grown (omega (arith, o))

  coalesce_skip :
      (fuel : ℕ)
      → mergeable b c ≡ false
      → coalesce_loop (suc fuel) m b.addr ≡ coalesce_loop fuel m c.addr
  unfolding coalesce_loop
  coalesce_skip fuel no' =
      rw
        (
          nxt_eq,
          ne→== b.addr 0 (omega (arith, o)),
          ne→== c.addr 0 (omega (arith, o)),
          merge_test,
          no',
        )
        refl

  word :
      (a : ℕ)
      → a % 4 ≡ 0
      → load32 m_merged a
        ≡ word_after a (load32 m a) ((b.addr + 4, grown) ∷ (b.addr + 12, next m c.addr) ∷ [])
  unfolding m_merged merge_writes
  word a q = load32-writes merge_writes m a (omega (arith, o)) q

  outside : (x : ℕ) → (x < b.addr) ⊎ (b.addr + block_header_size ≤ x) → m_merged x ≡ m x
  unfolding m_merged merge_writes
  outside x out = writes-Spares merge_writes m x (ground arith)

  module _ (adjacent : mergeable b c ≡ true) where
    touching : (b.is_free ≡ true) × (c.is_free ≡ true) × (c.addr ≡ block_end b)
    unfolding mergeable
    touching = ground arith

    header_merged : HasHeader m_merged (merge b c)
    unfolding grown
    header_merged = record {
      is_magic = ground (arith, word b.addr, o, chain.1.is_magic);
      has_size = ground (arith, word (b.addr + 4), o, in_ram);
      has_free = ground (arith, word (b.addr + 8), o, chain.1.has_free);
    }

    Chain-merged : Chain m_merged b.addr (merge b c ∷ cs)
    Chain-merged = (
      refl,
      header_merged,
      rw next_merged (
          Chain-frame m m_merged (block_end c) (next m c.addr) cs (o.4.4)
            (λ x l. outside x (inr (omega (arith, o)))) (chain.2.2)),
    )
      where
        next_merged : next m_merged b.addr ≡ next m c.addr
        next_merged = ground (arith, word (b.addr + 12), o, load32-lt m (c.addr + 12))

    Ordered-merged : Ordered lo (merge b c ∷ cs)
    Ordered-merged = (
      o.0,
      o.1,
      o.2,
      omega (arith, o),
      Ordered-weaken (b.addr + block_header_size + (b.bytes + (block_header_size + c.bytes)))
          (block_end c) cs (omega (arith, touching)) (o.4.4),
    )

    outside_merged :
        (x : ℕ) → OutsideFree x (b ∷ c ∷ cs) → OutsideFree x (merge b c ∷ cs) × (m_merged x ≡ m x)
    outside_merged x (p, (q, r)) =
        let p' = outside_of_free x b (touching.0) p in
        let q' = outside_of_free x c (touching.1) q in
        ((inr (apart p' q'), r), outside x (header_apart p'))
      where
        apart :
            (x < b.addr) ⊎ (block_end b ≤ x)
            → (x < c.addr) ⊎ (block_end c ≤ x)
            → (x < b.addr)
              ⊎ (b.addr + block_header_size + (b.bytes + (block_header_size + c.bytes)) ≤ x)
        apart (inl l) k = inl l
        apart (inr l) (inl k) = absurd (omega (arith, touching))
        apart (inr l) (inr k) = inr (omega (arith, touching))

        header_apart :
            (x < b.addr) ⊎ (block_end b ≤ x) → (x < b.addr) ⊎ (b.addr + block_header_size ≤ x)
        header_apart (inl l) = inl l
        header_apart (inr l) = inr (omega arith)

coalesce_from-merge :
    (b c : Block) (cs : List Block)
    → mergeable b c ≡ true
    → coalesce_from b (c ∷ cs) ≡ coalesce_from (merge b c) cs
unfolding coalesce_from
coalesce_from-merge b c cs e = rw (e, coalesce_from)

coalesce_from_skip :
    (b c : Block) (cs : List Block)
    → mergeable b c ≡ false
    → coalesce_from b (c ∷ cs) ≡ b ∷ coalesce_from c cs
unfolding coalesce_from
coalesce_from_skip b c cs e = rw (e, coalesce_from)

module _ (m : Mem) (b c : Block) (cs : List Block) (lo : ℕ) (chain : Chain m b.addr (b ∷ c ∷ cs))
    (o : Ordered lo (b ∷ c ∷ cs)) (fuel : ℕ) where
  Merged-merge :
      mergeable b c ≡ true
      → Merged
          (m_merged m b c cs lo chain o)
          (merge b c)
          cs
          lo
          (coalesce_loop fuel (m_merged m b c cs lo chain o) b.addr)
      → Merged m b (c ∷ cs) lo (coalesce_loop (suc fuel) m b.addr)
  Merged-merge adjacent r = record {
    after = r.after;
    result = coalesce_merge m b c cs lo chain o fuel adjacent ∙ r.result;
    chain = rw (coalesce_from-merge b c cs adjacent) r.chain;
    ordered = rw (coalesce_from-merge b c cs adjacent) r.ordered;
    keeps = λ x out.
        let (out', same) = outside_merged m b c cs lo chain o adjacent x out in
        r.keeps x out' ∙ same;
  }

  Merged-skip :
      mergeable b c ≡ false
      → Merged m c cs (block_end b) (coalesce_loop fuel m c.addr)
      → Merged m b (c ∷ cs) lo (coalesce_loop (suc fuel) m b.addr)
  Merged-skip apart r =
      let below = (λ (x : ℕ) (l : x < block_end b).
        r.keeps x (OutsideFree-below (block_end b) x (c ∷ cs) (o.4) l)) in
      record {
        after = r.after;
        result = coalesce_skip m b c cs lo chain o fuel apart ∙ r.result;
        chain = rw (coalesce_from_skip b c cs apart) (
          refl,
          HasHeader-same m r.after b (inr λ x l. below x (omega arith)) (chain.1),
          rw (load32-SameBelow m r.after (block_end b) (b.addr + 12) below (omega arith), chain.2.0)
              r.chain,
        );
        ordered = rw (coalesce_from_skip b c cs apart) (o.0, o.1, o.2, o.3, r.ordered);
        keeps = λ x out. r.keeps x (out.1);
      }

coalesce_last :
    (m : Mem) (b : Block) (fuel : ℕ)
    → 0 < b.addr
    → next m b.addr ≡ 0
    → coalesce_loop (suc fuel) m b.addr ≡ some m
unfolding coalesce_loop
coalesce_last m b fuel pos e = rw (ne→== b.addr 0 (omega arith), e)

pub coalesce-Merged :
    (cs : List Block) (m : Mem) (b : Block) (fuel lo : ℕ)
    → Chain m b.addr (b ∷ cs)
    → Ordered lo (b ∷ cs)
    → length cs < fuel
    → Merged m b cs lo (coalesce_loop fuel m b.addr)
coalesce-Merged cs m b zero lo chain o l = absurd (omega arith)
coalesce-Merged [] m b (suc fuel) lo chain o l =
    unfold coalesce_from in
    record {
      after = m;
      result = coalesce_last m b fuel (o.1) (chain.2);
      chain = (refl, chain.1, chain.2);
      ordered = o;
      keeps = λ x out. refl;
    }
coalesce-Merged (c ∷ cs) m b (suc fuel) lo chain o l = elim (Bool-cases (mergeable b c)) [
  | inl adjacent ↦ Merged-merge m b c cs lo chain o fuel adjacent (
      coalesce-Merged cs (m_merged m b c cs lo chain o) (merge b c) fuel lo
        (Chain-merged m b c cs lo chain o adjacent) (Ordered-merged m b c cs lo chain o adjacent)
        (omega arith))
  | inr apart ↦
      Merged-skip m b c cs lo chain o fuel apart
        (coalesce-Merged cs m c fuel (block_end b) (refl, chain.2.1, chain.2.2) (o.4) (omega arith))
]
