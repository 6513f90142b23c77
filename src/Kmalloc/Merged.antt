-- ===== src/Kmalloc/Merged.antt =====
-- The blocks in use while the pass after `kfree` merges the free ones: none is lost, moved or made, and
-- no two neighbours are left to merge.
use stak_os.Base.{
  ℕ, ◌≡◌, ◌≢◌, inl, inr, refl, true, false, List, [], ◌∷◌, ◌==◌, arith, Bool-cases, ==→ne, ==→eq,
}
use stak_os.Kmalloc.Chain.{
  Block, block_end, Ordered, mergeable, merge, coalesce_from, coalesce_blocks, mark_free,
}
use stak_os.Kmalloc.Live.{Live, footprint, Live-above, Live-tail, Live-cons}

-- Merging.
merge-Live :
    (a n : ℕ) (b c : Block) (cs : List Block)
    → mergeable b c ≡ true
    → Live a n (b ∷ c ∷ cs)
    → Live a n (merge b c ∷ cs)
unfolding mergeable
merge-Live a n b c cs e l =
    inr (Live-tail a n c cs (ground arith) (Live-tail a n b (c ∷ cs) (ground arith) l))

pub coalesce_from-Live :
    (a n : ℕ) (b : Block) (cs : List Block) → Live a n (b ∷ cs) → Live a n (coalesce_from b cs)
unfolding coalesce_from
coalesce_from-Live a n b [] l = l
coalesce_from-Live a n b (c ∷ cs) l = elim (Bool-cases (mergeable b c)) [
  | inl e ↦
      rw (e, coalesce_from) (coalesce_from-Live a n (merge b c) cs (merge-Live a n b c cs e l))
  | inr e ↦
      rw (e, coalesce_from)
        (Live-cons a n b (c ∷ cs) (coalesce_from c cs) (coalesce_from-Live a n c cs) l)
]

footprint-coalesce_from :
    (b : Block) (cs : List Block) → footprint (coalesce_from b cs) ≡ footprint (b ∷ cs)
unfolding coalesce_from footprint
footprint-coalesce_from b [] = refl
footprint-coalesce_from b (c ∷ cs) =
    ground (arith, footprint-coalesce_from (merge b c) cs, footprint-coalesce_from c cs)

-- No two neighbours are left to merge.
abbrev pub Settled : List Block → Type 0
Settled [] = Unit
Settled (b ∷ []) = Unit
Settled (b ∷ c ∷ cs) = (mergeable b c ≡ false) × Settled (c ∷ cs)

-- The head of a merged list starts where it did, and is as free.
Settled-cons :
    (b c : Block) (cs : List Block)
    → mergeable b c ≡ false
    → Settled (coalesce_from c cs)
    → Settled (b ∷ coalesce_from c cs)
unfolding coalesce_from mergeable
Settled-cons b c [] e s = (e, s)
Settled-cons b c (d ∷ cs) e s = elim (Bool-cases (mergeable c d)) [
  | inl m ↦ rw (m, coalesce_from) (Settled-cons b (merge c d) cs e (rw (m, coalesce_from) at s))
  | inr m ↦ rw (m, coalesce_from) (e, rw (m, coalesce_from) at s)
]

pub coalesce_from-Settled : (b : Block) (cs : List Block) → Settled (coalesce_from b cs)
unfolding coalesce_from
coalesce_from-Settled b [] = tt
coalesce_from-Settled b (c ∷ cs) = elim (Bool-cases (mergeable b c)) [
  | inl m ↦ rw (m, coalesce_from) (coalesce_from-Settled (merge b c) cs)
  | inr m ↦ rw (m, coalesce_from) (Settled-cons b c cs m (coalesce_from-Settled c cs))
]

mergeable_free : (b c : Block) → mergeable b c ≡ true → b.is_free ≡ true
unfolding mergeable
mergeable_free b c e = ground arith

-- No block becomes one in use.
pub coalesce_from-Live_only :
    (a n : ℕ) (b : Block) (cs : List Block) → Live a n (coalesce_from b cs) → Live a n (b ∷ cs)
unfolding coalesce_from
coalesce_from-Live_only a n b [] l = l
coalesce_from-Live_only a n b (c ∷ cs) l = elim (Bool-cases (mergeable b c)) [
  | inl e ↦ merged e (coalesce_from-Live_only a n (merge b c) cs (rw (e, coalesce_from) at l))
  | inr e ↦
      Live-cons a n b (coalesce_from c cs) (c ∷ cs) (coalesce_from-Live_only a n c cs)
        (rw (e, coalesce_from) at l)
]
  where
    merged : mergeable b c ≡ true → Live a n (merge b c ∷ cs) → Live a n (b ∷ c ∷ cs)
    merged e k = inr (inr (Live-tail a n (merge b c) cs (mergeable_free b c e) k))

-- Giving back.
pub mark_free-Live : (x a n : ℕ) (bs : List Block) → a ≢ x → Live a n bs → Live a n (mark_free x bs)
unfolding mark_free
mark_free-Live x a n [] ne l = l
mark_free-Live x a n (b ∷ bs) ne l = elim (Bool-cases (b.addr == x)) [
  | inl e ↦ rw e (skip (==→eq b.addr x e) l)
  | inr e ↦ rw e (Live-cons a n b bs (mark_free x bs) (mark_free-Live x a n bs ne) l)
]
  where
    skip : b.addr ≡ x → Live a n (b ∷ bs) → Live a n (record b { is_free = true } ∷ bs)
    skip e (inl (p, _, _)) = absurd (ne (omega arith))
    skip e (inr k) = inr k

pub mark_free-gone : (lo a n : ℕ) (bs : List Block) → Ordered lo bs → ¬ (Live a n (mark_free a bs))
unfolding mark_free
mark_free-gone lo a n [] o l = l
mark_free-gone lo a n (b ∷ bs) o l = elim (Bool-cases (b.addr == a)) [
  | inl e ↦ here (==→eq b.addr a e) (rw e at l)
  | inr e ↦ there (==→ne b.addr a e) (mark_free-gone (block_end b) a n bs (o.4)) (rw e at l)
]
  where
    here : b.addr ≡ a → ¬ (Live a n (record b { is_free = true } ∷ bs))
    here e (inl (_, _, f)) = cc
    here e (inr k) = omega (arith, Live-above (block_end b) a n bs (o.4) k)

    there : b.addr ≢ a → ¬ (Live a n (mark_free a bs)) → ¬ (Live a n (b ∷ mark_free a bs))
    there ne ih (inl (e, _, _)) = ne e
    there ne ih (inr k) = ih k

pub mark_free-Live_only : (x a n : ℕ) (bs : List Block) → Live a n (mark_free x bs) → Live a n bs
unfolding mark_free
mark_free-Live_only x a n [] l = l
mark_free-Live_only x a n (b ∷ bs) l = elim (Bool-cases (b.addr == x)) [
  | inl e ↦ inr (Live-tail a n (record b { is_free = true }) bs refl (rw e at l))
  | inr e ↦ Live-cons a n b (mark_free x bs) bs (mark_free-Live_only x a n bs) (rw e at l)
]

pub footprint-mark_free : (a : ℕ) (bs : List Block) → footprint (mark_free a bs) ≡ footprint bs
unfolding mark_free footprint
footprint-mark_free a [] = refl
footprint-mark_free a (b ∷ bs) = ground (arith, footprint-mark_free a bs)

-- The whole pass.
pub coalesce_blocks-Live : (a n : ℕ) (bs : List Block) → Live a n bs → Live a n (coalesce_blocks bs)
unfolding coalesce_blocks
coalesce_blocks-Live a n [] l = l
coalesce_blocks-Live a n (b ∷ bs) l = coalesce_from-Live a n b bs l

pub coalesce_blocks-Live_only :
    (a n : ℕ) (bs : List Block) → Live a n (coalesce_blocks bs) → Live a n bs
unfolding coalesce_blocks
coalesce_blocks-Live_only a n [] l = l
coalesce_blocks-Live_only a n (b ∷ bs) l = coalesce_from-Live_only a n b bs l

pub coalesce_blocks-Settled : (bs : List Block) → Settled (coalesce_blocks bs)
unfolding coalesce_blocks
coalesce_blocks-Settled [] = tt
coalesce_blocks-Settled (b ∷ bs) = coalesce_from-Settled b bs

pub footprint-coalesce_blocks : (bs : List Block) → footprint (coalesce_blocks bs) ≡ footprint bs
unfolding coalesce_blocks
footprint-coalesce_blocks [] = refl
footprint-coalesce_blocks (b ∷ bs) = footprint-coalesce_from b bs
