-- ===== src/Pmm/Free.antt =====
-- `pmm_free_frame`: the double-free guard, the counter, and the way back from an allocation.
use stak_os.Base.{
  ℕ, ◌+◌, ◌*◌, ◌/◌, ◌≤◌, ◌<◌, ◌≡◌, ◌⊎◌, ap, ◌∙◌, inl, inr, ◌==◌, arith, length, Bool-cases, ==→eq,
  ==→ne, le→leb, lt→leb,
}
use native.Mathlib.Decide.{dec_lt}
use stak_os.Pmm.{
  Pmm, page_size, max_frames, bitmap_words, frame_test, pmm_alloc_frame, pmm_free_frame,
}
use stak_os.Pmm.Bitmap.{frame_test-clear, frame_test-le, length-frame_clear}
use stak_os.Pmm.Alloc.{
  IsValid, Differs, count_free-Differs, count_free-le, alloc-lowest, alloc-IsValid,
}

-- `q` is `p` with the used frame `f` given back.
pub record Freed (p q : Pmm) (f : ℕ) : Type 0 where
  pub in_range : f < max_frames
  pub was_used : frame_test p.bitmap f ≡ 1
  pub cleared : Differs p.bitmap q.bitmap f 0
  pub counter : q.free_frames ≡ p.free_frames + 1
  pub words : length q.bitmap ≡ bitmap_words

module _ {k : ℕ} {p : Pmm} (v : IsValid k p) where
  -- `pmm_free_frame` ignores an address beyond the bitmap and a frame that is free already (the
  -- double-free guard); any other frame it marks free, and no other frame changes.
  pub free-cases :
      (addr : ℕ)
      → ((max_frames ≤ addr / page_size) × (pmm_free_frame p addr ≡ p))
        ⊎ (((frame_test p.bitmap (addr / page_size) ≡ 0) × (pmm_free_frame p addr ≡ p))
            ⊎ Freed p (pmm_free_frame p addr) (addr / page_size))
  unfolding pmm_free_frame
  free-cases addr = elim (dec_lt (addr / page_size) max_frames) [
    | no out ↦ inl (omega arith, rw (le→leb max_frames (addr / page_size) (omega arith)))
    | yes within ↦ elim (Bool-cases (frame_test p.bitmap (addr / page_size) == 0)) [
      | inl free ↦ inr (
          inl (
            ==→eq (frame_test p.bitmap (addr / page_size)) 0 free,
            rw (lt→leb max_frames (addr / page_size) within, free),
          ))
      | inr used ↦ inr (
          inr (
            rw (lt→leb max_frames (addr / page_size) within, used)
              (record {
                in_range = within;
                was_used = omega (
                  arith,
                  ==→ne (frame_test p.bitmap (addr / page_size)) 0 used,
                  frame_test-le p.bitmap (addr / page_size),
                );
                cleared =
                    λ g. frame_test-clear p.bitmap (addr / page_size) g (omega (arith, v.words));
                counter = omega (arith, v.counted, v.room, count_free-le p.bitmap max_frames);
                words = length-frame_clear p.bitmap (addr / page_size) ∙ v.words;
              })))
    ]
  ]

  -- Freeing any address keeps the invariant that the counter is the number of free frames plus `k`.
  pub free-IsValid : (addr : ℕ) → IsValid k (pmm_free_frame p addr)
  free-IsValid addr = elim (free-cases addr) [
    | inl (_, e) ↦ rw e v
    | inr (inl (_, e)) ↦ rw e v
    | inr (inr r) ↦ record {
      words = r.words;
      counted = omega (
        arith,
        v.counted,
        r.counter,
        r.was_used,
        count_free-Differs p.bitmap (pmm_free_frame p addr).bitmap (addr / page_size) 0 r.cleared
            max_frames r.in_range (omega arith),
      );
      room = v.room;
    }
  ]

module _ {k : ℕ} {p : Pmm} (v : IsValid k p) where
  pub free-clears :
      (addr : ℕ)
      → addr / page_size < max_frames
      → frame_test (pmm_free_frame p addr).bitmap (addr / page_size) ≡ 0
  free-clears addr l = elim (free-cases v addr) [
    | inl (out, _) ↦ absurd (omega (arith, out, l))
    | inr (inl (free, e)) ↦ rw e free
    | inr (inr r) ↦ ground (arith, r.cleared (addr / page_size))
  ]

  -- A free frame stays free.
  pub free-keeps :
      (addr e : ℕ) → frame_test p.bitmap e ≡ 0 → frame_test (pmm_free_frame p addr).bitmap e ≡ 0
  free-keeps addr e free = elim (free-cases v addr) [
    | inl (_, same) ↦ rw same free
    | inr (inl (_, same)) ↦ rw same free
    | inr (inr r) ↦ ground (arith, r.cleared e, free)
  ]

module _ {k : ℕ} {p : Pmm} (v : IsValid k p) where
  free_after :
      (f addr : ℕ) (p' : Pmm)
      → f < max_frames
      → frame_test p.bitmap f ≡ 0
      → IsValid k p'
      → addr ≡ f * page_size
      → Differs p.bitmap p'.bitmap f 1
      → p'.free_frames + 1 ≡ p.free_frames
      → ((e : ℕ) → frame_test (pmm_free_frame p' addr).bitmap e ≡ frame_test p.bitmap e)
        × ((pmm_free_frame p' addr).free_frames ≡ p.free_frames)
  free_after f addr p' l free v' at d c =
      let frame : addr / page_size ≡ f = omega arith in
      let marked : frame_test p'.bitmap f ≡ 1 = ground (arith, d f) in
      elim (free-cases v' addr) [
        | inl (out, _) ↦ absurd (omega arith)
        | inr (inl (unused, _)) ↦
            absurd (omega (arith, ap (λ (g : ℕ). frame_test p'.bitmap g) frame))
        | inr (inr r) ↦ (λ e. ground (arith, r.cleared e, d e), omega (arith, r.counter))
      ]

  -- With a valid counter and some frame free, freeing the frame that an allocation has just handed out gives back every bit of the bitmap
  -- and the counter.
  pub free-alloc :
      (g : ℕ)
      → g < max_frames
      → frame_test p.bitmap g ≡ 0
      → let (a, p') = pmm_alloc_frame p in
        ((e : ℕ) → frame_test (pmm_free_frame p' a).bitmap e ≡ frame_test p.bitmap e)
        × ((pmm_free_frame p' a).free_frames ≡ p.free_frames)
  free-alloc g l h =
      let (f, le, free, below, r) = alloc-lowest v g l h in
      free_after f (pmm_alloc_frame p).0 (pmm_alloc_frame p).1 (omega arith) free (alloc-IsValid v)
        r.0 r.1 r.2
