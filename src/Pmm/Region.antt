-- ===== src/Pmm/Region.antt =====
-- An entry of the memory map, and the frames that `pmm_init` frees for it.
use stak_os.Base.{
  ℕ, zero, suc, ◌+◌, ◌-◌, ◌*◌, ◌/◌, ◌%◌, ◌≤◌, ◌<◌, ◌≡◌, ◌⊎◌, inl, inr, refl, ◌∙◌, Bool, ◌&&◌, ◌==◌,
  ltb, leb, if◌then◌else◌, length, min, arith, Bool-cases,
}
use stak_os.Base.Words.{u32_mod, add32}
use stak_os.Memory.{Mem, load32, load64}
use stak_os.Pmm.{
  Pmm, page_size, max_frames, bitmap_words, frame_test, frame_clear, free_region, add_entry,
}
use stak_os.Pmm.Bitmap.{frame_test-clear, frame_test-le, length-frame_clear}
use stak_os.Pmm.Alloc.{Differs, count_free, count_free-Differs}

-- The counter runs `slack` ahead of the bitmap, and is at most `most`.
pub record Counted (most : ℕ) (p : Pmm) : Type 0 where
  pub slack : ℕ
  pub words : length p.bitmap ≡ bitmap_words
  pub counted : p.free_frames ≡ count_free p.bitmap max_frames + slack
  pub within : p.free_frames ≤ most

-- `q` is `p` with the frames freed for which `free` holds.
abbrev pub Frees : (ℕ → Bool) → Pmm → Pmm → Type 0
Frees free p q = (g : ℕ) → frame_test q.bitmap g ≡ (if free g then 0 else frame_test p.bitmap g)

pub Counted-weaken : {a b : ℕ} {p : Pmm} → a ≤ b → Counted a p → Counted b p
Counted-weaken l c = record {
  slack = c.slack;
  words = c.words;
  counted = c.counted;
  within = omega (arith, c.within);
}

-- One round of the loop over the frames of a region.
abbrev clear_one : ℕ → Pmm → Pmm
clear_one f p = record {
  bitmap = frame_clear p.bitmap f;
  free_frames = add32 p.free_frames 1;
  total_frames = add32 p.total_frames 1;
}

Counted-clear :
    (most f : ℕ) (p : Pmm)
    → Counted most p
    → f < max_frames
    → most + 1 < u32_mod
    → Counted (most + 1) (clear_one f p) × Differs p.bitmap (clear_one f p).bitmap f 0
Counted-clear most f p c l small =
    let d : Differs p.bitmap (frame_clear p.bitmap f) f 0 =
      λ g. frame_test-clear p.bitmap f g (omega (arith, c.words)) in
    (
      record {
        slack = c.slack + (1 - frame_test p.bitmap f);
        words = length-frame_clear p.bitmap f ∙ c.words;
        counted = omega (
          arith,
          c.counted,
          c.within,
          frame_test-le p.bitmap f,
          count_free-Differs p.bitmap (frame_clear p.bitmap f) f 0 d max_frames l (omega arith),
        );
        within = omega (arith, c.within);
      },
      d,
    )

free_region_lem :
    (n f most : ℕ) (p : Pmm)
    → Counted most p
    → f + n ≤ max_frames ⊎ (n ≡ 0)
    → most + n < u32_mod
    → Counted (most + n) (free_region n f p)
      × Frees (λ g. leb f g && ltb g (f + n)) p (free_region n f p)
unfolding free_region
free_region_lem zero f most p c l small = (Counted-weaken (omega arith) c, λ g. ground arith)
free_region_lem (suc n) f most p c (inr l) small = absurd (omega arith)
free_region_lem (suc n) f most p c (inl l) small =
    let (c1, d) = Counted-clear most f p c (omega arith) (omega arith) in
    let (c2, r) =
      free_region_lem n (f + 1) (most + 1) (clear_one f p) c1 (inl (omega arith)) (omega arith) in
    (Counted-weaken (omega arith) c2, λ g. ground (arith, r g, d g))

-- An entry of the memory map.
pub record Entry : Type 0 where
  pub base : ℕ
  pub len : ℕ
  pub kind : ℕ

-- The entry makes frame `f` available: the frame lies in the region as a whole.
abbrev pub covers : Entry → ℕ → Bool
covers e f =
    e.kind == 1 && (leb e.base (f * page_size) && leb ((f + 1) * page_size) (e.base + e.len))

-- The entry `e` is in memory at `a`.
pub record IsEntry (m : Mem) (a : ℕ) (e : Entry) : Type 0 where
  pub has_base : load64 m a ≡ e.base
  pub has_len : load64 m (a + 8) ≡ e.len
  pub has_kind : load32 m (a + 16) ≡ e.kind
  -- the region ends a page below 2^44, so that the number of its last frame fits 32 bits
  pub in_reach : e.base + e.len + page_size ≤ 0x1000_0000_0000

-- The frames from `frame_start` up to `frame_end` are those that lie in the region.
region_lem :
    (base len most : ℕ) (p : Pmm)
    → base + len + page_size ≤ 0x1000_0000_0000
    → Counted most p
    → most + max_frames < u32_mod
    → let frame_start = (base + page_size - 1) % (u32_mod * u32_mod) / page_size % u32_mod in
      let frame_end = (base + len) % (u32_mod * u32_mod) / page_size % u32_mod in
      let q = free_region (min frame_end max_frames - frame_start) frame_start p in
      Counted (most + max_frames) q
      × ((g : ℕ)
          → g < max_frames
          → frame_test q.bitmap g ≡ (
              if leb base (g * page_size) && leb ((g + 1) * page_size) (base + len)
              then 0
              else frame_test p.bitmap g))
region_lem base len most p reach c small =
    let lo : (base + page_size - 1) % (u32_mod * u32_mod) / page_size % u32_mod
        ≡ (base + 4095) / 4096 =
      omega arith in
    let hi : (base + len) % (u32_mod * u32_mod) / page_size % u32_mod ≡ (base + len) / 4096 =
      omega arith in
    let (c1, r) =
      free_region_lem (min ((base + len) / 4096) max_frames - (base + 4095) / 4096)
        ((base + 4095) / 4096) most p c (ground arith) (ground arith) in
    rw (lo, hi) (Counted-weaken (ground arith) c1, λ g l. r g ∙ ground arith)

pub add_entry_lem :
    (m : Mem) (a most : ℕ) (e : Entry) (p : Pmm)
    → IsEntry m a e
    → Counted most p
    → most + max_frames < u32_mod
    → Counted (most + max_frames) (add_entry m a p)
      × ((g : ℕ)
          → g < max_frames
          → frame_test (add_entry m a p).bitmap g
            ≡ (if covers e g then 0 else frame_test p.bitmap g))
unfolding add_entry
add_entry_lem m a most e p h c small = elim (Bool-cases (e.kind == 1)) [
  | inl k ↦
      rw (h.has_base, h.has_len, h.has_kind, k) (region_lem e.base e.len most p h.in_reach c small)
  | inr k ↦ rw (h.has_kind, k) (Counted-weaken (omega arith) c, λ g l. refl)
]
