-- ===== src/Pmm/Alloc.antt =====
-- What the allocator promises: `pmm_alloc_frame` hands out the lowest free frame,
-- `pmm_free_frame` takes it back, and `free_frames` follows the bitmap.
use stak_os.Base.{
  ℕ, zero, suc, ◌+◌, ◌-◌, ◌*◌, ◌≤◌, ◌<◌, ◌≡◌, refl, ap, ◌∙◌, List, Option, none, some, ◌==◌,
  if◌then◌else◌, arith, length, ne→==,
}
use native.Mathlib.Decide.{ℕ_discrete, dec_lt}
use stak_os.Base.Words.{u32_mod}
use stak_os.Pmm.{Pmm, page_size, max_frames, bitmap_words, frame_test, find_frame, pmm_alloc_frame}
use stak_os.Pmm.Bitmap.{frame_test-set, frame_test-le, length-frame_set}
use stak_os.Pmm.Scan.{FirstFree, find_frame-FirstFree}

-- The number of free frames below `n`.
unfoldable pub count_free : List ℕ → ℕ → ℕ
count_free bitmap zero = 0
count_free bitmap (suc n) = count_free bitmap n + (1 - frame_test bitmap n)

-- `k` is by how much `free_frames` runs ahead of the bitmap.
pub record IsValid (k : ℕ) (p : Pmm) : Type 0 where
  pub words : length p.bitmap ≡ bitmap_words
  pub counted : p.free_frames ≡ count_free p.bitmap max_frames + k
  pub room : k + max_frames + 1 < u32_mod

-- The bitmap `new` is `old` but for frame `f`, whose bit is `b`.
abbrev pub Differs : List ℕ → List ℕ → ℕ → ℕ → Type 0
Differs old new f b = (g : ℕ) → frame_test new g ≡ (if f == g then b else frame_test old g)

pub count_free-le : (bitmap : List ℕ) (n : ℕ) → count_free bitmap n ≤ n
unfolding count_free
count_free-le bitmap zero = omega arith
count_free-le bitmap (suc n) = omega (arith, count_free-le bitmap n)

pub count_free-none :
    (bitmap : List ℕ) (n : ℕ)
    → ((g : ℕ) → g < n → frame_test bitmap g ≡ 1)
    → count_free bitmap n ≡ 0
unfolding count_free
count_free-none bitmap zero h = refl
count_free-none bitmap (suc n) h =
    omega (arith, h n (omega arith), count_free-none bitmap n (λ g l. h g (omega arith)))

pub count_free-pos :
    (bitmap : List ℕ) (n f : ℕ) → f < n → frame_test bitmap f ≡ 0 → 0 < count_free bitmap n
unfolding count_free
count_free-pos bitmap zero f l h = absurd (omega arith)
count_free-pos bitmap (suc n) f l h = elim (ℕ_discrete f n) [
  | yes e ↦ omega (arith, ap (λ (g : ℕ). frame_test bitmap g) e)
  | no ne ↦ omega (arith, count_free-pos bitmap n f (omega arith) h)
]

module _ (old new : List ℕ) (f b : ℕ) (h : Differs old new f b) where
  count_free-outside : (n : ℕ) → n ≤ f → count_free new n ≡ count_free old n
  unfolding count_free
  count_free-outside zero l = refl
  count_free-outside (suc n) l = ground (arith, h n, count_free-outside n (omega arith))

  pub count_free-Differs :
      (n : ℕ) → f < n → b ≤ 1 → count_free new n + b ≡ count_free old n + frame_test old f
  unfolding count_free
  count_free-Differs zero l le = absurd (omega arith)
  count_free-Differs (suc n) l le = elim (ℕ_discrete f n) [
    | yes e ↦ ground (arith, h n, count_free-outside n (omega arith), frame_test-le old n)
    | no ne ↦ ground (arith, h n, count_free-Differs n (omega arith) le, ne→== f n ne)
  ]

-- The two answers of `pmm_alloc_frame`.
abbrev pub Allocates : Pmm → Option ℕ → Type 0
Allocates p none = pmm_alloc_frame p ≡ (0, p)
Allocates p (some f) =
    let (a, p') = pmm_alloc_frame p in
    (a ≡ f * page_size)
    × Differs p.bitmap p'.bitmap f 1
    × (p'.free_frames + 1 ≡ p.free_frames)
    × (length p'.bitmap ≡ bitmap_words)

module _ {k : ℕ} {p : Pmm} (v : IsValid k p) where
  free_frames-pos : (f : ℕ) → FirstFree p.bitmap 0 max_frames (some f) → 0 < p.free_frames
  free_frames-pos f (_, l, h, _) =
      omega (arith, v.counted, count_free-pos p.bitmap max_frames f l h)

  alloc-cases :
      (o : Option ℕ)
      → find_frame p.bitmap bitmap_words 0 ≡ o
      → FirstFree p.bitmap 0 max_frames o
      → Allocates p o
  unfolding pmm_alloc_frame
  alloc-cases none e h = rw e (ground arith)
  alloc-cases (some f) e h =
      rw (e, ne→== p.free_frames 0 (omega (arith, free_frames-pos f h)))
        (
          omega (arith, h),
          λ g. frame_test-set p.bitmap f g (omega (arith, h, v.words)),
          omega (arith, free_frames-pos f h, v.counted, v.room, count_free-le p.bitmap max_frames),
          length-frame_set p.bitmap f ∙ v.words,
        )

  -- The answer is that of a search for the lowest free frame.
  pub alloc_result : (o : Option ℕ) × FirstFree p.bitmap 0 max_frames o × Allocates p o
  alloc_result =
      let found = find_frame-FirstFree p.bitmap bitmap_words 0 in
      (
        find_frame p.bitmap bitmap_words 0,
        found,
        alloc-cases (find_frame p.bitmap bitmap_words 0) refl found,
      )

  -- With a valid counter and some frame free, the allocator returns the address of the lowest free frame, marks
  -- it and no other frame as used, and takes one from the counter.
  pub alloc-lowest :
      (g : ℕ)
      → g < max_frames
      → frame_test p.bitmap g ≡ 0
      → (f : ℕ) × (f ≤ g)
        × (frame_test p.bitmap f ≡ 0)
        × ((e : ℕ) → e < f → frame_test p.bitmap e ≡ 1)
        × Allocates p (some f)
  alloc-lowest g l h = go (alloc_result.0) (alloc_result.1) (alloc_result.2)
    where
      go :
          (o : Option ℕ)
          → FirstFree p.bitmap 0 max_frames o
          → Allocates p o
          → (f : ℕ) × (f ≤ g)
            × (frame_test p.bitmap f ≡ 0)
            × ((e : ℕ) → e < f → frame_test p.bitmap e ≡ 1)
            × Allocates p (some f)
      go none all a = absurd (omega (arith, all g (omega arith) l))
      go (some f) (_, lt, free, below) a = (
        f,
        elim (dec_lt g f) [
          | yes b ↦ absurd (omega (arith, below g (omega arith) b))
          | no b ↦ omega arith
        ],
        free,
        λ e m. below e (omega arith) m,
        a,
      )

  -- With a valid counter and no free frame the allocator fails and changes nothing.
  pub alloc-exhausted :
      ((g : ℕ) → g < max_frames → frame_test p.bitmap g ≡ 1) → pmm_alloc_frame p ≡ (0, p)
  alloc-exhausted all = go (alloc_result.0) (alloc_result.1) (alloc_result.2)
    where
      go :
          (o : Option ℕ)
          → FirstFree p.bitmap 0 max_frames o
          → Allocates p o
          → pmm_alloc_frame p ≡ (0, p)
      go none _ a = a
      go (some f) (_, lt, free, below) a = absurd (omega (arith, all f lt))

  -- Allocation keeps the invariant that the counter is the number of free frames plus `k`.
  pub alloc-IsValid : IsValid k (pmm_alloc_frame p).1
  alloc-IsValid = go (alloc_result.0) (alloc_result.1) (alloc_result.2)
    where
      go :
          (o : Option ℕ)
          → FirstFree p.bitmap 0 max_frames o
          → Allocates p o
          → IsValid k (pmm_alloc_frame p).1
      go none _ a = rw a v
      go (some f) (_, lt, free, below) (_, d, c, w) = record {
        words = w;
        counted = omega (
          arith,
          v.counted,
          c,
          count_free-Differs p.bitmap (pmm_alloc_frame p).1.bitmap f 1 d max_frames lt
              (omega arith),
        );
        room = v.room;
      }
