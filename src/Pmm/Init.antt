-- ===== src/Pmm/Init.antt =====
-- `pmm_init`: which frames are free at the start.
use stak_os.Base.{
  ℕ, zero, suc, ◌+◌, ◌-◌, ◌*◌, ◌/◌, ◌%◌, ◌≤◌, ◌<◌, ◌≡◌, inl, inr, refl, sym, ap, ◌∙◌, Bool, not,
  ◌&&◌, ◌||◌, some, List, ◌==◌, ltb, leb, if◌then◌else◌, arith, min, Bool-cases, ==→eq, ==→ne,
  replicate, length-replicate, get_or-replicate,
}
use stak_os.Base.Words.{u32_mod, add32}
use stak_os.Base.Words.Bits.{test_bit, test_bit-not32, test_bit-zero}
use stak_os.Memory.{Mem}
use stak_os.Pmm.{
  Pmm, page_size, max_frames, bitmap_words, frame_test, frame_set, reserve, reserve_from, pmm_init,
}
use stak_os.Pmm.Bitmap.{frame_test_lem, frame_test-set, frame_test-le, length-frame_set}
use stak_os.Pmm.Alloc.{IsValid, Differs, count_free-Differs, count_free-none}
use stak_os.Pmm.Region.{Counted}
use stak_os.Pmm.Map.{Tag, AreTags, available, items, walk_tags_lem}

-- `q` is `p` with the frames in use for which `taken` holds.
abbrev Reserves : (ℕ → Bool) → Pmm → Pmm → Type 0
Reserves taken p q =
    (g : ℕ) → frame_test q.bitmap g ≡ (if taken g then 1 else frame_test p.bitmap g)

reserve_lem :
    (most f : ℕ) (p : Pmm)
    → f < max_frames
    → most < u32_mod
    → Counted most p
    → Counted most (reserve f p) × Reserves (λ g. f == g) p (reserve f p)
unfolding reserve
reserve_lem most f p l small c =
    let d : Differs p.bitmap (frame_set p.bitmap f) f 1 =
      λ g. frame_test-set p.bitmap f g (omega (arith, c.words)) in
    elim (Bool-cases (frame_test p.bitmap f == 0)) [
      | inl e ↦
          let sum =
            count_free-Differs p.bitmap (frame_set p.bitmap f) f 1 d max_frames l (omega arith) in
          rw e (
            record {
              slack = c.slack;
              words = length-frame_set p.bitmap f ∙ c.words;
              counted = omega (arith, c.counted, c.within, sum, ==→eq (frame_test p.bitmap f) 0 e);
              within = omega (arith, c.counted, c.within, sum, ==→eq (frame_test p.bitmap f) 0 e);
            },
            d,
          )
      | inr e ↦
          let set : frame_test p.bitmap f ≡ 1 =
            omega (arith, ==→ne (frame_test p.bitmap f) 0 e, frame_test-le p.bitmap f) in
          rw e (
            c,
            λ g. elim (Bool-cases (f == g)) [
              | inl t ↦ rw t (ap (λ x. frame_test p.bitmap x) (sym (==→eq f g t)) ∙ set)
              | inr t ↦ rw t refl
            ],
          )
    ]

reserve_from_lem :
    (n most f : ℕ) (p : Pmm)
    → f + n ≤ max_frames
    → most < u32_mod
    → Counted most p
    → Counted most (reserve_from n f p)
      × Reserves (λ g. leb f g && ltb g (f + n)) p (reserve_from n f p)
unfolding reserve_from
reserve_from_lem zero most f p l small c = (c, λ g. ground arith)
reserve_from_lem (suc n) most f p l small c =
    let (c1, r1) = reserve_lem most f p (omega arith) small c in
    let (c2, r2) = reserve_from_lem n most (f + 1) (reserve f p) (omega arith) small c1 in
    (c2, λ g. ground (arith, r2 g, r1 g))

-- Frame 0 is marked, and the counter is left.
zero_lem :
    (most : ℕ) (p : Pmm)
    → Counted most p
    → let q : Pmm = record p { bitmap = frame_set p.bitmap 0 } in
      Counted most q × Reserves (λ g. 0 == g) p q
zero_lem most p c =
    let d : Differs p.bitmap (frame_set p.bitmap 0) 0 1 =
      λ g. frame_test-set p.bitmap 0 g (omega (arith, c.words)) in
    let sum =
      count_free-Differs p.bitmap (frame_set p.bitmap 0) 0 1 d max_frames (omega arith)
        (omega arith) in
    (
      record {
        slack = c.slack + (1 - frame_test p.bitmap 0);
        words = length-frame_set p.bitmap 0 ∙ c.words;
        counted = omega (arith, c.counted, sum, frame_test-le p.bitmap 0);
        within = c.within;
      },
      d,
    )

-- In the bitmap of the start every frame is in use.
pub all_used-frame_test :
    (f : ℕ) → f < max_frames → frame_test (replicate bitmap_words 0xFFFF_FFFF) f ≡ 1
all_used-frame_test f l =
    frame_test_lem (replicate bitmap_words 0xFFFF_FFFF) f
    ∙ ap (λ w. test_bit w (f % 32))
        (get_or-replicate bitmap_words (f / 32) 0xFFFF_FFFF 0 (omega arith))
    ∙ omega (arith, test_bit-not32 0 (f % 32) (omega arith) (omega arith), test_bit-zero (f % 32))

start_lem :
    (p : Pmm)
    → p.free_frames ≡ 0
    → Counted 0 (record p { bitmap = replicate bitmap_words 0xFFFF_FFFF })
start_lem p e = record {
  slack = 0;
  words = length-replicate {A = ℕ} bitmap_words 0xFFFF_FFFF;
  counted = omega (
    arith,
    e,
    count_free-none (replicate bitmap_words 0xFFFF_FFFF) max_frames all_used-frame_test,
  );
  within = omega (arith, e);
}

last_lem :
    (most f : ℕ) (p : Pmm)
    → most < u32_mod
    → Counted most p
    → let q = if ltb f max_frames then reserve f p else p in
      Counted most q
      × ((g : ℕ)
          → g < max_frames
          → frame_test q.bitmap g ≡ (if f == g then 1 else frame_test p.bitmap g))
last_lem most f p small c = elim (Bool-cases (ltb f max_frames)) [
  | inl e ↦ let (c1, r) = reserve_lem most f p (ground arith) small c in rw e (c1, λ g l. r g)
  | inr e ↦ rw e (c, λ g l. ground arith)
]

Counted-IsValid :
    {most : ℕ} {p : Pmm} (c : Counted most p) → most + max_frames + 1 < u32_mod → IsValid c.slack p
Counted-IsValid c small = record {
  words = c.words;
  counted = c.counted;
  room = omega (arith, c.counted, c.within);
}

-- The frames that `pmm_init` keeps in use whatever the memory map says: up to the first one that lies
-- wholly behind the kernel, and that of the Multiboot2 information.
abbrev pub reserved : (mboot_ptr kernel_end f : ℕ) → Bool
reserved mboot_ptr kernel_end f =
    leb f ((kernel_end + (page_size - 1)) / page_size) || f == mboot_ptr / page_size

pub pmm_init_lem :
    (fuel : ℕ) (m : Mem) (mboot_ptr kernel_end : ℕ) (ts : List Tag) (p : Pmm)
    → AreTags m (mboot_ptr + 8) ts
    → p.free_frames ≡ 0
    → items ts < fuel
    → items ts ≤ 100_000
    → kernel_end + page_size < u32_mod
    → (k : ℕ) × (q : Pmm) × (pmm_init fuel m mboot_ptr kernel_end p ≡ some q)
      × IsValid k q
      × ((f : ℕ)
          → f < max_frames
          → frame_test q.bitmap f
            ≡ (if available ts f && not (reserved mboot_ptr kernel_end f) then 0 else 1))
unfolding pmm_init
pmm_init_lem fuel m mboot_ptr kernel_end ts p tags zero_ enough few small =
    let p0 : Pmm = record p { bitmap = replicate bitmap_words 0xFFFF_FFFF } in
    let (p1, e1, c1, r1) =
      walk_tags_lem fuel m (mboot_ptr + 8) 0 ts p0 enough tags (start_lem p zero_) (omega arith) in
    let most = 0 + items ts * max_frames in
    let p2 : Pmm = record p1 { bitmap = frame_set p1.bitmap 0 } in
    let (c2, r2) = zero_lem most p1 c1 in
    let n = min ((kernel_end + (page_size - 1)) / page_size + 1) max_frames in
    let (c3, r3) = reserve_from_lem n most 0 p2 (ground arith) (omega arith) c2 in
    let mb = mboot_ptr / page_size in
    let (c4, r4) = last_lem most mb (reserve_from n 0 p2) (omega arith) c3 in
    let end_ : add32 kernel_end (page_size - 1) ≡ kernel_end + (page_size - 1) = omega arith in
    let q : Pmm =
      if ltb mb max_frames then reserve mb (reserve_from n 0 p2) else reserve_from n 0 p2 in
    (
      c4.slack,
      q,
      rw (pmm_init, e1, end_) refl,
      Counted-IsValid c4 (omega arith),
      λ f l. r4 f l ∙ ground (arith, r3 f, r2 f, r1 f l, all_used-frame_test f l),
    )
