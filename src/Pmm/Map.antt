-- ===== src/Pmm/Map.antt =====
-- The memory map of the Multiboot2 information, and the frames that `pmm_init` frees for it.
use stak_os.Base.{
  ℕ, zero, suc, ◌+◌, ◌*◌, ◌/◌, ◌<◌, ◌≡◌, ◌≢◌, refl, ◌∙◌, Bool, true, false, ◌||◌, some, List, [],
  ◌∷◌, ◌==◌, ltb, if◌then◌else◌, length, bit_and, lt→ltb, arith, ne→==,
}
use stak_os.Base.Words.{u32_mod, add32, not32}
use stak_os.Base.Words.Bits.{bit_and-high, bit_and-mask}
use stak_os.Memory.{Mem, load32}
use stak_os.Pmm.{Pmm, max_frames, frame_test, add_entry, add_entries, walk_tags}
use stak_os.Pmm.Region.{Counted, Counted-weaken, Entry, covers, IsEntry, add_entry_lem}

-- The entries follow one another at the distance `entry_size`.
abbrev pub AreEntries : Mem → (entry_size a : ℕ) → List Entry → Type 0
AreEntries m entry_size a [] = Unit
AreEntries m entry_size a (e ∷ es) = IsEntry m a e × AreEntries m entry_size (a + entry_size) es

-- Some entry makes frame `f` available.
abbrev pub covered : List Entry → ℕ → Bool
covered [] f = false
covered (e ∷ es) f = covers e f || covered es f

add_entries_lem :
    (fuel : ℕ) (m : Mem) (entry_size a most : ℕ) (es : List Entry) (p : Pmm)
    → length es < fuel
    → 0 < entry_size
    → AreEntries m entry_size a es
    → Counted most p
    → most + length es * max_frames < u32_mod
    → (q : Pmm) × (add_entries fuel m entry_size (a + length es * entry_size) a p ≡ some q)
      × Counted (most + length es * max_frames) q
      × ((g : ℕ)
          → g < max_frames
          → frame_test q.bitmap g ≡ (if covered es g then 0 else frame_test p.bitmap g))
unfolding add_entries
add_entries_lem zero m entry_size a most es p l pos h c small = absurd (omega arith)
add_entries_lem (suc fuel) m entry_size a most [] p l pos h c small =
    (p, ground arith, Counted-weaken (omega arith) c, λ g k. refl)
add_entries_lem (suc fuel) m entry_size a most (e ∷ es) p l pos (h, hs) c small =
    let (c1, r) = add_entry_lem m a most e p h c (omega arith) in
    let (q, eq, c2, r2) =
      add_entries_lem fuel m entry_size (a + entry_size) (most + max_frames) es (add_entry m a p)
        (omega arith) pos hs c1 (omega arith) in
    let there : a + suc (length es) * entry_size ≡ a + entry_size + length es * entry_size =
      omega arith in
    let open_ : ltb a (a + entry_size + length es * entry_size) ≡ true =
      lt→ltb a (a + entry_size + length es * entry_size) (omega arith) in
    (
      q,
      rw (there, open_) eq,
      Counted-weaken (omega arith) c2,
      λ g k. r2 g k ∙ ground (arith, r g k),
    )

-- What a tag of the information holds: a memory map, or something that `pmm_init` skips.
pub data Tag : Type 0 where
  memory_map : (entries : List Entry) → Tag
  other_tag : Tag

abbrev pub entries_of : Tag → List Entry
entries_of (memory_map es) = es
entries_of other_tag = []

-- The tag at `a` holds what `t` says.
abbrev pub IsTag : Mem → ℕ → Tag → Type 0
IsTag m a (memory_map es) =
    (load32 m a ≡ 6)
    × (0 < load32 m (a + 8))
    × (load32 m (a + 4) ≡ 16 + length es * load32 m (a + 8))
    × AreEntries m (load32 m (a + 8)) (a + 16) es
IsTag m a other_tag = (load32 m a ≢ 6) × (load32 m a ≢ 0)

-- The tags follow one another at the next multiple of 8, up to the end tag.
abbrev pub AreTags : Mem → ℕ → List Tag → Type 0
AreTags m a [] = load32 m a ≡ 0
AreTags m a (t ∷ ts) =
    IsTag m a t
    × (a + load32 m (a + 4) + 7 < u32_mod)
    × AreTags m ((a + load32 m (a + 4) + 7) / 8 * 8) ts

abbrev pub available : List Tag → ℕ → Bool
available [] f = false
available (t ∷ ts) f = covered (entries_of t) f || available ts f

-- The number of tags and entries.
abbrev pub items : List Tag → ℕ
items [] = 0
items (t ∷ ts) = suc (length (entries_of t) + items ts)

following_lem :
    (a n : ℕ) → a + n + 7 < u32_mod → bit_and (add32 (add32 a n) 7) (not32 7) ≡ (a + n + 7) / 8 * 8
following_lem a n h =
    bit_and-high 3 (add32 (add32 a n) 7) 0x1FFF_FFFF
    ∙ ground (arith, bit_and-mask 29 (add32 (add32 a n) 7 / 8))

tag_lem :
    (fuel : ℕ) (m : Mem) (a most : ℕ) (t : Tag) (p : Pmm)
    → length (entries_of t) < fuel
    → IsTag m a t
    → Counted most p
    → most + length (entries_of t) * max_frames < u32_mod
    → (q : Pmm) × ((if load32 m a == 6
          then add_entries fuel m (load32 m (a + 8)) (a + load32 m (a + 4)) (a + 16) p
          else some p)
        ≡ some q)
      × Counted (most + length (entries_of t) * max_frames) q
      × ((g : ℕ)
          → g < max_frames
          → frame_test q.bitmap g ≡ (if covered (entries_of t) g then 0 else frame_test p.bitmap g))
tag_lem fuel m a most (memory_map es) p l (six, pos, size, h) c small =
    let (q, eq, c1, r) =
      add_entries_lem fuel m (load32 m (a + 8)) (a + 16) most es p l pos h c small in
    let stop : a + (16 + length es * load32 m (a + 8)) ≡ a + 16 + length es * load32 m (a + 8) =
      omega arith in
    (q, rw (six, size, stop) eq, c1, r)
tag_lem fuel m a most other_tag p l (no_map, no_end) c small =
    (p, rw (ne→== (load32 m a) 6 no_map) refl, Counted-weaken (omega arith) c, λ g k. refl)

IsTag-ne : (m : Mem) (a : ℕ) (t : Tag) → IsTag m a t → load32 m a ≢ 0
IsTag-ne m a (memory_map es) h = omega (arith, h.0)
IsTag-ne m a other_tag h = h.1

-- The walk over the tags returns, and frees the frames that some memory map makes available.
pub walk_tags_lem :
    (fuel : ℕ) (m : Mem) (a most : ℕ) (ts : List Tag) (p : Pmm)
    → items ts < fuel
    → AreTags m a ts
    → Counted most p
    → most + items ts * max_frames < u32_mod
    → (q : Pmm) × (walk_tags fuel m a p ≡ some q)
      × Counted (most + items ts * max_frames) q
      × ((g : ℕ)
          → g < max_frames
          → frame_test q.bitmap g ≡ (if available ts g then 0 else frame_test p.bitmap g))
unfolding walk_tags
walk_tags_lem zero m a most ts p l h c small = absurd (omega arith)
walk_tags_lem (suc fuel) m a most [] p l h c small =
    (p, rw h refl, Counted-weaken (omega arith) c, λ g k. refl)
walk_tags_lem (suc fuel) m a most (t ∷ ts) p l (h, fits, hs) c small =
    let (q1, e1, c1, r1) = tag_lem fuel m a most t p (omega arith) h c (omega arith) in
    let next = (a + load32 m (a + 4) + 7) / 8 * 8 in
    let (q, e2, c2, r2) =
      walk_tags_lem fuel m next (most + length (entries_of t) * max_frames) ts q1 (omega arith) hs
        c1 (omega arith) in
    (
      q,
      rw (ne→== (load32 m a) 0 (IsTag-ne m a t h), e1, following_lem a (load32 m (a + 4)) fits) e2,
      Counted-weaken (omega arith) c2,
      λ g k. r2 g k ∙ ground (arith, r1 g k),
    )
