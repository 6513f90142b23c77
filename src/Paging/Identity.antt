-- ===== src/Paging/Identity.antt =====
-- `paging_init`: the kernel's directory maps the first 32 MB to themselves.
use stak_os.Base.{
  ℕ, zero, suc, ◌+◌, ◌-◌, ◌*◌, ◌/◌, ◌%◌, ◌≤◌, ◌<◌, ◌≡◌, ◌⊎◌, inl, inr, refl, ap, ◌∙◌, none, some,
  ◌&&◌, ltb, leb, if◌then◌else◌, bit_or, bit_and, arith,
}
use stak_os.Base.Words.{u32_mod}
use stak_os.Base.Words.Bits.{bit_or-fields, bit_or_step, bit_and-mask}
use stak_os.Memory.{Mem, load32, load32-same}
use stak_os.Memory.Writes.{load32-store32}
use stak_os.Paging.{
  Vm, entries, identity_pt_count, frame_of, entry_at, put_entry, pd_index, pt_index,
  identity_entries, identity_windows, paging_init,
}
use stak_os.Paging.Entries.{frame_of_lem, is_present-odd}
use stak_os.Paging.Walk.{walk}

writable_lem : (q : ℕ) → bit_or (bit_or (q * 4096) 1) 2 ≡ q * 4096 + 3
writable_lem q =
    let first : bit_or (q * 4096) 1 ≡ q * 4096 + 1 = bit_or-fields 12 q 1 (omega arith) in
    let half : (q * 4096 + 1) / 2 ≡ q * 2048 = omega arith in
    rw first (
      omega (
        arith,
        bit_or_step (q * 4096 + 1) 2,
        ap (λ (x : ℕ). bit_or x 1) half,
        bit_or-fields 11 q 1 (omega arith),
      ))

identity_entries_lem :
    (n : ℕ) (m : Mem) (pt t b : ℕ)
    → pt % 4096 ≡ 0
    → b % 4 ≡ 0
    → n ≤ entries
    → t < identity_pt_count
    → load32 (identity_entries n m pt t) b ≡ (
        if leb pt b && ltb b (pt + 4 * n)
        then t * 4194304 + (b - pt) / 4 * 4096 + 3
        else load32 m b)
unfolding identity_entries
identity_entries_lem zero m pt t b page word l lt = ground arith
identity_entries_lem (suc n) m pt t b page word l lt =
    let there : t * entries * 4096 + n * 4096 ≡ (t * 1024 + n) * 4096 = omega arith in
    rw (there, writable_lem (t * 1024 + n))
      (load32-store32 (identity_entries n m pt t) (pt + 4 * n) b ((t * 1024 + n) * 4096 + 3)
          (omega (arith, page)) word
        ∙ ground (arith, identity_entries_lem n m pt t b page word (omega arith) lt))

-- The directory lies apart from the tables.
abbrev pub TablesApart : (pts pd : ℕ) → Type 0
TablesApart pts pd = (pd + 4096 ≤ pts) ⊎ (pts + 32768 ≤ pd)

-- The byte `b` is one of the tables or of the directory.
abbrev pub InTables : (pts pd b : ℕ) → Type 0
InTables pts pd b = ((pts ≤ b) × (b < pts + 32768)) ⊎ ((pd ≤ b) × (b < pd + 4096))

InTables-next :
    (pts pd b i : ℕ)
    → pts % 4096 ≡ 0
    → pd % 4096 ≡ 0
    → b % 4 ≡ 0
    → i < 4
    → InTables pts pd b
    → InTables pts pd (b + i)
InTables-next pts pd b i page page' word l (inl h) = inl (omega (arith, h, page))
InTables-next pts pd b i page page' word l (inr h) = inr (omega (arith, h, page'))

module _ (m : Mem) (pts pd : ℕ) (pts_page : pts % 4096 ≡ 0) (pd_page : pd % 4096 ≡ 0)
    (in_ram : pts + 32768 < u32_mod) (apart : TablesApart pts pd) where
  -- The word at `b` after `n` windows, `d` before them.
  abbrev after_windows : (n b d : ℕ) → ℕ
  after_windows n b d =
      if leb pts b && ltb b (pts + n * 4096)
      then (b - pts) / 4 * 4096 + 3
      else if leb pd b && ltb b (pd + 4 * n)
      then pts + (b - pd) / 4 * 4096 + 3
      else d

  -- `m2` is `m1` with the table of window `n`.
  window_step :
      (n b : ℕ) (m1 m2 : Mem)
      → b % 4 ≡ 0
      → n < identity_pt_count
      → load32 m2 b ≡ (
          if leb (pts + n * 4096) b && ltb b (pts + n * 4096 + 4096)
          then n * 4194304 + (b - (pts + n * 4096)) / 4 * 4096 + 3
          else load32 m1 b)
      → load32 m1 b ≡ after_windows n b (load32 m b)
      → load32 (put_entry m2 pd n (bit_or (bit_or (pts + n * 4096) 1) 2)) b
        ≡ after_windows (suc n) b (load32 m b)
  window_step n b m1 m2 word l table before =
      let q : pts + n * 4096 ≡ (pts / 4096 + n) * 4096 = omega (arith, pts_page) in
      let value : bit_or (bit_or (pts + n * 4096) 1) 2 ≡ pts + n * 4096 + 3 =
        rw q (writable_lem (pts / 4096 + n)) in
      rw value (
        load32-store32 m2 (pd + 4 * n) b (pts + n * 4096 + 3) (omega (arith, pd_page)) word
        ∙ ground (arith, table, before))

  identity_windows_lem :
      (n b : ℕ)
      → b % 4 ≡ 0
      → n ≤ identity_pt_count
      → load32 (identity_windows n m pts pd) b ≡ after_windows n b (load32 m b)
  unfolding identity_windows
  identity_windows_lem zero b word l = ground arith
  identity_windows_lem (suc n) b word l =
      window_step n b (identity_windows n m pts pd) _ word (omega arith)
        (identity_entries_lem entries (identity_windows n m pts pd) (pts + n * 4096) n b
          (omega (arith, pts_page)) word (omega arith) (omega arith))
        (identity_windows_lem n b word (omega arith))

  -- For a memory that holds those words from the tables and the directory.
  identity_walk :
      (m' : Mem) (a : ℕ)
      → ((b : ℕ) → b % 4 ≡ 0 → InTables pts pd b → load32 m' b ≡ after_windows 8 b (load32 m b))
      → a < 0x200_0000
      → walk m' pd a ≡ some a
  unfolding walk pd_index pt_index
  identity_walk m' a words l =
      let w = a / 4194304 in
      let j = bit_and (a / 4096) 1023 in
      let j_lem : j ≡ a / 4096 % 1024 = bit_and-mask 10 (a / 4096) in
      let pde : entry_at m' pd w ≡ pts + w * 4096 + 3 =
        words (pd + 4 * w) (omega (arith, pd_page)) (inr (omega arith)) ∙ ground arith in
      let table : frame_of (pts + w * 4096 + 3) ≡ pts + w * 4096 =
        frame_of_lem (pts + w * 4096 + 3) (omega arith) ∙ omega (arith, pts_page) in
      let pte : entry_at m' (pts + w * 4096) j ≡ a / 4096 * 4096 + 3 =
        words (pts + w * 4096 + 4 * j) (omega (arith, pts_page)) (inl (omega (arith, j_lem)))
        ∙ ground (arith, j_lem) in
      let frame : frame_of (a / 4096 * 4096 + 3) ≡ a / 4096 * 4096 =
        frame_of_lem (a / 4096 * 4096 + 3) (omega arith) ∙ omega arith in
      let back : a / 4096 * 4096 + a % 4096 ≡ a = omega arith in
      rw
        (
          pde,
          is_present-odd (pts + w * 4096 + 3) (omega (arith, pts_page)),
          table,
          pte,
          is_present-odd (a / 4096 * 4096 + 3) (omega arith),
          frame,
        )
        (ap some back)

  fault_walk :
      (m' : Mem) (a : ℕ)
      → ((b : ℕ) → b % 4 ≡ 0 → load32 m' b ≡ after_windows 8 b (load32 m b))
      → 0x200_0000 ≤ a
      → a < u32_mod
      → load32 m (pd + 4 * (a / 4194304)) ≡ 0
      → walk m' pd a ≡ none
  unfolding walk pd_index pt_index
  fault_walk m' a words l word zero_entry =
      let pde : entry_at m' pd (a / 4194304) ≡ 0 =
        words (pd + 4 * (a / 4194304)) (omega (arith, pd_page)) ∙ ground (arith, zero_entry) in
      rw pde refl

-- The map stays in a memory whose tables and directory stay.
pub paging_init-kept :
    (vm : Vm) (pts : ℕ) (m' : Mem)
    → pts % 4096 ≡ 0
    → vm.kernel_pd % 4096 ≡ 0
    → pts + 32768 < u32_mod
    → TablesApart pts vm.kernel_pd
    → ((x : ℕ) → InTables pts vm.kernel_pd x → m' x ≡ (paging_init vm pts).mem x)
    → (a : ℕ) → a < 0x200_0000
    → walk m' vm.kernel_pd a ≡ some a
unfolding paging_init
paging_init-kept vm pts m' page page' in_ram apart same a l =
    let after : Mem = identity_windows identity_pt_count vm.mem pts vm.kernel_pd in
    identity_walk vm.mem pts vm.kernel_pd page page' in_ram apart m' a
      (λ b word i.
        load32-same after m' b (same b i)
          (same (b + 1) (InTables-next pts vm.kernel_pd b 1 page page' word (omega arith) i))
          (same (b + 2) (InTables-next pts vm.kernel_pd b 2 page page' word (omega arith) i))
          (same (b + 3) (InTables-next pts vm.kernel_pd b 3 page page' word (omega arith) i))
        ∙ identity_windows_lem vm.mem pts vm.kernel_pd page page' in_ram apart identity_pt_count b
            word (omega arith))
      l

-- With the directory and the eight tables at page addresses below 2^32 and apart, after
-- `paging_init` the processor finds every address below 32 MB at itself, and every other address
-- whose entry of the directory was 0 is a page fault.
pub paging_init-walk :
    (vm : Vm) (pts : ℕ)
    → pts % 4096 ≡ 0
    → vm.kernel_pd % 4096 ≡ 0
    → pts + 32768 < u32_mod
    → TablesApart pts vm.kernel_pd
    → ((a : ℕ) → a < 0x200_0000 → walk (paging_init vm pts).mem vm.kernel_pd a ≡ some a)
      × ((a : ℕ)
          → 0x200_0000 ≤ a
          → a < u32_mod
          → load32 vm.mem (vm.kernel_pd + 4 * (a / 4194304)) ≡ 0
          → walk (paging_init vm pts).mem vm.kernel_pd a ≡ none)
unfolding paging_init
paging_init-walk vm pts page page' in_ram apart =
    let words = λ (b : ℕ) (word : b % 4 ≡ 0).
      identity_windows_lem vm.mem pts vm.kernel_pd page page' in_ram apart identity_pt_count b word
        (omega arith) in
    let after : Mem = identity_windows identity_pt_count vm.mem pts vm.kernel_pd in
    (
      λ a l.
          identity_walk vm.mem pts vm.kernel_pd page page' in_ram apart after a (λ b w i. words b w)
            l,
      λ a l w z. fault_walk vm.mem pts vm.kernel_pd page page' in_ram apart after a words l w z,
    )
