-- ===== src/Paging/Walk.antt =====
-- The walk of the processor over the tables, and what `paging_map_into` makes it find.
use stak_os.Base.{
  ℕ, ◌+◌, ◌*◌, ◌/◌, ◌%◌, ◌<◌, ◌≡◌, ◌≢◌, ◌⊎◌, inl, inr, refl, sym, ap, ◌∙◌, true, false, not, Option,
  none, some, ◌==◌, if◌then◌else◌, bit_and, bit_or, arith, Bool-cases, ne→==,
}
use stak_os.Base.Words.{u32_mod}
use stak_os.Base.Words.Bits.{bit_or-zero, bit_or_step}
use stak_os.Memory.{Mem, load32-store32_self, load32-store32_ne, load32-lt}
use stak_os.Pmm.{pmm_alloc_frame}
use stak_os.Paging.{
  Vm, entries, frame_of, is_present, entry_at, put_entry, zero_entries, pd_index, pt_index, new_pde,
  paging_map_into,
}
use stak_os.Paging.Entries.{
  frame_of_lem, is_present-odd, odd-is_present, entry_of, div-bit_or, page_apart, pd_index-lt,
  pt_index-lt, pd_index-page, pt_index-page,
}

-- The physical address behind a virtual one, `none` for a page fault.
unfoldable pub walk : Mem → (pd virt : ℕ) → Option ℕ
walk m pd virt =
    let pde = entry_at m pd (pd_index virt) in
    let pte = entry_at m (frame_of pde) (pt_index virt) in
    if is_present pde
    then if is_present pte then some (frame_of pte + virt % 4096) else none
    else none

module _ (m : Mem) (pd virt phys flags : ℕ) (pd_page : pd % 4096 ≡ 0) (virt_word : virt < u32_mod)
    (phys_word : phys < u32_mod) (small : flags < 4096) (present : flags % 2 ≡ 1) where
  abbrev pde : ℕ
  pde = entry_at m pd (pd_index virt)

  -- The last write of a mapping, with the table in place.
  pub walk-mapped :
      (a : ℕ)
      → is_present pde ≡ true
      → frame_of pde ≢ pd
      → a / 4096 ≡ virt / 4096
      → walk (put_entry m (frame_of pde) (pt_index virt) (bit_or (frame_of phys) flags)) pd a
        ≡ some (phys / 4096 * 4096 + a % 4096)
  unfolding walk
  walk-mapped a there apart page =
      let pt = frame_of pde in
      let pte : ℕ = bit_or (frame_of phys) flags in
      let m2 : Mem = put_entry m pt (pt_index virt) pte in
      let word : pde < u32_mod = load32-lt m (pd + 4 * pd_index virt) in
      let at_pt : pt ≡ pde / 4096 * 4096 = frame_of_lem pde word in
      let value : pte ≡ phys / 4096 * 4096 + flags =
        ap (λ x. bit_or x flags) (frame_of_lem phys phys_word) ∙ entry_of phys flags small in
      let same_pde : entry_at m2 pd (pd_index virt) ≡ pde =
        load32-store32_ne m (pt + 4 * pt_index virt) (pd + 4 * pd_index virt) pte (
          page_apart pt pd (pt_index virt) (pd_index virt) (omega (arith, at_pt)) pd_page apart
            (pt_index-lt virt) (pd_index-lt virt virt_word)) in
      let same_pte : entry_at m2 pt (pt_index virt) ≡ pte =
        load32-store32_self m (pt + 4 * pt_index virt) pte
        ∙ omega (arith, value, small, phys_word) in
      let odd : is_present pte ≡ true = is_present-odd pte (omega (arith, value, present)) in
      let frame : frame_of pte ≡ phys / 4096 * 4096 =
        frame_of_lem pte (omega (arith, value, small, phys_word)) ∙ omega (arith, value, small) in
      rw
        (
          pd_index-page a virt page,
          pt_index-page a virt page,
          same_pde,
          there,
          same_pte,
          odd,
          frame,
        )
        refl

-- The directory entry for `virt` leads to a table apart from the directory, or the allocator has a
-- frame for a new table, a page apart from the directory.
abbrev pub HasTable : Vm → (pd virt : ℕ) → Type 0
HasTable vm pd virt =
    let pde = entry_at vm.mem pd (pd_index virt) in
    let frame = (pmm_alloc_frame vm.pmm).0 in
    ((is_present pde ≡ true) × (frame_of pde ≢ pd))
    ⊎ ((is_present pde ≡ false)
        × (frame ≢ 0)
        × (frame ≢ pd)
        × (frame % 4096 ≡ 0)
        × (frame < u32_mod))

-- The directory entry that leads to the table, after the first writes of a mapping.
pub record Entry (m : Mem) (pd virt pt : ℕ) : Type 0 where
  pub there : is_present (entry_at m pd (pd_index virt)) ≡ true
  pub table : frame_of (entry_at m pd (pd_index virt)) ≡ pt

Entry-put :
    (m : Mem) (pd virt pt v : ℕ)
    → v < u32_mod
    → v % 2 ≡ 1
    → v / 4096 * 4096 ≡ pt
    → Entry (put_entry m pd (pd_index virt) v) pd virt pt
Entry-put m pd virt pt v l odd frame =
    let e : entry_at (put_entry m pd (pd_index virt) v) pd (pd_index virt) ≡ v =
      load32-store32_self m (pd + 4 * pd_index virt) v ∙ omega (arith, l) in
    record { there = rw e (is_present-odd v odd); table = rw e (frame_of_lem v l ∙ frame) }

pub Entry-new :
    (m : Mem) (pd virt pt flags : ℕ)
    → pt % 4096 ≡ 0
    → pt < u32_mod
    → Entry (put_entry m pd (pd_index virt) (new_pde pt flags)) pd virt pt
Entry-new m pd virt pt flags page word =
    let back : pt / 4096 * 4096 ≡ pt = omega (arith, page) in
    let with_flags : (r : ℕ) → r < 4096 → bit_or pt r ≡ pt + r =
      λ r l. rw back at (entry_of pt r l) in
    let entry : (r : ℕ)
        → r < 4096
        → r % 2 ≡ 1
        → Entry (put_entry m pd (pd_index virt) (bit_or pt r)) pd virt pt =
      λ r l odd. rw (with_flags r l) (
        Entry-put m pd virt pt (pt + r) (omega (arith, page, word, l)) (omega (arith, page, odd))
          (omega (arith, page, l))) in
    elim (Bool-cases (not (bit_and flags 4 == 0))) [
      | inl e ↦ rw e (entry 7 (omega arith) refl)
      | inr e ↦ rw e (entry 3 (omega arith) refl)
    ]

pub Entry-user :
    (m : Mem) (pd virt : ℕ)
    → (let pde = entry_at m pd (pd_index virt) in
        is_present pde ≡ true
        → Entry (put_entry m pd (pd_index virt) (bit_or pde 4)) pd virt (frame_of pde))
Entry-user m pd virt there =
    let pde = entry_at m pd (pd_index virt) in
    let word : pde < u32_mod = load32-lt m (pd + 4 * pd_index virt) in
    let high : bit_or pde 4 / 4096 ≡ pde / 4096 =
      div-bit_or 12 pde 4 ∙ bit_or-zero (pde / 4096) (pde / 4096) (omega arith) in
    Entry-put m pd virt (frame_of pde) (bit_or pde 4) (omega (arith, high, word))
      (omega (arith, bit_or_step pde 4, odd-is_present pde there))
      (ap (λ q. q * 4096) high ∙ sym (frame_of_lem pde word))

-- For a directory at a page address, addresses of 32 bits and flags below 4096 with PRESENT among
-- them, with a table or a frame for one apart from the directory,
-- `paging_map_into` succeeds, and the processor then finds every address of the virtual page at the
-- same place of the physical page.
pub paging_map_into-walk :
    (vm : Vm) (pd virt phys flags : ℕ)
    → pd % 4096 ≡ 0
    → virt < u32_mod
    → phys < u32_mod
    → flags < 4096
    → flags % 2 ≡ 1
    → HasTable vm pd virt
    → (vm' : Vm) × (paging_map_into vm pd virt phys flags ≡ some vm')
      × ((a : ℕ)
          → a / 4096 ≡ virt / 4096
          → walk vm'.mem pd a ≡ some (phys / 4096 * 4096 + a % 4096))
unfolding paging_map_into
paging_map_into-walk vm pd virt phys flags page word pword small present has =
    let i = pd_index virt in
    let pde = entry_at vm.mem pd i in
    let pt = (pmm_alloc_frame vm.pmm).0 in
    let fresh : Mem = put_entry (zero_entries entries vm.mem pt) pd i (new_pde pt flags) in
    let after : (m : Mem) (table : ℕ)
        → Entry m pd virt table
        → table ≢ pd
        → (a : ℕ) → a / 4096 ≡ virt / 4096
        → walk
            (put_entry m (frame_of (entry_at m pd i)) (pt_index virt)
              (bit_or (frame_of phys) flags))
            pd a
          ≡ some (phys / 4096 * 4096 + a % 4096) =
      λ m table e apart a same.
        walk-mapped m pd virt phys flags page word pword small present a e.there
          (λ z. apart (sym e.table ∙ z)) same in
    elim has [
      | inr (absent_, nz, ne, aligned, pt_word) ↦
          rw (absent_, ne→== pt 0 nz)
            (
              _,
              refl,
              after fresh pt
                  (Entry-new (zero_entries entries vm.mem pt) pd virt pt flags aligned pt_word) ne,
            )
      | inl (there, apart) ↦ elim (Bool-cases (not (bit_and flags 4 == 0))) [
        | inl e ↦
            rw (there, e)
              (
                _,
                refl,
                after (put_entry vm.mem pd i (bit_or pde 4)) (frame_of pde)
                    (Entry-user vm.mem pd virt there) apart,
              )
        | inr e ↦
            rw (there, e)
              (_, refl, after vm.mem (frame_of pde) (record { there = there; table = refl }) apart)
      ]
    ]
