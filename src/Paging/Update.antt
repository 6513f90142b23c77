-- ===== src/Paging/Update.antt =====
-- `paging_map_into` as an update: every other page stays where it was.
use stak_os.Base.{
  ℕ, ◌+◌, ◌*◌, ◌/◌, ◌%◌, ◌<◌, ◌≡◌, ◌≢◌, inl, inr, refl, sym, ◌∙◌, true, false, not, none, some,
  ◌==◌, if◌then◌else◌, bit_and, bit_or, arith, Bool-cases, ne→==, ==→eq, ==→ne,
}
use native.Mathlib.Decide.{ℕ_discrete}
use mathlib.Core.Option.{some-injective}
use stak_os.Base.Words.{u32_mod}
use stak_os.Memory.{Mem, load32-store32_ne}
use stak_os.Pmm.{pmm_alloc_frame}
use stak_os.Paging.{
  Vm, entries, frame_of, is_present, entry_at, put_entry, zero_entries, pd_index, pt_index, new_pde,
  paging_map_into,
}
use stak_os.Paging.Entries.{page_apart, pd_index-lt, pt_index-lt}
use stak_os.Paging.Walk.{walk, Entry, Entry-user, Entry-new, HasTable, paging_map_into-walk}
use stak_os.Paging.Kept.{
  Separate, walk-put, walk-pde_other, walk-pde_user, zero_entries_lem, zeroed-pde, walk-zeroed,
}

-- The memory `k` before the last write of a mapping: the table `t` is in place, and no walk has changed.
record Prepared (m k : Mem) (pd virt a t : ℕ) : Type 0 where
  entry : Entry k pd virt t
  same : walk k pd a ≡ walk m pd a
  apart : t ≢ pd
  distinct :
      pd_index a ≢ pd_index virt
      → is_present (entry_at k pd (pd_index a)) ≡ true
      → t ≢ frame_of (entry_at k pd (pd_index a))

module _ (m : Mem) (pd virt a : ℕ) (page : pd % 4096 ≡ 0) (virt_word : virt < u32_mod)
    (a_word : a < u32_mod) (s : Separate m pd) where
  Prepared-walk :
      (k : Mem) (t v : ℕ)
      → Prepared m k pd virt a t
      → a / 4096 ≢ virt / 4096
      → walk (put_entry k (frame_of (entry_at k pd (pd_index virt))) (pt_index virt) v) pd a
        ≡ walk m pd a
  Prepared-walk k t v p other =
      walk-put k pd virt a page virt_word a_word v other (rw p.entry.table p.apart)
        (λ ne there. rw p.entry.table (p.distinct ne there))
      ∙ p.same

  index_a : pd_index a < 1024
  index_a = pd_index-lt a a_word

  index_virt : pd_index virt < 1024
  index_virt = pd_index-lt virt virt_word

  module _ (there : is_present (entry_at m pd (pd_index virt)) ≡ true) where
    Prepared-kept : Prepared m m pd virt a (frame_of (entry_at m pd (pd_index virt)))
    Prepared-kept = record {
      entry = record { there = there; table = refl };
      same = refl;
      apart = s.apart (pd_index virt) index_virt there;
      distinct = λ ne here.
          s.distinct (pd_index virt) (pd_index a) index_virt index_a (λ e. ne (sym e)) there here;
    }

    Prepared-user :
        Prepared m
          (put_entry m pd (pd_index virt) (bit_or (entry_at m pd (pd_index virt)) 4))
          pd
          virt
          a
          (frame_of (entry_at m pd (pd_index virt)))
    Prepared-user =
        let v = bit_or (entry_at m pd (pd_index virt)) 4 in
        let apart = s.apart (pd_index virt) index_virt there in
        record {
          entry = Entry-user m pd virt there;
          same = elim (ℕ_discrete (pd_index a) (pd_index virt)) [
            | yes e ↦ walk-pde_user m pd virt a page virt_word a_word e there apart
            | no ne ↦
                walk-pde_other m pd virt a page virt_word a_word v ne (s.apart (pd_index a) index_a)
          ];
          apart = apart;
          distinct = λ ne.
              let pde : entry_at (put_entry m pd (pd_index virt) v) pd (pd_index a)
                  ≡ entry_at m pd (pd_index a) =
                load32-store32_ne m (pd + 4 * pd_index virt) (pd + 4 * pd_index a) v
                  (omega (arith, ne)) in
              rw pde (λ here.
                s.distinct (pd_index virt) (pd_index a) index_virt index_a (λ e. ne (sym e)) there
                  here);
        }

  module _ (fresh flags : ℕ) (absent_ : is_present (entry_at m pd (pd_index virt)) ≡ false)
      (fresh_page : fresh % 4096 ≡ 0) (fresh_word : fresh < u32_mod) (ne_pd : fresh ≢ pd)
      (unused : (i : ℕ)
        → i < 1024
        → is_present (entry_at m pd i) ≡ true
        → frame_of (entry_at m pd i) ≢ fresh) where
    zeroed : Mem
    zeroed = zero_entries entries m fresh

    placed : Mem
    placed = put_entry zeroed pd (pd_index virt) (new_pde fresh flags)

    placed-Entry : Entry placed pd virt fresh
    unfolding placed
    placed-Entry = Entry-new zeroed pd virt fresh flags fresh_page fresh_word

    zeroed_entry : (i : ℕ) → i < 1024 → entry_at zeroed pd i ≡ entry_at m pd i
    unfolding zeroed
    zeroed_entry i l = zeroed-pde m pd fresh a page fresh_page a_word ne_pd i l

    -- In a new table nothing is mapped yet.
    fault : pd_index a ≡ pd_index virt → walk placed pd a ≡ none
    unfolding walk placed zeroed
    fault e =
        let pte : entry_at placed fresh (pt_index a) ≡ 0 =
          load32-store32_ne zeroed (pd + 4 * pd_index virt) (fresh + 4 * pt_index a)
            (new_pde fresh flags)
            (page_apart pd fresh (pd_index virt) (pt_index a) page fresh_page (λ z. ne_pd (sym z))
              index_virt (pt_index-lt a))
          ∙ zero_entries_lem entries m fresh (fresh + 4 * pt_index a) (omega (arith, fresh_page))
              (omega (arith, fresh_page))
          ∙ ground (arith, pt_index-lt a) in
        rw (e, placed-Entry.there, placed-Entry.table, pte) refl

    same_placed : walk placed pd a ≡ walk m pd a
    unfolding placed zeroed walk
    same_placed = elim (ℕ_discrete (pd_index a) (pd_index virt)) [
      | yes e ↦ let before : walk m pd a ≡ none = rw (e, absent_) refl in fault e ∙ sym before
      | no ne ↦
          walk-pde_other zeroed pd virt a page virt_word a_word (new_pde fresh flags) ne
            (rw (zeroed_entry (pd_index a) index_a) (s.apart (pd_index a) index_a))
          ∙ walk-zeroed m pd fresh a page fresh_page a_word ne_pd (unused (pd_index a) index_a)
    ]

    Prepared-new : Prepared m placed pd virt a fresh
    unfolding placed
    Prepared-new = record {
      entry = placed-Entry;
      same = same_placed;
      apart = ne_pd;
      distinct = λ ne.
          let pde : entry_at placed pd (pd_index a) ≡ entry_at m pd (pd_index a) =
            load32-store32_ne zeroed (pd + 4 * pd_index virt) (pd + 4 * pd_index a)
              (new_pde fresh flags) (omega (arith, ne))
            ∙ zeroed_entry (pd_index a) index_a in
          rw pde (λ here z. unused (pd_index a) index_a here (sym z));
    }

module _ (vm : Vm) (pd virt phys flags : ℕ) (page : pd % 4096 ≡ 0) (virt_word : virt < u32_mod)
    (has : HasTable vm pd virt) (s : Separate vm.mem pd)
    (unused : (i : ℕ)
      → i < 1024
      → is_present (entry_at vm.mem pd i) ≡ true
      → frame_of (entry_at vm.mem pd i) ≢ (pmm_alloc_frame vm.pmm).0) where
  abbrev Others : Vm → Type 0
  Others vm' = (a : ℕ) → a < u32_mod → a / 4096 ≢ virt / 4096 → walk vm'.mem pd a ≡ walk vm.mem pd a

  map-Others : (vm' : Vm) × (paging_map_into vm pd virt phys flags ≡ some vm') × Others vm'
  unfolding paging_map_into placed zeroed
  map-Others =
      let i = pd_index virt in
      let m = vm.mem in
      let pde = entry_at m pd i in
      let fresh = (pmm_alloc_frame vm.pmm).0 in
      let v = bit_or (frame_of phys) flags in
      elim has [
        | inr (absent_, nz, ne, fresh_page, fresh_word) ↦
            rw (absent_, ne→== fresh 0 nz)
              (
                _,
                refl,
                λ a word other.
                    Prepared-walk m pd virt a page virt_word word s _ fresh v
                      (Prepared-new m pd virt a page virt_word word s fresh flags absent_ fresh_page
                        fresh_word ne unused)
                      other,
              )
        | inl (there, apart) ↦ elim (Bool-cases (not (bit_and flags 4 == 0))) [
          | inl e ↦
              rw (there, e)
                (
                  _,
                  refl,
                  λ a word other.
                      Prepared-walk m pd virt a page virt_word word s _ (frame_of pde) v
                        (Prepared-user m pd virt a page virt_word word s there) other,
                )
          | inr e ↦
              rw (there, e)
                (
                  _,
                  refl,
                  λ a word other.
                      Prepared-walk m pd virt a page virt_word word s m (frame_of pde) v
                        (Prepared-kept m pd virt a page virt_word word s there) other,
                )
        ]
      ]

  -- For a directory at a page address whose tables lie apart from it and from one another, addresses of
  -- 32 bits and flags below 4096 with PRESENT among them, with a table, or a frame for one apart from
  -- the directory and its tables, `paging_map_into` succeeds, and the walk of every 32-bit address
  -- is the one of before but for the virtual page, which leads to the physical page.
  pub paging_map_into-update :
      phys < u32_mod
      → flags < 4096
      → flags % 2 ≡ 1
      → (vm' : Vm) × (paging_map_into vm pd virt phys flags ≡ some vm')
        × ((a : ℕ)
            → a < u32_mod
            → walk vm'.mem pd a ≡ (
                if a / 4096 == virt / 4096
                then some (phys / 4096 * 4096 + a % 4096)
                else walk vm.mem pd a))
  paging_map_into-update phys_word small present =
      let (vm1, e1, found) =
        paging_map_into-walk vm pd virt phys flags page virt_word phys_word small present has in
      let (vm2, e2, others) = map-Others in
      let same : vm1 ≡ vm2 = some-injective vm1 vm2 (sym e1 ∙ e2) in
      (
        vm2,
        e2,
        λ a word. elim (Bool-cases (a / 4096 == virt / 4096)) [
          | inl e ↦ rw e (rw same at (found a (==→eq (a / 4096) (virt / 4096) e)))
          | inr e ↦ rw e (others a word (==→ne (a / 4096) (virt / 4096) e))
        ],
      )
