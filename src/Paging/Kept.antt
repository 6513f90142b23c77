-- ===== src/Paging/Kept.antt =====
-- Writes of `paging_map_into` that leave the walk of other addresses as it was.
use stak_os.Base.{
  ℕ, zero, suc, ◌+◌, ◌*◌, ◌/◌, ◌%◌, ◌<◌, ◌≡◌, ◌≢◌, inl, inr, refl, sym, ap, ◌∙◌, true, ◌&&◌, ltb,
  leb, if◌then◌else◌, bit_or, arith, Bool-cases,
}
use native.Mathlib.Decide.{ℕ_discrete}
use stak_os.Base.Words.{u32_mod}
use stak_os.Base.Words.Bits.{bit_and-mask}
use stak_os.Memory.{Mem, load32, load32-lt, load32-store32_ne}
use stak_os.Memory.Writes.{load32-store32}
use stak_os.Paging.{
  entries, frame_of, is_present, entry_at, put_entry, zero_entries, pd_index, pt_index,
}
use stak_os.Paging.Entries.{frame_of_lem, page_apart, pd_index-lt, pt_index-lt}
use stak_os.Paging.Walk.{walk, Entry-user}

-- The tables of a directory lie apart from it and from one another.
pub record Separate (m : Mem) (pd : ℕ) : Type 0 where
  pub apart :
      (i : ℕ) → i < 1024 → is_present (entry_at m pd i) ≡ true → frame_of (entry_at m pd i) ≢ pd
  pub distinct :
      (i j : ℕ)
      → i < 1024
      → j < 1024
      → i ≢ j
      → is_present (entry_at m pd i) ≡ true
      → is_present (entry_at m pd j) ≡ true
      → frame_of (entry_at m pd i) ≢ frame_of (entry_at m pd j)

frame_of-page : (m : Mem) (t i : ℕ) → frame_of (entry_at m t i) % 4096 ≡ 0
frame_of-page m t i = omega (arith, frame_of_lem (entry_at m t i) (load32-lt m (t + 4 * i)))

-- A walk reads one entry of the directory and one of a table.
walk-same :
    (m m' : Mem) (pd a : ℕ)
    → is_present (entry_at m' pd (pd_index a)) ≡ is_present (entry_at m pd (pd_index a))
    → frame_of (entry_at m' pd (pd_index a)) ≡ frame_of (entry_at m pd (pd_index a))
    → (is_present (entry_at m pd (pd_index a)) ≡ true
        → entry_at m' (frame_of (entry_at m pd (pd_index a))) (pt_index a)
          ≡ entry_at m (frame_of (entry_at m pd (pd_index a))) (pt_index a))
    → walk m' pd a ≡ walk m pd a
unfolding walk
walk-same m m' pd a p q r = elim (Bool-cases (is_present (entry_at m pd (pd_index a)))) [
  | inl e ↦ rw (p, q, e, r e) refl
  | inr e ↦ rw (p, e) refl
]

other_index :
    (a virt : ℕ) → a / 4096 ≢ virt / 4096 → pd_index a ≡ pd_index virt → pt_index a ≢ pt_index virt
unfolding pd_index pt_index
other_index a virt ne e e' =
    ne (omega (arith, e, e', bit_and-mask 10 (a / 4096), bit_and-mask 10 (virt / 4096)))

module _ (m : Mem) (pd virt a : ℕ) (page : pd % 4096 ≡ 0) (virt_word : virt < u32_mod)
    (a_word : a < u32_mod) where
  -- A write to the entry of `virt` in its table.
  pub walk-put :
      (v : ℕ)
      → a / 4096 ≢ virt / 4096
      → frame_of (entry_at m pd (pd_index virt)) ≢ pd
      → (pd_index a ≢ pd_index virt
          → is_present (entry_at m pd (pd_index a)) ≡ true
          → frame_of (entry_at m pd (pd_index virt)) ≢ frame_of (entry_at m pd (pd_index a)))
      → walk (put_entry m (frame_of (entry_at m pd (pd_index virt))) (pt_index virt) v) pd a
        ≡ walk m pd a
  walk-put v other apart distinct =
      let t = frame_of (entry_at m pd (pd_index virt)) in
      let t_page : t % 4096 ≡ 0 = frame_of-page m pd (pd_index virt) in
      let ta = frame_of (entry_at m pd (pd_index a)) in
      let m' : Mem = put_entry m t (pt_index virt) v in
      let pde : entry_at m' pd (pd_index a) ≡ entry_at m pd (pd_index a) =
        load32-store32_ne m (t + 4 * pt_index virt) (pd + 4 * pd_index a) v (
          page_apart t pd (pt_index virt) (pd_index a) t_page page apart (pt_index-lt virt)
            (pd_index-lt a a_word)) in
      walk-same m m' pd a (ap is_present pde) (ap frame_of pde) (λ there.
        elim (ℕ_discrete (pd_index a) (pd_index virt)) [
          | yes e ↦
              let same : ta ≡ t = ap (λ i. frame_of (entry_at m pd i)) e in
              let ne : pt_index a ≢ pt_index virt = other_index a virt other e in
              load32-store32_ne m (t + 4 * pt_index virt) (ta + 4 * pt_index a) v
                (ground (arith, same, ne))
          | no ne ↦ load32-store32_ne m (t + 4 * pt_index virt) (ta + 4 * pt_index a) v (
              page_apart t ta (pt_index virt) (pt_index a) t_page (frame_of-page m pd (pd_index a))
                (distinct ne there) (pt_index-lt virt) (pt_index-lt a))
        ])

  -- A write to the entry of `virt` in the directory.
  pub walk-pde_other :
      (v : ℕ)
      → pd_index a ≢ pd_index virt
      → (is_present (entry_at m pd (pd_index a)) ≡ true
          → frame_of (entry_at m pd (pd_index a)) ≢ pd)
      → walk (put_entry m pd (pd_index virt) v) pd a ≡ walk m pd a
  walk-pde_other v ne apart =
      let ta = frame_of (entry_at m pd (pd_index a)) in
      let pde : entry_at (put_entry m pd (pd_index virt) v) pd (pd_index a)
          ≡ entry_at m pd (pd_index a) =
        load32-store32_ne m (pd + 4 * pd_index virt) (pd + 4 * pd_index a) v (omega (arith, ne)) in
      walk-same m (put_entry m pd (pd_index virt) v) pd a (ap is_present pde) (ap frame_of pde)
        (λ there. load32-store32_ne m (pd + 4 * pd_index virt) (ta + 4 * pt_index a) v (
          page_apart pd ta (pd_index virt) (pt_index a) page (frame_of-page m pd (pd_index a))
            (λ e. apart there (sym e)) (pd_index-lt virt virt_word) (pt_index-lt a)))

  pub walk-pde_user :
      (let pde = entry_at m pd (pd_index virt) in
        pd_index a ≡ pd_index virt
        → is_present pde ≡ true
        → frame_of pde ≢ pd
        → walk (put_entry m pd (pd_index virt) (bit_or pde 4)) pd a ≡ walk m pd a)
  walk-pde_user same there apart =
      let pde = entry_at m pd (pd_index virt) in
      let m' : Mem = put_entry m pd (pd_index virt) (bit_or pde 4) in
      let e = Entry-user m pd virt there in
      let present' : is_present (entry_at m' pd (pd_index a)) ≡ true = rw same e.there in
      let present : is_present (entry_at m pd (pd_index a)) ≡ true = rw same there in
      let table : frame_of (entry_at m' pd (pd_index a)) ≡ frame_of (entry_at m pd (pd_index a)) =
        rw same e.table in
      let ta = frame_of (entry_at m pd (pd_index a)) in
      let ta_apart : ta ≢ pd = rw same apart in
      walk-same m m' pd a (present' ∙ sym present) table (λ _.
        load32-store32_ne m (pd + 4 * pd_index virt) (ta + 4 * pt_index a) (bit_or pde 4) (
          page_apart pd ta (pd_index virt) (pt_index a) page (frame_of-page m pd (pd_index a))
            (λ z. ta_apart (sym z)) (pd_index-lt virt virt_word) (pt_index-lt a)))

pub zero_entries_lem :
    (n : ℕ) (m : Mem) (t b : ℕ)
    → t % 4 ≡ 0
    → b % 4 ≡ 0
    → load32 (zero_entries n m t) b ≡ (if leb t b && ltb b (t + 4 * n) then 0 else load32 m b)
unfolding zero_entries
zero_entries_lem zero m t b p q = ground arith
zero_entries_lem (suc n) m t b p q =
    load32-store32 (zero_entries n m t) (t + 4 * n) b 0 (omega (arith, p)) q
    ∙ ground (arith, zero_entries_lem n m t b p q)

-- The page of a new table is zeroed.
module _ (m : Mem) (pd fresh a : ℕ) (page : pd % 4096 ≡ 0) (fresh_page : fresh % 4096 ≡ 0)
    (a_word : a < u32_mod) (ne : fresh ≢ pd) where
  pub zeroed-pde :
      (i : ℕ) → i < 1024 → entry_at (zero_entries entries m fresh) pd i ≡ entry_at m pd i
  zeroed-pde i l =
      zero_entries_lem entries m fresh (pd + 4 * i) (omega (arith, fresh_page))
        (omega (arith, page))
      ∙ ground (arith, page, fresh_page, ne)

  pub walk-zeroed :
      (is_present (entry_at m pd (pd_index a)) ≡ true
        → frame_of (entry_at m pd (pd_index a)) ≢ fresh)
      → walk (zero_entries entries m fresh) pd a ≡ walk m pd a
  walk-zeroed apart =
      let pde = zeroed-pde (pd_index a) (pd_index-lt a a_word) in
      let ta = frame_of (entry_at m pd (pd_index a)) in
      let ta_page : ta % 4096 ≡ 0 = frame_of-page m pd (pd_index a) in
      let small : pt_index a < 1024 = pt_index-lt a in
      walk-same m (zero_entries entries m fresh) pd a (ap is_present pde) (ap frame_of pde)
        (λ there.
          let off : ta ≢ fresh = apart there in
          zero_entries_lem entries m fresh (ta + 4 * pt_index a) (omega (arith, fresh_page))
            (omega (arith, ta_page))
          ∙ ground (arith, ta_page, fresh_page, off, small))
