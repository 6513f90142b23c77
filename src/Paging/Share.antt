-- ===== src/Paging/Share.antt =====
-- What the directory of a process shares with the kernel's.
use stak_os.Base.{
  ℕ, zero, suc, ◌+◌, ◌-◌, ◌*◌, ◌/◌, ◌%◌, ◌≤◌, ◌<◌, ◌≡◌, ◌≢◌, inl, inr, refl, sym, ap, ◌∙◌, true,
  none, some, Option, not, ◌&&◌, ◌==◌, ltb, leb, if◌then◌else◌, bit_and, bit_or, arith, Bool-cases,
  ne→==, ==→eq,
}
use mathlib.Core.Path.{subst}
use stak_os.Base.Words.{u32_mod}
use stak_os.Memory.{Mem, load32, load32-lt, load32-store32_ne}
use stak_os.Memory.Writes.{load32-store32}
use stak_os.Pmm.{Pmm, max_frames, frame_test, pmm_alloc_frame}
use stak_os.Pmm.Alloc.{IsValid, Allocates, alloc_result}
use stak_os.Pmm.Scan.{FirstFree}
use stak_os.Paging.{
  Vm, entries, identity_pt_count, frame_of, is_present, entry_at, put_entry, pd_index, pt_index,
  copy_kernel, paging_create_user_pd, paging_map_into,
}
use stak_os.Paging.Entries.{page_apart, pd_index-lt}
use stak_os.Paging.Walk.{walk, walk-mapped, Entry, Entry-user}

-- A frame that the allocator hands out: a page, and none of the frames in use.
pub record IsFresh (p : Pmm) (frame : ℕ) : Type 0 where
  pub page : frame % 4096 ≡ 0
  pub word : frame < u32_mod
  pub unused : (q : ℕ) → frame_test p.bitmap (q / 4096) ≡ 1 → frame ≢ q

pub alloc-IsFresh :
    {k : ℕ} {p : Pmm} → IsValid k p → (pmm_alloc_frame p).0 ≢ 0 → IsFresh p (pmm_alloc_frame p).0
alloc-IsFresh {k} {p} v nz = go (alloc_result v).0 (alloc_result v).1 (alloc_result v).2
  where
    go :
        (o : Option ℕ)
        → FirstFree p.bitmap 0 max_frames o
        → Allocates p o
        → IsFresh p (pmm_alloc_frame p).0
    go none _ a = absurd (nz (ap (λ r. r.0) a))
    go (some f) (_, l, free, _) (e, _, _, _) = record {
      page = omega (arith, e);
      word = omega (arith, e, l);
      unused = λ q used same.
          let at_f : q / 4096 ≡ f = omega (arith, same, e) in
          omega (arith, used, free, ap (λ x. frame_test p.bitmap x) at_f);
    }

-- The new directory holds the first eight entries of the kernel's and 0 elsewhere.
copy_kernel_lem :
    (n : ℕ) (m : Mem) (kernel pd b : ℕ)
    → kernel % 4096 ≡ 0
    → pd % 4096 ≡ 0
    → pd ≢ kernel
    → b % 4 ≡ 0
    → n ≤ entries
    → load32 (copy_kernel n m kernel pd) b ≡ (
        if leb pd b && ltb b (pd + 4 * n)
        then if ltb ((b - pd) / 4) identity_pt_count then load32 m (kernel + (b - pd)) else 0
        else load32 m b)
unfolding copy_kernel
copy_kernel_lem zero m kernel pd b kp pp ne word l = ground arith
copy_kernel_lem (suc n) m kernel pd b kp pp ne word l =
    let before : Mem = copy_kernel n m kernel pd in
    let same : load32 before (kernel + 4 * n) ≡ load32 m (kernel + 4 * n) =
      copy_kernel_lem n m kernel pd (kernel + 4 * n) kp pp ne (omega arith) (omega arith)
      ∙ ground
          (arith, page_apart kernel pd n n kp pp (λ e. ne (sym e)) (omega arith) (omega arith)) in
    let v = if ltb n identity_pt_count then load32 before (kernel + 4 * n) else 0 in
    load32-store32 before (pd + 4 * n) b v (omega arith) word
    ∙ elim (Bool-cases (pd + 4 * n == b)) [
      | inl e ↦
          let at_b : b ≡ pd + 4 * n = sym (==→eq (pd + 4 * n) b e) in
          let there : kernel + (pd + 4 * n - pd) ≡ kernel + 4 * n = omega arith in
          rw (at_b, there) (ground (arith, same, load32-lt m (kernel + 4 * n)))
      | inr e ↦ rw e (copy_kernel_lem n m kernel pd b kp pp ne word (omega arith) ∙ ground arith)
    ]

module _ (m : Mem) (kernel pd i : ℕ) (kp : kernel % 4096 ≡ 0) (pp : pd % 4096 ≡ 0)
    (ne : pd ≢ kernel) (l : i < identity_pt_count) where
  copied : entry_at (copy_kernel entries m kernel pd) pd i ≡ entry_at m kernel i
  copied =
      let there : kernel + (pd + 4 * i - pd) ≡ kernel + 4 * i = omega arith in
      copy_kernel_lem entries m kernel pd (pd + 4 * i) kp pp ne (omega arith) (omega arith)
      ∙ rw there (ground arith)

  kept : entry_at (copy_kernel entries m kernel pd) kernel i ≡ entry_at m kernel i
  kept =
      copy_kernel_lem entries m kernel pd (kernel + 4 * i) kp pp ne (omega arith) (omega arith)
      ∙ ground (arith, page_apart kernel pd i i kp pp (λ e. ne (sym e)) (omega arith) (omega arith))

-- The new directory has nothing of its own.
pub copied_zero :
    (m : Mem) (kernel pd i : ℕ)
    → kernel % 4096 ≡ 0
    → pd % 4096 ≡ 0
    → pd ≢ kernel
    → identity_pt_count ≤ i
    → i < entries
    → entry_at (copy_kernel entries m kernel pd) pd i ≡ 0
copied_zero m kernel pd i kp pp ne lo hi =
    copy_kernel_lem entries m kernel pd (pd + 4 * i) kp pp ne (omega arith) (omega arith)
    ∙ ground arith

-- Two directories lead every address of the page of `virt` to the page of `phys`.
abbrev pub BothFind : (pd kernel virt phys : ℕ) → Mem → Type 0
BothFind pd kernel virt phys m =
    (a : ℕ)
    → a / 4096 ≡ virt / 4096
    → (walk m pd a ≡ some (phys / 4096 * 4096 + a % 4096))
      × (walk m kernel a ≡ some (phys / 4096 * 4096 + a % 4096))

-- A directory and the kernel's that lead to one table for `virt`: the last write of a mapping shows in
-- both.
module _ (m : Mem) (pd kernel virt phys flags table : ℕ) (pd_page : pd % 4096 ≡ 0)
    (kernel_page : kernel % 4096 ≡ 0) (virt_word : virt < u32_mod) (phys_word : phys < u32_mod)
    (small : flags < 4096) (present : flags % 2 ≡ 1) (apart : table ≢ pd)
    (kernel_apart : table ≢ kernel) where
  both_walk :
      Entry m pd virt table
      → Entry m kernel virt table
      → BothFind pd kernel virt phys (
          put_entry m
            (frame_of (entry_at m pd (pd_index virt)))
            (pt_index virt)
            (bit_or (frame_of phys) flags))
  both_walk e e' a same =
      let one : frame_of (entry_at m pd (pd_index virt))
          ≡ frame_of (entry_at m kernel (pd_index virt)) =
        e.table ∙ sym e'.table in
      (
        walk-mapped m pd virt phys flags pd_page virt_word phys_word small present a e.there
            (λ z. apart (sym e.table ∙ z)) same,
        rw one (
            walk-mapped m kernel virt phys flags kernel_page virt_word phys_word small present a
              e'.there (λ z. kernel_apart (sym e'.table ∙ z)) same),
      )

-- A write to another page keeps the entry of a directory.
Entry-other :
    (m : Mem) (pd kernel virt table v : ℕ)
    → pd % 4096 ≡ 0
    → kernel % 4096 ≡ 0
    → pd ≢ kernel
    → virt < u32_mod
    → Entry m kernel virt table
    → Entry (put_entry m pd (pd_index virt) v) kernel virt table
Entry-other m pd kernel virt table v pp kp ne word e =
    let i = pd_index virt in
    let l : i < 1024 = pd_index-lt virt word in
    let same : entry_at (put_entry m pd i v) kernel i ≡ entry_at m kernel i =
      load32-store32_ne m (pd + 4 * i) (kernel + 4 * i) v (page_apart pd kernel i i pp kp ne l l) in
    record { there = rw same e.there; table = rw same e.table }

map_shared :
    (vm : Vm) (pd kernel virt phys flags table : ℕ)
    → pd % 4096 ≡ 0
    → kernel % 4096 ≡ 0
    → pd ≢ kernel
    → virt < u32_mod
    → phys < u32_mod
    → flags < 4096
    → flags % 2 ≡ 1
    → table ≢ pd
    → table ≢ kernel
    → Entry vm.mem pd virt table
    → Entry vm.mem kernel virt table
    → (vm' : Vm) × (paging_map_into vm pd virt phys flags ≡ some vm')
      × BothFind pd kernel virt phys vm'.mem
unfolding paging_map_into
map_shared vm pd kernel virt phys flags table pp kp ne vw pw small odd apart apart' e e' =
    let i = pd_index virt in
    let pde = entry_at vm.mem pd i in
    elim (Bool-cases (not (bit_and flags 4 == 0))) [
      | inl f ↦
          let e1 : Entry (put_entry vm.mem pd i (bit_or pde 4)) pd virt table =
            subst (λ t. Entry (put_entry vm.mem pd i (bit_or pde 4)) pd virt t) e.table
              (Entry-user vm.mem pd virt e.there) in
          rw (e.there, f)
            (
              _,
              refl,
              both_walk (put_entry vm.mem pd i (bit_or pde 4)) pd kernel virt phys flags table pp kp
                  vw pw small odd apart apart' e1
                  (Entry-other vm.mem pd kernel virt table (bit_or pde 4) pp kp ne vw e'),
            )
      | inr f ↦
          rw (e.there, f)
            (
              _,
              refl,
              both_walk vm.mem pd kernel virt phys flags table pp kp vw pw small odd apart apart' e
                  e',
            )
    ]

-- With a valid counter and a frame for the new directory, and the kernel's directory and its table for
-- a virtual address below 32 MB in two pages that are in use: when `paging_create_user_pd` has made a
-- directory, `paging_map_into` of that address into it succeeds, and both the new directory and the
-- kernel's lead every address of the page to the new frame.
pub create_user_pd-shares :
    {k : ℕ} (vm : Vm) (virt phys flags : ℕ)
    → IsValid k vm.pmm
    → (pmm_alloc_frame vm.pmm).0 ≢ 0
    → virt < 0x200_0000
    → phys < u32_mod
    → flags < 4096
    → flags % 2 ≡ 1
    → vm.kernel_pd % 4096 ≡ 0
    → frame_test vm.pmm.bitmap (vm.kernel_pd / 4096) ≡ 1
    → is_present (entry_at vm.mem vm.kernel_pd (pd_index virt)) ≡ true
    → (let table = frame_of (entry_at vm.mem vm.kernel_pd (pd_index virt)) in
        (table ≢ vm.kernel_pd) × (frame_test vm.pmm.bitmap (table / 4096) ≡ 1))
    → let (pd, vm1) = paging_create_user_pd vm in
      (vm' : Vm) × (paging_map_into vm1 pd virt phys flags ≡ some vm')
      × BothFind pd vm.kernel_pd virt phys vm'.mem
unfolding paging_create_user_pd pd_index
create_user_pd-shares vm virt phys flags v nz low pw small odd kp used there (apart', table_used) =
    let frame = (pmm_alloc_frame vm.pmm).0 in
    let fresh : IsFresh vm.pmm frame = alloc-IsFresh v nz in
    let i = virt / 4194304 in
    let ne : frame ≢ vm.kernel_pd = fresh.unused vm.kernel_pd used in
    let m : Mem = copy_kernel entries vm.mem vm.kernel_pd frame in
    let pde = entry_at vm.mem vm.kernel_pd i in
    let same : entry_at m frame i ≡ pde =
      copied vm.mem vm.kernel_pd frame i kp fresh.page ne (omega arith) in
    let same' : entry_at m vm.kernel_pd i ≡ pde =
      kept vm.mem vm.kernel_pd frame i kp fresh.page ne (omega arith) in
    rw (ne→== frame 0 nz) (
      map_shared (record vm { mem = m; pmm = (pmm_alloc_frame vm.pmm).1 }) frame vm.kernel_pd virt
        phys flags (frame_of pde) fresh.page kp ne (omega arith) pw small odd
        (λ z. fresh.unused (frame_of pde) table_used (sym z)) apart'
        (record { there = rw same there; table = rw same refl })
        (record { there = rw same' there; table = rw same' refl }))
