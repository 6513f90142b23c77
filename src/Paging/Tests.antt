-- ===== src/Paging/Tests.antt =====
-- A directory at 4096 whose entry 1 leads to a table at 8192.
use stak_os.Base.{
  ◌≢◌, ap, sym, ◌∙◌, ◌*◌, ◌≤◌, ◌<◌, none, ℕ, ◌+◌, ◌/◌, ◌%◌, ◌≡◌, refl, inl, inr, false, some, true,
  [], ◌==◌, if◌then◌else◌, arith,
}
use stak_os.Memory.{Mem, load32}
use stak_os.Paging.{
  Vm, frame_of, is_present, entry_at, pd_index, paging_map_into, paging_init, paging_create_user_pd,
  paging_free_pd,
}
use stak_os.Base.Words.{u32_mod}
use stak_os.Pmm.{frame_test, pmm_alloc_frame}
use stak_os.Pmm.Alloc.{alloc-lowest}
use stak_os.Pmm.Sample.{sample_pmm, sample_pmm-IsValid, zero_used, eight_free}
use stak_os.Paging.Share.{BothFind, create_user_pd-shares}
use stak_os.Paging.Release.{create-free}
use stak_os.Paging.Identity.{paging_init-walk}
use stak_os.Paging.Walk.{walk}
use stak_os.Paging.Kept.{Separate}
use stak_os.Paging.Update.{paging_map_into-update}

abbrev memory : Mem
memory a = if a == 4100 then 3 else if a == 4101 then 32 else 0

abbrev vm : Vm
vm = record {
  mem = memory;
  pmm = record { bitmap = []; total_frames = 0; free_frames = 0 };
  kernel_pd = 0;
}

present : is_present (entry_at memory 4096 (pd_index 4194304)) ≡ true
unfolding load32 pd_index
present = refl

table : frame_of (entry_at memory 4096 (pd_index 4194304)) ≡ 8192
unfolding load32 pd_index
table = refl

one_present : (i : ℕ) → i < 1024 → is_present (entry_at memory 4096 i) ≡ true → i ≡ 1
unfolding load32
one_present i l e = ground (arith, e, l)

abbrev blank : Vm
blank = record {
  mem = λ a. 0;
  pmm = record { bitmap = []; total_frames = 0; free_frames = 0 };
  kernel_pd = 4096;
}

paging_init-walk_example :
    ((a : ℕ) → a < 0x200_0000 → walk (paging_init blank 8192).mem 4096 a ≡ some a)
    × ((a : ℕ)
        → 0x200_0000 ≤ a
        → a < u32_mod
        → load32 blank.mem (4096 + 4 * (a / 4194304)) ≡ 0
        → walk (paging_init blank 8192).mem 4096 a ≡ none)
paging_init-walk_example = paging_init-walk blank 8192 refl refl (omega arith) (inl (omega arith))

-- The directory at 4096 is the kernel's, and frame 8 the next one.
abbrev shared : Vm
shared = record { mem = memory; pmm = sample_pmm; kernel_pd = 4096 }

next_frame : (pmm_alloc_frame sample_pmm).0 ≢ 0
next_frame z =
    let (f, _, free, _, a) = alloc-lowest sample_pmm-IsValid 8 (omega arith) eight_free in
    let first : f ≡ 0 = omega (arith, a.0, z) in
    omega (arith, zero_used, free, ap (λ (x : ℕ). frame_test sample_pmm.bitmap x) first)

one_used : frame_test sample_pmm.bitmap 1 ≡ 1
unfolding frame_test
one_used = refl

two_used :
    frame_test sample_pmm.bitmap (frame_of (entry_at memory 4096 (pd_index 4194304)) / 4096) ≡ 1
unfolding frame_test load32 pd_index
two_used = refl

table_at :
    (i : ℕ)
    → i < 1024
    → is_present (entry_at memory 4096 i) ≡ true
    → frame_of (entry_at memory 4096 i) ≡ 8192
unfolding load32
table_at i l here = rw (one_present i l here) refl

memory-Separate : Separate memory 4096
memory-Separate = record {
  apart = λ i l here z. omega (arith, table_at i l here, z);
  distinct =
      λ i j l l' ne here there. absurd (ne (one_present i l here ∙ sym (one_present j l' there)));
}

-- Address 0x80_0000 has no table yet.
no_table : is_present (entry_at memory 4096 (pd_index 0x80_0000)) ≡ false
unfolding load32 pd_index
no_table = refl

next_frame_cases :
    (f : ℕ) × ((pmm_alloc_frame sample_pmm).0 ≡ f * 4096) × (f ≤ 8) × (f ≢ 1) × (f ≢ 2)
unfolding load32 pd_index
next_frame_cases =
    let (f, l, free, _, a) = alloc-lowest sample_pmm-IsValid 8 (omega arith) eight_free in
    let used : (g : ℕ) → frame_test sample_pmm.bitmap g ≡ 1 → f ≢ g =
      λ g u e. omega (arith, u, free, ap (λ (x : ℕ). frame_test sample_pmm.bitmap x) e) in
    (f, a.0, l, used 1 one_used, used 2 two_used)

paging_map_into-update_example :
    (vm' : Vm) × (paging_map_into shared 4096 0x80_0000 20480 7 ≡ some vm')
    × ((a : ℕ)
        → a < u32_mod
        → walk vm'.mem 4096 a
          ≡ (if a / 4096 == 2048 then some (20480 + a % 4096) else walk memory 4096 a))
paging_map_into-update_example =
    let (f, at, l, ne1, ne2) = next_frame_cases in
    paging_map_into-update shared 4096 0x80_0000 20480 7 refl (omega arith)
      (inr (no_table, next_frame, omega (arith, at, ne1), omega (arith, at), omega (arith, at, l)))
      memory-Separate (λ i l here z. omega (arith, table_at i l here, z, at, ne2)) (omega arith)
      (omega arith) refl

create_user_pd-shares_example :
    let (pd, vm1) = paging_create_user_pd shared in
    (vm' : Vm) × (paging_map_into vm1 pd 0x40_0000 20480 7 ≡ some vm')
    × BothFind pd 4096 0x40_0000 20480 vm'.mem
create_user_pd-shares_example =
    create_user_pd-shares shared 0x40_0000 20480 7 sample_pmm-IsValid next_frame (omega arith)
      (omega arith) (omega arith) refl refl one_used present (omega (arith, table), two_used)

create-free_example :
    let (pd, vm1) = paging_create_user_pd shared in
    let after = (paging_free_pd vm1 pd).pmm in
    ((e : ℕ) → frame_test after.bitmap e ≡ frame_test sample_pmm.bitmap e) × (after.free_frames ≡ 1)
create-free_example = create-free shared sample_pmm-IsValid next_frame refl one_used
