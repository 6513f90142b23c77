-- ===== src/Paging/Release.antt =====
-- A directory that is released gives its frames back.
use stak_os.Base.{
  ℕ, zero, suc, ◌+◌, ◌-◌, ◌/◌, ◌%◌, ◌≤◌, ◌<◌, ◌≡◌, ◌≢◌, inl, inr, refl, ap, ◌==◌, Bool-cases, none,
  some, Option, arith, ne→==,
}
use stak_os.Memory.{Mem}
use stak_os.Pmm.{Pmm, max_frames, frame_test, pmm_alloc_frame, pmm_free_frame}
use stak_os.Pmm.Alloc.{IsValid, Allocates, alloc_result}
use stak_os.Pmm.Scan.{FirstFree}
use stak_os.Pmm.Free.{free-IsValid, free-alloc}
use stak_os.Paging.{
  Vm, entries, identity_pt_count, frame_of, is_present, entry_at, copy_kernel,
  paging_create_user_pd, free_frames_loop, free_tables_loop, paging_free_pd,
}
use stak_os.Paging.Share.{IsFresh, alloc-IsFresh, copied_zero}

module _ {k : ℕ} (m : Mem) where
  pub free_frames_loop-IsValid :
      (n pt j : ℕ) (p : Pmm) → IsValid k p → IsValid k (free_frames_loop n m pt j p)
  unfolding free_frames_loop
  free_frames_loop-IsValid zero pt j p v = v
  free_frames_loop-IsValid (suc n) pt j p v = elim (Bool-cases (is_present (entry_at m pt j))) [
    | inl e ↦ rw e (
        free_frames_loop-IsValid n pt (j + 1) (pmm_free_frame p (frame_of (entry_at m pt j)))
          (free-IsValid v (frame_of (entry_at m pt j))))
    | inr e ↦ rw e (free_frames_loop-IsValid n pt (j + 1) p v)
  ]

  pub free_tables_loop-IsValid :
      (n pd i : ℕ) (p : Pmm) → IsValid k p → IsValid k (free_tables_loop n m pd i p)
  unfolding free_tables_loop
  free_tables_loop-IsValid zero pd i p v = v
  free_tables_loop-IsValid (suc n) pd i p v =
      let pt = frame_of (entry_at m pd i) in
      let inner : Pmm = free_frames_loop entries m pt 0 p in
      elim (Bool-cases (is_present (entry_at m pd i))) [
        | inl e ↦ rw e (
            free_tables_loop-IsValid n pd (i + 1) (pmm_free_frame inner pt)
              (free-IsValid (free_frames_loop-IsValid entries pt 0 p v) pt))
        | inr e ↦ rw e (free_tables_loop-IsValid n pd (i + 1) p v)
      ]

-- Without entries of its own a directory has no tables to free.
free_tables_loop-empty :
    (n : ℕ) (m : Mem) (pd i : ℕ) (p : Pmm)
    → ((j : ℕ) → i ≤ j → j < i + n → entry_at m pd j ≡ 0)
    → free_tables_loop n m pd i p ≡ p
unfolding free_tables_loop
free_tables_loop-empty zero m pd i p empty = refl
free_tables_loop-empty (suc n) m pd i p empty =
    rw (empty i (omega arith) (omega arith))
      (free_tables_loop-empty n m pd (i + 1) p (λ j lo hi. empty j (omega arith) (omega arith)))

-- With a valid counter, releasing any directory keeps the counter valid.
pub paging_free_pd-IsValid :
    {k : ℕ} (vm : Vm) (pd : ℕ) → IsValid k vm.pmm → IsValid k (paging_free_pd vm pd).pmm
unfolding paging_free_pd
paging_free_pd-IsValid vm pd v = elim (Bool-cases (pd == 0)) [
  | inl e ↦ rw e v
  | inr e ↦ rw e (
      free-IsValid
        (free_tables_loop-IsValid vm.mem (entries - identity_pt_count) pd identity_pt_count vm.pmm
          v)
        pd)
]

-- The release writes no memory.
pub paging_free_pd-mem : (vm : Vm) (pd : ℕ) → (paging_free_pd vm pd).mem ≡ vm.mem
unfolding paging_free_pd
paging_free_pd-mem vm pd = elim (Bool-cases (pd == 0)) [ inl e ↦ rw e refl | inr e ↦ rw e refl ]

-- With a valid counter and the kernel's directory a page in use, a directory that
-- `paging_create_user_pd` makes and `paging_free_pd` releases again, nothing having been mapped in it,
-- leaves every bit of the bitmap and the counter as they were.
pub create-free :
    {k : ℕ} (vm : Vm)
    → IsValid k vm.pmm
    → (pmm_alloc_frame vm.pmm).0 ≢ 0
    → vm.kernel_pd % 4096 ≡ 0
    → frame_test vm.pmm.bitmap (vm.kernel_pd / 4096) ≡ 1
    → let (pd, vm1) = paging_create_user_pd vm in
      let after = (paging_free_pd vm1 pd).pmm in
      ((e : ℕ) → frame_test after.bitmap e ≡ frame_test vm.pmm.bitmap e)
      × (after.free_frames ≡ vm.pmm.free_frames)
unfolding paging_create_user_pd paging_free_pd
create-free vm v nz kp used =
    let frame = (pmm_alloc_frame vm.pmm).0 in
    let p1 : Pmm = (pmm_alloc_frame vm.pmm).1 in
    let fresh : IsFresh vm.pmm frame = alloc-IsFresh v nz in
    let none_mapped =
      free_tables_loop-empty (entries - identity_pt_count)
        (copy_kernel entries vm.mem vm.kernel_pd frame) frame identity_pt_count p1
        (λ j lo hi.
          copied_zero vm.mem vm.kernel_pd frame j kp fresh.page (fresh.unused vm.kernel_pd used) lo
            (omega arith)) in
    let back = go (alloc_result v).0 (alloc_result v).1 (alloc_result v).2 in
    rw (ne→== frame 0 nz) (rw (ne→== frame 0 nz, none_mapped) back)
  where
    go :
        (o : Option ℕ)
        → FirstFree vm.pmm.bitmap 0 max_frames o
        → Allocates vm.pmm o
        → let (a, p') = pmm_alloc_frame vm.pmm in
          ((e : ℕ) → frame_test (pmm_free_frame p' a).bitmap e ≡ frame_test vm.pmm.bitmap e)
          × ((pmm_free_frame p' a).free_frames ≡ vm.pmm.free_frames)
    go none _ a = absurd (nz (ap (λ r. r.0) a))
    go (some f) (_, l, free, _) a = free-alloc v f l free
