-- ===== src/Paging/Returned.antt =====
-- The frames that `paging_free_pd` gives back: the directory, its tables and the pages in them.
use stak_os.Base.{
  ℕ, zero, suc, ◌+◌, ◌-◌, ◌/◌, ◌≤◌, ◌<◌, ◌≡◌, ◌≢◌, inl, inr, true, if◌then◌else◌, Bool-cases, arith,
  ne→==, eq→==,
}
use native.Mathlib.Decide.{ℕ_discrete}
use stak_os.Memory.{Mem}
use stak_os.Pmm.{Pmm, page_size, max_frames, frame_test, pmm_free_frame}
use stak_os.Pmm.Alloc.{IsValid}
use stak_os.Pmm.Free.{free-IsValid, free-clears, free-keeps}
use stak_os.Paging.{
  Vm, entries, identity_pt_count, frame_of, is_present, entry_at, free_frames_loop,
  free_tables_loop, paging_free_pd,
}
use stak_os.Paging.Release.{free_frames_loop-IsValid, free_tables_loop-IsValid}

-- The frame at the address is free, unless it is beyond the bitmap.
abbrev pub IsFree : Pmm → (addr : ℕ) → Type 0
IsFree p addr = addr / page_size < max_frames → frame_test p.bitmap (addr / page_size) ≡ 0

-- No frame that is free in the first state is used in the second one.
abbrev pub KeepsFree : Pmm → Pmm → Type 0
KeepsFree p q = (e : ℕ) → frame_test p.bitmap e ≡ 0 → frame_test q.bitmap e ≡ 0

pub IsFree-keeps : (p q : Pmm) (addr : ℕ) → KeepsFree p q → IsFree p addr → IsFree q addr
IsFree-keeps p q addr keeps free l = keeps (addr / page_size) (free l)

-- The page of entry `j` of a table, if there is one.
abbrev pub PageFree : Mem → Pmm → (pt j : ℕ) → Type 0
PageFree m p pt j = is_present (entry_at m pt j) ≡ true → IsFree p (frame_of (entry_at m pt j))

-- The table of entry `i` of a directory, if there is one, and its pages.
abbrev pub TableFree : Mem → Pmm → (pd i : ℕ) → Type 0
TableFree m p pd i =
    is_present (entry_at m pd i) ≡ true
    → IsFree p (frame_of (entry_at m pd i))
      × ((j : ℕ) → j < entries → PageFree m p (frame_of (entry_at m pd i)) j)

abbrev after_entry : Mem → Pmm → (pt j : ℕ) → Pmm
after_entry m p pt j =
    if is_present (entry_at m pt j) then pmm_free_frame p (frame_of (entry_at m pt j)) else p

abbrev after_table : Mem → Pmm → (pd i : ℕ) → Pmm
after_table m p pd i =
    let pt = frame_of (entry_at m pd i) in
    if is_present (entry_at m pd i)
    then pmm_free_frame (free_frames_loop entries m pt 0 p) pt
    else p

module _ {k : ℕ} (m : Mem) where
  entry-IsValid : (p : Pmm) (pt j : ℕ) → IsValid k p → IsValid k (after_entry m p pt j)
  entry-IsValid p pt j v = elim (Bool-cases (is_present (entry_at m pt j))) [
    | inl e ↦ rw e (free-IsValid v (frame_of (entry_at m pt j)))
    | inr e ↦ rw e v
  ]

  entry-keeps : (p : Pmm) (pt j : ℕ) → IsValid k p → KeepsFree p (after_entry m p pt j)
  entry-keeps p pt j v e free = elim (Bool-cases (is_present (entry_at m pt j))) [
    | inl here ↦ rw here (free-keeps v (frame_of (entry_at m pt j)) e free)
    | inr here ↦ rw here free
  ]

  free_frames_loop-keeps :
      (n pt j : ℕ) (p : Pmm) → IsValid k p → KeepsFree p (free_frames_loop n m pt j p)
  unfolding free_frames_loop
  free_frames_loop-keeps zero pt j p v e free = free
  free_frames_loop-keeps (suc n) pt j p v e free =
      free_frames_loop-keeps n pt (j + 1) (after_entry m p pt j) (entry-IsValid p pt j v) e
        (entry-keeps p pt j v e free)

  free_frames_loop-PageFree :
      (n pt j i : ℕ) (p : Pmm)
      → IsValid k p
      → j ≤ i
      → i < j + n
      → PageFree m (free_frames_loop n m pt j p) pt i
  unfolding free_frames_loop
  free_frames_loop-PageFree zero pt j i p v lo hi here = absurd (omega (arith, lo, hi))
  free_frames_loop-PageFree (suc n) pt j i p v lo hi here = elim (ℕ_discrete i j) [
    | yes e ↦ λ l.
        free_frames_loop-keeps n pt (j + 1) (after_entry m p pt j) (entry-IsValid p pt j v)
          (frame_of (entry_at m pt i) / page_size)
          (rw (← e, here) (free-clears v (frame_of (entry_at m pt i)) l))
    | no ne ↦
        free_frames_loop-PageFree n pt (j + 1) i (after_entry m p pt j) (entry-IsValid p pt j v)
          (omega (arith, lo, ne)) (omega (arith, hi)) here
  ]

  table-IsValid : (p : Pmm) (pd i : ℕ) → IsValid k p → IsValid k (after_table m p pd i)
  table-IsValid p pd i v = elim (Bool-cases (is_present (entry_at m pd i))) [
    | inl e ↦
        let pt = frame_of (entry_at m pd i) in
        rw e (free-IsValid (free_frames_loop-IsValid m entries pt 0 p v) pt)
    | inr e ↦ rw e v
  ]

  table-keeps : (p : Pmm) (pd i : ℕ) → IsValid k p → KeepsFree p (after_table m p pd i)
  table-keeps p pd i v e free = elim (Bool-cases (is_present (entry_at m pd i))) [
    | inl here ↦
        let pt = frame_of (entry_at m pd i) in
        rw here (
          free-keeps (free_frames_loop-IsValid m entries pt 0 p v) pt e
            (free_frames_loop-keeps entries pt 0 p v e free))
    | inr here ↦ rw here free
  ]

  table-TableFree : (p : Pmm) (pd i : ℕ) → IsValid k p → TableFree m (after_table m p pd i) pd i
  table-TableFree p pd i v here =
      let pt = frame_of (entry_at m pd i) in
      let v' = free_frames_loop-IsValid m entries pt 0 p v in
      rw here (
        λ l. free-clears v' pt l,
        λ j l there small.
            free-keeps v' pt (frame_of (entry_at m pt j) / page_size) (
              free_frames_loop-PageFree entries pt 0 j p v (omega arith) (omega arith) there small),
      )

  free_tables_loop-keeps :
      (n pd i : ℕ) (p : Pmm) → IsValid k p → KeepsFree p (free_tables_loop n m pd i p)
  unfolding free_tables_loop
  free_tables_loop-keeps zero pd i p v e free = free
  free_tables_loop-keeps (suc n) pd i p v e free =
      free_tables_loop-keeps n pd (i + 1) (after_table m p pd i) (table-IsValid p pd i v) e
        (table-keeps p pd i v e free)

  free_tables_loop-TableFree :
      (n pd i g : ℕ) (p : Pmm)
      → IsValid k p
      → i ≤ g
      → g < i + n
      → TableFree m (free_tables_loop n m pd i p) pd g
  unfolding free_tables_loop
  free_tables_loop-TableFree zero pd i g p v lo hi = absurd (omega (arith, lo, hi))
  free_tables_loop-TableFree (suc n) pd i g p v lo hi = elim (ℕ_discrete g i) [
    | yes e ↦ λ here.
        let keeps =
          free_tables_loop-keeps n pd (i + 1) (after_table m p pd i) (table-IsValid p pd i v) in
        let done_i : TableFree m (after_table m p pd i) pd g = rw e (table-TableFree p pd i v) in
        let (table, pages) = done_i here in
        (
          λ l. keeps (frame_of (entry_at m pd g) / page_size) (table l),
          λ j small there l.
              keeps (frame_of (entry_at m (frame_of (entry_at m pd g)) j) / page_size)
                (pages j small there l),
        )
    | no ne ↦
        free_tables_loop-TableFree n pd (i + 1) g (after_table m p pd i) (table-IsValid p pd i v)
          (omega (arith, lo, ne)) (omega (arith, hi))
  ]

-- What a released directory leaves: its frame, its own tables and the pages in them are free, and so
-- is every frame that was.
pub record Returned (vm : Vm) (pd : ℕ) (p : Pmm) : Type 0 where
  pub directory : IsFree p pd
  pub tables : (i : ℕ) → identity_pt_count ≤ i → i < entries → TableFree vm.mem p pd i
  pub keeps : KeepsFree vm.pmm p

pub paging_free_pd-Returned :
    {k : ℕ} (vm : Vm) (pd : ℕ)
    → IsValid k vm.pmm
    → pd ≢ 0
    → Returned vm pd (paging_free_pd vm pd).pmm
unfolding paging_free_pd
paging_free_pd-Returned vm pd v nz =
    let n : ℕ = entries - identity_pt_count in
    let p : Pmm = free_tables_loop n vm.mem pd identity_pt_count vm.pmm in
    let v' = free_tables_loop-IsValid vm.mem n pd identity_pt_count vm.pmm v in
    rw (ne→== pd 0 nz) (record {
      directory = free-clears v' pd;
      tables = λ i lo hi here.
          let (table, pages) =
            free_tables_loop-TableFree vm.mem n pd identity_pt_count i vm.pmm v lo (omega arith)
              here in
          (
            λ l. free-keeps v' pd (frame_of (entry_at vm.mem pd i) / page_size) (table l),
            λ j small there l.
                free-keeps v' pd
                  (frame_of (entry_at vm.mem (frame_of (entry_at vm.mem pd i)) j) / page_size)
                  (pages j small there l),
          );
      keeps = λ e free.
          free-keeps v' pd e (free_tables_loop-keeps vm.mem n pd identity_pt_count vm.pmm v e free);
    })

pub paging_free_pd-keeps :
    {k : ℕ} (vm : Vm) (pd : ℕ) → IsValid k vm.pmm → KeepsFree vm.pmm (paging_free_pd vm pd).pmm
unfolding paging_free_pd
paging_free_pd-keeps vm pd v = elim (ℕ_discrete pd 0) [
  | yes z ↦ rw (eq→== pd 0 z) (λ e free. free)
  | no nz ↦ (paging_free_pd-Returned vm pd v nz).keeps
]
