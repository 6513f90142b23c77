-- ===== src/Paging.antt =====
-- kernel/paging.c: page directories and page tables in physical memory, which the kernel reaches
-- through its identity map, so that a physical address is a pointer. `none` is a call of `kpanic`,
-- which halts. The TLB is not modelled.
mod Entries
pub mod Walk
pub mod Identity
pub mod Share
pub mod Release
pub mod Returned
pub mod Kept
pub mod Update
mod Tests
use stak_os.Base.{
  ℕ, zero, suc, ◌+◌, ◌-◌, ◌*◌, Bool, not, Option, none, some, ◌==◌, if◌then◌else◌, ltb, bit_and,
  bit_or,
}
use stak_os.Base.Words.{shr}
use stak_os.Memory.{Mem, load8, store8, load32, store32}
use stak_os.Pmm.{Pmm, pmm_alloc_frame, pmm_free_frame}

-- `kernel_pd` is the address of the array of this name.
pub record Vm : Type 0 where
  pub mem : Mem
  pub pmm : Pmm
  pub kernel_pd : ℕ

abbrev pub entries : ℕ
entries = 1024

abbrev pub identity_pt_count : ℕ
identity_pt_count = 8

-- `x & ~0xFFF`
abbrev pub frame_of : ℕ → ℕ
frame_of x = bit_and x 4294963200

abbrev pub is_present : ℕ → Bool
is_present entry = not (bit_and entry 1 == 0)

abbrev pub entry_at : Mem → (table i : ℕ) → ℕ
entry_at m table i = load32 m (table + 4 * i)

abbrev pub put_entry : Mem → (table i v : ℕ) → Mem
put_entry m table i v = store32 m (table + 4 * i) v

-- The first `n` entries of a new table are 0.
pub zero_entries : (n : ℕ) → Mem → (table : ℕ) → Mem
zero_entries zero m table = m
zero_entries (suc n) m table = put_entry (zero_entries n m table) table n 0

pub pd_index : ℕ → ℕ
pd_index virt = shr virt 22

pub pt_index : ℕ → ℕ
pt_index virt = bit_and (shr virt 12) 1023

pub paging_map : Vm → (virt phys : ℕ) → Option Vm
paging_map vm virt phys =
    let pd = vm.kernel_pd in
    let i = pd_index virt in
    let (pt_phys, pmm) = pmm_alloc_frame vm.pmm in
    let fresh =
      put_entry (zero_entries entries vm.mem pt_phys) pd i (bit_or (bit_or pt_phys 1) 2) in
    let mapped : Mem → Mem = λ m.
      put_entry m (frame_of (entry_at m pd i)) (pt_index virt)
        (bit_or (bit_or (frame_of phys) 1) 2) in
    if not (is_present (entry_at vm.mem pd i))
    then if pt_phys == 0 then none else some (record vm { mem = mapped fresh; pmm = pmm })
    else some (record vm { mem = mapped vm.mem })

-- The first `n` rounds of the copy of the kernel's entries.
pub copy_kernel : (n : ℕ) → Mem → (kernel_pd pd : ℕ) → Mem
copy_kernel zero m kernel_pd pd = m
copy_kernel (suc n) m kernel_pd pd =
    let m' = copy_kernel n m kernel_pd pd in
    put_entry m' pd n (if ltb n identity_pt_count then entry_at m' kernel_pd n else 0)

-- The new directory, 0 where no frame is left.
pub paging_create_user_pd : Vm → ℕ × Vm
paging_create_user_pd vm =
    let (pd_phys, pmm) = pmm_alloc_frame vm.pmm in
    if pd_phys == 0
    then (0, record vm { pmm = pmm })
    else (pd_phys, record vm { pmm = pmm; mem = copy_kernel entries vm.mem vm.kernel_pd pd_phys })

-- The inner loop of `paging_free_pd`, with `n` entries left, from `j` on.
pub free_frames_loop : (n : ℕ) → Mem → (pt j : ℕ) → Pmm → Pmm
free_frames_loop zero m pt j pmm = pmm
free_frames_loop (suc n) m pt j pmm =
    free_frames_loop n m pt (j + 1) (
      if is_present (entry_at m pt j) then pmm_free_frame pmm (frame_of (entry_at m pt j)) else pmm)

pub free_tables_loop : (n : ℕ) → Mem → (pd i : ℕ) → Pmm → Pmm
free_tables_loop zero m pd i pmm = pmm
free_tables_loop (suc n) m pd i pmm =
    let pt_phys = frame_of (entry_at m pd i) in
    free_tables_loop n m pd (i + 1) (
      if is_present (entry_at m pd i)
      then pmm_free_frame (free_frames_loop entries m pt_phys 0 pmm) pt_phys
      else pmm)

pub paging_free_pd : Vm → (pd_phys : ℕ) → Vm
paging_free_pd vm pd_phys = if pd_phys == 0 then vm else record vm {
  pmm =
      pmm_free_frame
        (free_tables_loop (entries - identity_pt_count) vm.mem pd_phys identity_pt_count vm.pmm)
        pd_phys;
}

-- A new directory entry.
abbrev pub new_pde : (pt_phys flags : ℕ) → ℕ
new_pde pt_phys flags = bit_or pt_phys (if not (bit_and flags 4 == 0) then bit_or 3 4 else 3)

pub paging_map_into : Vm → (pd virt phys flags : ℕ) → Option Vm
paging_map_into vm pd virt phys flags =
    let i = pd_index virt in
    let pde = entry_at vm.mem pd i in
    let (pt_phys, pmm) = pmm_alloc_frame vm.pmm in
    let fresh = put_entry (zero_entries entries vm.mem pt_phys) pd i (new_pde pt_phys flags) in
    let kept =
      if not (bit_and flags 4 == 0) then put_entry vm.mem pd i (bit_or pde 4) else vm.mem in
    let mapped : Mem → Mem = λ m.
      put_entry m (frame_of (entry_at m pd i)) (pt_index virt) (bit_or (frame_of phys) flags) in
    if not (is_present pde)
    then if pt_phys == 0 then none else some (record vm { mem = mapped fresh; pmm = pmm })
    else some (record vm { mem = mapped kept })

-- `n` bytes from `src` to `dst`, in order.
pub copy_page : (n : ℕ) → Mem → (dst src : ℕ) → Mem
copy_page zero m dst src = m
copy_page (suc n) m dst src =
    let m' = copy_page n m dst src in store8 m' (dst + n) (load8 m' (src + n))

-- What a loop of `paging_clone_user_space` ends with: it goes on, or no frame was left.
pub data Cloned : Type 0 where
  going no_memory : Vm → Cloned

-- The copy of the page of entry `j`.
pub clone_page : Vm → (child pd_idx parent_pt j : ℕ) → Option Cloned
clone_page vm child pd_idx parent_pt j =
    let pte = entry_at vm.mem parent_pt j in
    let (child_frame, pmm) = pmm_alloc_frame vm.pmm in
    let copied = record vm { pmm = pmm; mem = copy_page 4096 vm.mem child_frame (frame_of pte) } in
    let placed : Option Cloned =
      elim (paging_map_into copied child (bit_or (pd_idx * 4194304) (j * 4096)) child_frame
        (bit_and pte 4095)) [ none ↦ none | some vm' ↦ some (going vm') ] in
    if not (is_present pte)
    then some (going vm)
    else if child_frame == 0
    then some (no_memory (record vm { pmm = pmm }))
    else placed

pub clone_table : (n : ℕ) → Vm → (child pd_idx parent_pt j : ℕ) → Option Cloned
clone_table zero vm child pd_idx parent_pt j = some (going vm)
clone_table (suc n) vm child pd_idx parent_pt j = elim (clone_page vm child pd_idx parent_pt j) [
  | none ↦ none
  | some (no_memory vm') ↦ some (no_memory vm')
  | some (going vm') ↦ clone_table n vm' child pd_idx parent_pt (j + 1)
]

pub clone_tables : (n : ℕ) → Vm → (parent child pd_idx : ℕ) → Option Cloned
clone_tables zero vm parent child pd_idx = some (going vm)
clone_tables (suc n) vm parent child pd_idx =
    let pde = entry_at vm.mem parent pd_idx in
    elim (if is_present pde
      then clone_table entries vm child pd_idx (frame_of pde) 0
      else some (going vm)) [
        | none ↦ none
        | some (no_memory vm') ↦ some (no_memory vm')
        | some (going vm') ↦ clone_tables n vm' parent child (pd_idx + 1)
      ]

pub paging_clone_user_space : Vm → (parent_pd_phys : ℕ) → Option (ℕ × Vm)
paging_clone_user_space vm parent =
    let (child, vm1) = paging_create_user_pd vm in
    let cloned : Option (ℕ × Vm) =
      elim (clone_tables (entries - identity_pt_count) vm1 parent child identity_pt_count) [
        | none ↦ none
        | some (no_memory vm') ↦ some (0, paging_free_pd vm' child)
        | some (going vm') ↦ some (child, vm')
      ] in
    if child == 0 then some (0, vm1) else cloned

-- The first `n` entries of the identity map of window `t`, in the table at `pt`.
identity_entries : (n : ℕ) → Mem → (pt t : ℕ) → Mem
identity_entries zero m pt t = m
identity_entries (suc n) m pt t =
    put_entry (identity_entries n m pt t) pt n (bit_or (bit_or (t * entries * 4096 + n * 4096) 1) 2)

-- The first `n` windows; `pts` is the address of `identity_pts`.
pub identity_windows : (n : ℕ) → Mem → (pts kernel_pd : ℕ) → Mem
identity_windows zero m pts kernel_pd = m
identity_windows (suc n) m pts kernel_pd =
    let pt = pts + n * 4096 in
    put_entry (identity_entries entries (identity_windows n m pts kernel_pd) pt n) kernel_pd n
      (bit_or (bit_or pt 1) 2)

-- `paging_init` up to the load of the control registers.
unfoldable pub paging_init : Vm → (identity_pts : ℕ) → Vm
paging_init vm identity_pts = record vm {
  mem = identity_windows identity_pt_count vm.mem identity_pts vm.kernel_pd;
}
