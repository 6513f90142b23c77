-- ===== src/Process.antt =====
-- kernel/process.h and the table of processes of kernel/process.c.
pub mod Table
mod Tests
use stak_os.Base.{
  ℕ, zero, suc, Bool, true, false, not, ◌&&◌, Option, none, some, List, [], ◌∷◌, ◌==◌,
  if◌then◌else◌,
}

abbrev pub max_processes : ℕ
max_processes = 16

abbrev pub max_fds_per_process : ℕ
max_fds_per_process = 8

-- `process_state_t`
pub data ProcessState : Type 0 where
  ready running blocked zombie dead : ProcessState

abbrev pub state_eq : ProcessState → ProcessState → Bool
state_eq ready ready = true
state_eq running running = true
state_eq blocked blocked = true
state_eq zombie zombie = true
state_eq dead dead = true
state_eq _ _ = false

-- `fd_entry_t`; `file_idx` is -1 in a closed entry, and no such entry is read.
pub record FdEntry : Type 0 where
  pub in_use : ℕ
  pub file_idx : ℕ
  pub offset : ℕ

-- `process_t`. A pointer is an address, 0 being NULL.
pub record Process : Type 0 where
  pub pid : ℕ
  pub name : List ℕ
  pub state : ProcessState
  pub esp : ℕ
  pub cr3 : ℕ
  pub parent_pid : ℕ
  pub priority : ℕ
  pub ticks_remaining : ℕ
  pub sleep_ticks : ℕ
  pub exit_code : ℕ
  pub kernel_stack_top : ℕ
  pub stack_frame_lo : ℕ
  pub stack_frame_hi : ℕ
  pub user_entry : ℕ
  pub user_stack_top : ℕ
  pub fds : List FdEntry
  pub next : ℕ

-- The process structures by address.
abbrev pub Procs : Type 0
Procs = ℕ → Process

unfoldable pub put : Procs → ℕ → Process → Procs
put procs p v q = if q == p then v else procs q

-- `kstrncpy(dst, src, n)`: what `dst` holds before its NUL. A string is the list of its bytes, the
-- terminating NUL left off.
pub kstrncpy : List ℕ → (n : ℕ) → List ℕ
kstrncpy src zero = []
kstrncpy src (suc zero) = []
kstrncpy [] (suc (suc n)) = []
kstrncpy (c ∷ src) (suc (suc n)) = c ∷ kstrncpy src (suc n)

-- `proc_table_add` from a slot on: `none` is the -1 of a full table.
pub proc_table_add : List ℕ → (proc : ℕ) → Option (List ℕ)
proc_table_add [] proc = none
proc_table_add (slot ∷ table) proc =
    let rest : Option (List ℕ) = elim (proc_table_add table proc) [
      | none ↦ none
      | some t ↦ some (slot ∷ t)
    ] in
    if slot == 0 then some (proc ∷ table) else rest

unfoldable pub proc_table_remove : List ℕ → (proc : ℕ) → List ℕ
proc_table_remove [] proc = []
proc_table_remove (slot ∷ table) proc =
    if slot == proc then 0 ∷ table else slot ∷ proc_table_remove table proc

-- NULL is 0.
unfoldable pub process_lookup : Procs → List ℕ → (pid : ℕ) → ℕ
process_lookup procs [] pid = 0
process_lookup procs (slot ∷ table) pid =
    let rest = process_lookup procs table pid in
    if not (slot == 0) && (procs slot).pid == pid then slot else rest
