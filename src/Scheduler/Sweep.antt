-- ===== src/Scheduler/Sweep.antt =====
-- What the reaper is to find on a list of zombies.
use stak_os.Base.{ℕ, inl, inr, List, [], ◌∷◌, if◌then◌else◌, Bool-cases}
use stak_os.Process.{Procs, proc_table_remove}
use stak_os.Scheduler.{is_pid_alive}
use stak_os.Scheduler.Queue.{NotIn, Distinct}
use stak_os.Base.Distinct.{AllOf}

-- What the sweep over the zombies `zs` is to find: the orphans, the survivors, and the table
-- without the orphans. A process is an orphan when its parent is not alive in the table at its turn.
unfoldable pub sweep : Procs → (proc_table : List ℕ) → List ℕ → List ℕ × List ℕ × List ℕ
sweep procs table [] = ([], [], table)
sweep procs table (z ∷ zs) =
    let kept = sweep procs table zs in
    let reaped = sweep procs (proc_table_remove table z) zs in
    if is_pid_alive procs table (procs z).parent_pid
    then (kept.0, z ∷ kept.1, kept.2)
    else (z ∷ reaped.0, reaped.1, reaped.2)

pub sweep-AllOf :
    (procs : Procs) (P : ℕ → Type 0) (zs table : List ℕ)
    → AllOf P zs
    → AllOf P (sweep procs table zs).1
unfolding sweep
sweep-AllOf procs P [] table all = tt
sweep-AllOf procs P (z ∷ zs) table (p, all) =
    elim (Bool-cases (is_pid_alive procs table (procs z).parent_pid)) [
      | inl e ↦ rw e (p, sweep-AllOf procs P zs table all)
      | inr e ↦ rw e (sweep-AllOf procs P zs (proc_table_remove table z) all)
    ]

sweep-NotIn :
    (procs : Procs) (x : ℕ) (zs table : List ℕ) → NotIn x zs → NotIn x (sweep procs table zs).1
unfolding sweep
sweep-NotIn procs x [] table out = tt
sweep-NotIn procs x (z ∷ zs) table (ne, out) =
    elim (Bool-cases (is_pid_alive procs table (procs z).parent_pid)) [
      | inl e ↦ rw e (ne, sweep-NotIn procs x zs table out)
      | inr e ↦ rw e (sweep-NotIn procs x zs (proc_table_remove table z) out)
    ]

pub sweep-Distinct :
    (procs : Procs) (zs table : List ℕ) → Distinct zs → Distinct (sweep procs table zs).1
unfolding sweep
sweep-Distinct procs [] table d = tt
sweep-Distinct procs (z ∷ zs) table (out, d) =
    elim (Bool-cases (is_pid_alive procs table (procs z).parent_pid)) [
      | inl e ↦ rw e (sweep-NotIn procs z zs table out, sweep-Distinct procs zs table d)
      | inr e ↦ rw e (sweep-Distinct procs zs (proc_table_remove table z) d)
    ]

-- The orphans are zombies, each once.
pub orphans-AllOf :
    (procs : Procs) (P : ℕ → Type 0) (zs table : List ℕ)
    → AllOf P zs
    → AllOf P (sweep procs table zs).0
unfolding sweep
orphans-AllOf procs P [] table all = tt
orphans-AllOf procs P (z ∷ zs) table (p, all) =
    elim (Bool-cases (is_pid_alive procs table (procs z).parent_pid)) [
      | inl e ↦ rw e (orphans-AllOf procs P zs table all)
      | inr e ↦ rw e (p, orphans-AllOf procs P zs (proc_table_remove table z) all)
    ]

orphans-NotIn :
    (procs : Procs) (x : ℕ) (zs table : List ℕ) → NotIn x zs → NotIn x (sweep procs table zs).0
unfolding sweep
orphans-NotIn procs x [] table out = tt
orphans-NotIn procs x (z ∷ zs) table (ne, out) =
    elim (Bool-cases (is_pid_alive procs table (procs z).parent_pid)) [
      | inl e ↦ rw e (orphans-NotIn procs x zs table out)
      | inr e ↦ rw e (ne, orphans-NotIn procs x zs (proc_table_remove table z) out)
    ]

pub orphans-Distinct :
    (procs : Procs) (zs table : List ℕ) → Distinct zs → Distinct (sweep procs table zs).0
unfolding sweep
orphans-Distinct procs [] table d = tt
orphans-Distinct procs (z ∷ zs) table (out, d) =
    elim (Bool-cases (is_pid_alive procs table (procs z).parent_pid)) [
      | inl e ↦ rw e (orphans-Distinct procs zs table d)
      | inr e ↦ rw e (
        orphans-NotIn procs z zs (proc_table_remove table z) out,
        orphans-Distinct procs zs (proc_table_remove table z) d,
      )
    ]
