-- ===== src/Process/Table.antt =====
-- The table of processes in kernel/process.c: what an entry adds to the lookup, and takes from it.
use stak_os.Base.{
  ℕ, ◌≡◌, ◌≢◌, inl, inr, refl, ap, Option, none, some, List, [], ◌∷◌, ◌==◌, ne→==, ==→eq, ==→ne,
  ==_self, Bool-cases,
}
use stak_os.Process.{Procs, proc_table_add, proc_table_remove, process_lookup}

pub lookup-same :
    (procs procs' : Procs) (table : List ℕ) (pid : ℕ)
    → ((x : ℕ) → (procs' x).pid ≡ (procs x).pid)
    → process_lookup procs' table pid ≡ process_lookup procs table pid
unfolding process_lookup
lookup-same procs procs' [] pid same = refl
lookup-same procs procs' (slot ∷ table) pid same =
    rw (same slot, lookup-same procs procs' table pid same) refl

abbrev pub Absent : (proc : ℕ) → List ℕ → Type 0
Absent proc [] = Unit
Absent proc (slot ∷ table) = (slot ≢ proc) × Absent proc table

abbrev pub AllUsed : List ℕ → Type 0
AllUsed [] = Unit
AllUsed (slot ∷ table) = (slot ≢ 0) × AllUsed table

-- What `proc_table_add` gives: in a full table nothing; else a table where the process is found by its
-- number, every other number is looked up as before, and the removal of the process gives back the
-- first table.
abbrev pub Added : Procs → (proc : ℕ) → List ℕ → Option (List ℕ) → Type 0
Added procs proc table none = AllUsed table
Added procs proc table (some t) =
    (process_lookup procs t (procs proc).pid ≡ proc)
    × ((pid : ℕ)
        → (procs proc).pid ≢ pid
        → process_lookup procs t pid ≡ process_lookup procs table pid)
    × (proc_table_remove t proc ≡ table)

lookup-cons :
    (procs : Procs) (slot : ℕ) (table : List ℕ) (pid : ℕ)
    → slot ≢ 0
    → process_lookup procs (slot ∷ table) pid ≡ 0
    → ((procs slot).pid ≢ pid) × (process_lookup procs table pid ≡ 0)
unfolding process_lookup
lookup-cons procs slot table pid used e = elim (Bool-cases ((procs slot).pid == pid)) [
  | inl t ↦ absurd (used (rw (process_lookup, ne→== slot 0 used, t) at e))
  | inr t ↦ (==→ne _ pid t, rw (process_lookup, ne→== slot 0 used, t) at e)
]

module _ (procs : Procs) (proc : ℕ) (nz : proc ≢ 0) where
  Added-empty :
      (slot : ℕ) (table : List ℕ) → slot ≡ 0 → Added procs proc (slot ∷ table) (some (proc ∷ table))
  unfolding process_lookup proc_table_remove
  Added-empty slot table e =
      rw (e, ne→== proc 0 nz, ==_self (procs proc).pid, ==_self proc)
        (refl, λ pid ne. rw (ne→== (procs proc).pid pid ne) refl, refl)

  Added-cons :
      (slot : ℕ) (table : List ℕ) (o : Option (List ℕ))
      → slot ≢ 0
      → slot ≢ proc
      → (procs slot).pid ≢ (procs proc).pid
      → Added procs proc table o
      → Added procs proc (slot ∷ table) (elim o [ none ↦ none | some t ↦ some (slot ∷ t) ])
  unfolding process_lookup proc_table_remove
  Added-cons slot table none used other differs a = (used, a)
  Added-cons slot table (some t) used other differs (found, same, back) = (
    rw (ne→== slot 0 used, ne→== _ _ differs) found,
    λ pid ne. rw (ne→== slot 0 used, same pid ne) refl,
    rw (ne→== slot proc other) (ap (λ l. slot ∷ l) back),
  )

  -- A process that is not NULL and not in the table, with a number that no process in it has, is added
  -- unless the table is full: then it is found by its number, every other number is looked up as
  -- before, and its removal gives back the table.
  pub proc_table_add-Added :
      (table : List ℕ)
      → Absent proc table
      → process_lookup procs table (procs proc).pid ≡ 0
      → Added procs proc table (proc_table_add table proc)
  unfolding proc_table_add
  proc_table_add-Added [] absent_ new = tt
  proc_table_add-Added (slot ∷ table) (other, absent_) new = elim (Bool-cases (slot == 0)) [
    | inl e ↦ rw e (Added-empty slot table (==→eq slot 0 e))
    | inr e ↦
        let used : slot ≢ 0 = ==→ne slot 0 e in
        let (differs, later) = lookup-cons procs slot table (procs proc).pid used new in
        rw e (
          Added-cons slot table (proc_table_add table proc) used other differs
            (proc_table_add-Added table absent_ later))
  ]
