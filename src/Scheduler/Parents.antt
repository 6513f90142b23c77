-- ===== src/Scheduler/Parents.antt =====
-- Live processes of a table, and the table without some of them.
use stak_os.Base.{
  ℕ, ◌≡◌, ◌≢◌, inl, inr, refl, sym, ap, ◌∙◌, Bool, false, not, ◌&&◌, ◌||◌, List, [], ◌∷◌, ◌==◌,
  if◌then◌else◌, Bool-cases, ne→==, eq→==, arith,
}
use native.Mathlib.Decide.{ℕ_discrete}
use stak_os.Base.Distinct.{AllOf}
use stak_os.Process.{Process, Procs, process_lookup, proc_table_remove, state_eq, zombie, dead}
use stak_os.Scheduler.{is_pid_alive}

abbrev pub lives : Process → Bool
lives p = not (state_eq p.state zombie) && not (state_eq p.state dead)

-- Some process of the table with this number is neither a zombie nor dead.
unfoldable pub has_live : Procs → (table : List ℕ) → (pid : ℕ) → Bool
has_live procs [] pid = false
has_live procs (slot ∷ table) pid =
    (not (slot == 0) && (procs slot).pid == pid && lives (procs slot)) || has_live procs table pid

-- Number 0 has no process.
abbrev pub parent_lives : Procs → (table : List ℕ) → (z : ℕ) → Bool
parent_lives procs table z =
    not ((procs z).parent_pid == 0) && has_live procs table (procs z).parent_pid

unfoldable pub orphans : Procs → (table zs : List ℕ) → List ℕ
orphans procs table [] = []
orphans procs table (z ∷ zs) =
    let rest = orphans procs table zs in if parent_lives procs table z then rest else z ∷ rest

unfoldable pub kept : Procs → (table zs : List ℕ) → List ℕ
kept procs table [] = []
kept procs table (z ∷ zs) =
    let rest = kept procs table zs in if parent_lives procs table z then z ∷ rest else rest

-- Every slot with `x` is cleared.
unfoldable pub without : (x : ℕ) → List ℕ → List ℕ
without x [] = []
without x (slot ∷ table) = (if slot == x then 0 else slot) ∷ without x table

unfoldable pub without_all : (xs table : List ℕ) → List ℕ
without_all [] table = table
without_all (x ∷ xs) table = without_all xs (without x table)

-- None of these processes has the number.
abbrev pub NotNumber : Procs → (pid : ℕ) → List ℕ → Type 0
NotNumber procs pid table = AllOf (λ o. o ≢ 0 → (procs o).pid ≢ pid) table

-- No two processes of the table have the same number.
abbrev pub UniquePids : Procs → List ℕ → Type 0
UniquePids procs [] = Unit
UniquePids procs (slot ∷ table) =
    (slot ≢ 0 → NotNumber procs (procs slot).pid table) × UniquePids procs table

none_live :
    (procs : Procs) (pid : ℕ) (table : List ℕ)
    → NotNumber procs pid table
    → has_live procs table pid ≡ false
unfolding has_live
none_live procs pid [] none = refl
none_live procs pid (slot ∷ table) (n, none) = elim (ℕ_discrete slot 0) [
  | yes e ↦ rw (eq→== slot 0 e) (none_live procs pid table none)
  | no ne ↦ rw (ne→== slot 0 ne, ne→== (procs slot).pid pid (n ne)) (none_live procs pid table none)
]

lookup_live :
    (procs : Procs) (pid : ℕ) (table : List ℕ)
    → UniquePids procs table
    → (if process_lookup procs table pid == 0
        then false
        else lives (procs (process_lookup procs table pid)))
      ≡ has_live procs table pid
unfolding has_live process_lookup
lookup_live procs pid [] u = refl
lookup_live procs pid (slot ∷ table) (n, u) = elim (ℕ_discrete slot 0) [
  | yes e ↦ rw (eq→== slot 0 e) (lookup_live procs pid table u)
  | no ne ↦ elim (ℕ_discrete (procs slot).pid pid) [
    | yes same ↦
        let none : has_live procs table pid ≡ false =
          none_live procs pid table (rw same at (n ne)) in
        elim (Bool-cases (lives (procs slot))) [
          | inl l ↦ rw (ne→== slot 0 ne, eq→== (procs slot).pid pid same, ne→== slot 0 ne, l) refl
          | inr l ↦
              rw (ne→== slot 0 ne, eq→== (procs slot).pid pid same, ne→== slot 0 ne, l, none) refl
        ]
    | no differs ↦
        rw (ne→== slot 0 ne, ne→== (procs slot).pid pid differs) (lookup_live procs pid table u)
  ]
]

pub alive_lem :
    (procs : Procs) (pid : ℕ) (table : List ℕ)
    → UniquePids procs table
    → is_pid_alive procs table pid ≡ (not (pid == 0) && has_live procs table pid)
unfolding is_pid_alive
alive_lem procs pid table u = elim (Bool-cases (pid == 0)) [
  | inl e ↦ rw e refl
  | inr e ↦ rw e (lookup_live procs pid table u)
]

without-absent :
    (procs : Procs) (z : ℕ) (table : List ℕ)
    → z ≢ 0
    → NotNumber procs (procs z).pid table
    → without z table ≡ table
unfolding without
without-absent procs z [] nz none = refl
without-absent procs z (slot ∷ table) nz (n, none) =
    let ne : slot ≢ z = λ e. n (λ zero_slot. nz (sym e ∙ zero_slot)) (ap (λ o. (procs o).pid) e) in
    rw (ne→== slot z ne) (ap (λ t. slot ∷ t) (without-absent procs z table nz none))

pub remove_lem :
    (procs : Procs) (z : ℕ) (table : List ℕ)
    → z ≢ 0
    → UniquePids procs table
    → proc_table_remove table z ≡ without z table
unfolding without proc_table_remove
remove_lem procs z [] nz u = refl
remove_lem procs z (slot ∷ table) nz (n, u) = elim (ℕ_discrete slot z) [
  | yes e ↦
      let none : NotNumber procs (procs z).pid table = rw e at (n (λ s. nz (sym e ∙ s))) in
      rw (eq→== slot z e) (ap (λ t. 0 ∷ t) (sym (without-absent procs z table nz none)))
  | no ne ↦ rw (ne→== slot z ne) (ap (λ t. slot ∷ t) (remove_lem procs z table nz u))
]

NotNumber-without :
    (procs : Procs) (z pid : ℕ) (table : List ℕ)
    → NotNumber procs pid table
    → NotNumber procs pid (without z table)
unfolding without
NotNumber-without procs z pid [] none = tt
NotNumber-without procs z pid (slot ∷ table) (n, none) = elim (Bool-cases (slot == z)) [
  | inl e ↦ rw e (λ nz. absurd (nz refl), NotNumber-without procs z pid table none)
  | inr e ↦ rw e (n, NotNumber-without procs z pid table none)
]

pub UniquePids-without :
    (procs : Procs) (z : ℕ) (table : List ℕ)
    → UniquePids procs table
    → UniquePids procs (without z table)
unfolding without
UniquePids-without procs z [] u = tt
UniquePids-without procs z (slot ∷ table) (n, u) = elim (Bool-cases (slot == z)) [
  | inl e ↦ rw e (λ nz. absurd (nz refl), UniquePids-without procs z table u)
  | inr e ↦ rw e (
    λ nz. NotNumber-without procs z (procs slot).pid table (n nz),
    UniquePids-without procs z table u,
  )
]

pub live-without :
    (procs : Procs) (z pid : ℕ) (table : List ℕ)
    → lives (procs z) ≡ false
    → has_live procs (without z table) pid ≡ has_live procs table pid
unfolding without has_live
live-without procs z pid [] dead_z = refl
live-without procs z pid (slot ∷ table) dead_z = elim (ℕ_discrete slot z) [
  | yes e ↦
      let dead_slot : lives (procs slot) ≡ false = rw e dead_z in
      let head : (not (slot == 0) && (procs slot).pid == pid && lives (procs slot)) ≡ false =
        ground (arith, dead_slot) in
      rw (eq→== slot z e, head) (live-without procs z pid table dead_z)
  | no ne ↦ rw (ne→== slot z ne) (
      ap (λ b. (not (slot == 0) && (procs slot).pid == pid && lives (procs slot)) || b)
        (live-without procs z pid table dead_z))
]
