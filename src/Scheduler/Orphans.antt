-- ===== src/Scheduler/Orphans.antt =====
-- scheduler_reap_zombies of kernel/scheduler.c, with the orphans described by the live processes of the
-- table.
use stak_os.Base.{
  ℕ, ◌≡◌, ◌≢◌, inl, inr, refl, ap, false, not, ◌&&◌, Option, some, List, [], ◌∷◌, ◌==◌, Bool-cases,
}
use stak_os.Base.Distinct.{NotIn, Distinct, AllOf}
use stak_os.Process.{Procs, state_eq, zombie, dead}
use stak_os.Scheduler.{Sched}
use stak_os.Scheduler.Queue.{Seg, SameButNext}
use stak_os.Scheduler.Sweep.{sweep}
use stak_os.Scheduler.Parents.{
  lives, parent_lives, orphans, kept, without, without_all, UniquePids, alive_lem, remove_lem,
  UniquePids-without, live-without,
}

-- Without a zombie in it a table has the same orphans.
module _ (procs : Procs) (z : ℕ) (table : List ℕ) (dead_z : lives (procs z) ≡ false) where
  parent_lives-without :
      (y : ℕ) → parent_lives procs (without z table) y ≡ parent_lives procs table y
  parent_lives-without y =
      ap (λ b. not ((procs y).parent_pid == 0) && b)
        (live-without procs z (procs y).parent_pid table dead_z)

  orphans-without : (zs : List ℕ) → orphans procs (without z table) zs ≡ orphans procs table zs
  unfolding orphans
  orphans-without [] = refl
  orphans-without (y ∷ zs) = rw (parent_lives-without y, orphans-without zs) refl

  kept-without : (zs : List ℕ) → kept procs (without z table) zs ≡ kept procs table zs
  unfolding kept
  kept-without [] = refl
  kept-without (y ∷ zs) = rw (parent_lives-without y, kept-without zs) refl

-- A zombie that is not NULL.
abbrev IsZombie : Procs → ℕ → Type 0
IsZombie procs z = ((procs z).state ≡ zombie) × (z ≢ 0)

abbrev pub found_among : Procs → (table zs : List ℕ) → List ℕ × List ℕ × List ℕ
found_among procs table zs =
    (orphans procs table zs, kept procs table zs, without_all (orphans procs table zs) table)

pub sweep-exact :
    (procs : Procs) (zs table : List ℕ)
    → UniquePids procs table
    → AllOf (IsZombie procs) zs
    → sweep procs table zs ≡ found_among procs table zs
unfolding sweep orphans kept without_all
sweep-exact procs [] table u all = refl
sweep-exact procs (z ∷ zs) table u ((st, nz), all) =
    let dead_z : lives (procs z) ≡ false =
      ap (λ s. not (state_eq s zombie) && not (state_eq s dead)) st in
    let test = alive_lem procs (procs z).parent_pid table u in
    elim (Bool-cases (parent_lives procs table z)) [
      | inl e ↦ rw (test, e, sweep-exact procs zs table u all) refl
      | inr e ↦
          rw
            (
              test,
              e,
              remove_lem procs z table nz u,
              sweep-exact procs zs (without z table) (UniquePids-without procs z table u) all,
              orphans-without procs z table dead_z zs,
              kept-without procs z table dead_z zs,
            )
            refl
    ]

pub Seg-nonzero : (procs : Procs) (p : ℕ) (zs : List ℕ) → Seg procs p zs → AllOf (λ z. z ≢ 0) zs
Seg-nonzero procs p [] g = tt
Seg-nonzero procs p (z ∷ zs) (e, nz, g) = (nz, Seg-nonzero procs (procs z).next zs g)

abbrev pub AllZombies : Procs → List ℕ → Type 0
AllZombies procs zs = AllOf (λ z. (procs z).state ≡ zombie) zs

-- What the reaper does to the list and to the table.
pub record Reaps (s : Sched) (table zs : List ℕ) (r : Option (Sched × List ℕ × List ℕ))
    : Type 0 where
  pub after : Sched
  pub result :
      r ≡ some (after, without_all (orphans s.procs table zs) table, orphans s.procs table zs)
  pub zombies : Seg after.procs after.zombie_head (kept s.procs table zs)
  pub same : SameButNext s.procs after.procs
  pub others : (x : ℕ) → NotIn x zs → after.procs x ≡ s.procs x
  pub head : after.queue_head ≡ s.queue_head
  pub tail : after.queue_tail ≡ s.queue_tail
  pub size : after.queue_size ≡ s.queue_size
  pub current : after.current_process ≡ s.current_process
