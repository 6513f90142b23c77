-- ===== src/Scheduler/Reach.antt =====
-- The states that the scheduler's operations lead to, and the lists that stay well-formed in all of
-- them.
use stak_os.Base.{
  ℕ, ◌+◌, ◌<◌, ◌≡◌, ◌≢◌, refl, sym, ap, ◌∙◌, Option, some, List, [], ◌∷◌, ◌++◌, arith, length,
}
use mathlib.Core.Path.{subst}
use mathlib.Core.Option.{some-injective}
use stak_os.Base.Words.{u32_mod}
use stak_os.Process.{Process, Procs, put}
use stak_os.Scheduler.{
  Sched, scheduler_init, scheduler_enqueue, scheduler_dequeue, scheduler_mark_zombie,
  scheduler_yield, scheduler_reap_zombies, wake_loop, quantum,
}
use stak_os.Scheduler.Queue.{NotIn, Seg}
use stak_os.Scheduler.Wake.{wake_loop_lem}
use stak_os.Scheduler.Lists.{
  IsSched, Gives, SameLists, SameLists-IsSched, enqueue-IsSched, dequeue-IsSched,
  mark_zombie-IsSched, scheduler_yield-Keeps,
}
use stak_os.Scheduler.Run.{quantum-Keeps, scheduler_init-IsSched, reap-IsSched, write-IsSched}
use stak_os.Scheduler.Reap.{scheduler_reap_zombies_lem}
use stak_os.Scheduler.Sweep.{sweep}

-- The links lead from `p` to the process `x`.
pub data Linked (procs : Procs) (x : ℕ) : ℕ → Type 0 where
  at_head : x ≢ 0 → Linked procs x x
  behind : (p : ℕ) → p ≢ 0 → Linked procs x (procs p).next → Linked procs x p

-- What a loop gives with all fuel above some bound.
abbrev pub Ends : {A : Type 0} → (ℕ → Option A) → A → Type 0
Ends f a = (bound : ℕ) × ((fuel : ℕ) → bound < fuel → f fuel ≡ some a)

-- `proc` is a process that stands on neither list.
abbrev pub OffLists : Sched → ℕ → Type 0
OffLists s proc =
    (proc ≢ 0) × ¬ Linked s.procs proc s.queue_head × ¬ Linked s.procs proc s.zombie_head

-- The operations in any order. `write` and `touch` stand for the kernel's other writes to a process:
-- it fills or releases a structure on neither list, and else leaves the links alone.
pub data Step : Sched → Sched → Type 0 where
  enqueue :
      (s : Sched) (proc : ℕ)
      → OffLists s proc
      → s.queue_size + 1 < u32_mod
      → Step s (scheduler_enqueue s proc)
  dequeue :
      (s : Sched) (proc : ℕ)
      → proc ≢ 0
      → (s' : Sched) → Ends (λ fuel. scheduler_dequeue fuel s proc) s'
      → Step s s'
  mark_zombie :
      (s : Sched) (proc : ℕ)
      → proc ≢ 0
      → ¬ Linked s.procs proc s.zombie_head
      → (s' : Sched) → Ends (λ fuel. scheduler_mark_zombie fuel s proc) s'
      → Step s s'
  yield : (s : Sched) → Step s (scheduler_yield s)
  wake :
      (s : Sched) (procs : Procs)
      → Ends (λ fuel. wake_loop fuel s.procs s.queue_head) procs
      → Step s (record s { procs = procs })
  preempt : (s : Sched) → Step s (quantum s)
  reap :
      (s : Sched) (table : List ℕ) (r : Sched × List ℕ × List ℕ)
      → Ends (λ fuel. scheduler_reap_zombies fuel s table) r
      → Step s r.0
  write :
      (s : Sched) (proc : ℕ) (v : Process)
      → OffLists s proc
      → Step s (record s { procs = put s.procs proc v })
  touch : (s s' : Sched) → SameLists s s' → Step s s'

pub data Reachable : Sched → Type 0 where
  start : (s : Sched) → s.zombie_head ≡ 0 → Reachable (scheduler_init s)
  step : {s s' : Sched} → Reachable s → Step s s' → Reachable s'

abbrev pub WellFormed : Sched → Type 0
WellFormed s = (qs : List ℕ) × (zs : List ℕ) × IsSched s qs zs

NotIn-unlinked :
    (procs : Procs) (x p : ℕ) (qs : List ℕ) → Seg procs p qs → ¬ Linked procs x p → NotIn x qs
NotIn-unlinked procs x p [] g off = tt
NotIn-unlinked procs x p (q ∷ qs) (e, nz, g) off =
    let off_q : ¬ Linked procs x q = rw e at off in
    let self : Linked procs q q = at_head nz in
    (
      λ same. off_q (subst (λ y. Linked procs y q) (sym same) self),
      NotIn-unlinked procs x (procs q).next qs g (λ l. off_q (behind q nz l)),
    )

same_result : {A : Type 0} {a b : A} {r : Option A} → r ≡ some a → r ≡ some b → a ≡ b
same_result {a = a} {b = b} e e' = some-injective a b (sym e ∙ e')

Gives-IsSched :
    {s s' : Sched} {qs zs : List ℕ} {r : Option Sched}
    → Gives s r qs zs
    → r ≡ some s'
    → WellFormed s'
Gives-IsSched {s} {s'} {qs} {zs} g e =
    (qs, zs, subst (λ u. IsSched u qs zs) (same_result g.result e) g.valid)

module _ (s : Sched) (qs zs : List ℕ) (v : IsSched s qs zs) where
  wake-WellFormed :
      (procs : Procs)
      → Ends (λ fuel. wake_loop fuel s.procs s.queue_head) procs
      → WellFormed (record s { procs = procs })
  wake-WellFormed procs (k, h) =
      let fuel : ℕ = k + length qs + 1 in
      let w = wake_loop_lem s qs fuel v.queue (omega arith) in
      let e : w.after ≡ procs = same_result w.result (h fuel (omega arith)) in
      let same : SameLists s (record s { procs = w.after }) = record {
        links = w.links;
        head = refl;
        tail = refl;
        size = refl;
        zombies = refl;
      } in
      (qs, zs, rw e at (SameLists-IsSched same v))

  reap-WellFormed :
      (table : List ℕ) (r : Sched × List ℕ × List ℕ)
      → Ends (λ fuel. scheduler_reap_zombies fuel s table) r
      → WellFormed r.0
  reap-WellFormed table r (k, h) =
      let fuel : ℕ = k + length zs + 1 in
      let w = scheduler_reap_zombies_lem fuel table s zs v.zombies v.once (omega arith) in
      let e = same_result w.result (h fuel (omega arith)) in
      (
        qs,
        (sweep s.procs table zs).1,
        subst (λ u. IsSched u qs (sweep s.procs table zs).1) (ap (λ t. t.0) e) (reap-IsSched v w),
      )

Step-WellFormed : {s s' : Sched} → Step s s' → WellFormed s → WellFormed s'
Step-WellFormed (enqueue s proc (nz, off, off') small) (qs, zs, v) = (
  qs ++ (proc ∷ []),
  zs,
  enqueue-IsSched v proc nz (NotIn-unlinked s.procs proc s.queue_head qs v.queue.seg off)
      (NotIn-unlinked s.procs proc s.zombie_head zs v.zombies off') (rw v.queue.size at small),
)
Step-WellFormed (dequeue s proc nz s' (k, h)) (qs, zs, v) =
    let fuel : ℕ = k + length qs + 1 in
    Gives-IsSched (dequeue-IsSched v fuel proc nz (omega arith)) (h fuel (omega arith))
Step-WellFormed (mark_zombie s proc nz off s' (k, h)) (qs, zs, v) =
    let fuel : ℕ = k + length qs + 1 in
    Gives-IsSched
      (mark_zombie-IsSched v fuel proc nz
        (NotIn-unlinked s.procs proc s.zombie_head zs v.zombies off) (omega arith))
      (h fuel (omega arith))
Step-WellFormed (yield s) (qs, zs, v) = let (qs', v') = scheduler_yield-Keeps v in (qs', zs, v')
Step-WellFormed (wake s procs ends) (qs, zs, v) = wake-WellFormed s qs zs v procs ends
Step-WellFormed (preempt s) (qs, zs, v) = let (qs', v') = quantum-Keeps v in (qs', zs, v')
Step-WellFormed (reap s table r ends) (qs, zs, v) = reap-WellFormed s qs zs v table r ends
Step-WellFormed (write s proc w (nz, off, off')) (qs, zs, v) = (
  qs,
  zs,
  write-IsSched v proc w (NotIn-unlinked s.procs proc s.queue_head qs v.queue.seg off)
      (NotIn-unlinked s.procs proc s.zombie_head zs v.zombies off'),
)
Step-WellFormed (touch s s' same) (qs, zs, v) = (qs, zs, SameLists-IsSched same v)

-- In every state that the operations lead to from `scheduler_init` without zombies, in any order,
-- the queue and the zombies are two finite NULL-ended lists without a repeated or a common process,
-- and the tail and the count fit the queue; it is taken that a process is enqueued, created or
-- released only off both lists, that the count does not reach 2^32 then, and that a process is
-- marked as a zombie once.
pub Reachable-WellFormed : (s : Sched) → Reachable s → WellFormed s
Reachable-WellFormed _ (start s z) = (_, [], scheduler_init-IsSched s z)
Reachable-WellFormed s (step r st) = Step-WellFormed st (Reachable-WellFormed _ r)
