-- ===== src/Scheduler/Run.antt =====
-- The quantum, the start of the scheduler, the reaper and writes to unlisted processes keep the
-- two lists.
use stak_os.Base.{
  ℕ, ◌≡◌, inl, inr, refl, sym, ◌∙◌, not, ◌&&◌, ◌-◌, Option, List, [], ◌∷◌, ◌==◌, if◌then◌else◌, ltb,
  ==→ne, Bool-cases, arith,
}
use stak_os.Process.{Process, put}
use stak_os.Scheduler.{Sched, scheduler_init, scheduler_enqueue, pick_next, quantum}
use stak_os.Scheduler.Queue.{NotIn, Seg-put}
use stak_os.Scheduler.Wake.{put-next}
use stak_os.Scheduler.Lists.{
  Apart, IsSched, Keeps, SameLists, SameLists-IsSched, Seg-Apart, do_switch-SameLists,
  enqueue-IsSched, pick_next-Keeps,
}
use stak_os.Scheduler.Reap.{Reaped}
use stak_os.Scheduler.Sweep.{sweep, sweep-AllOf, sweep-Distinct}

-- A write that leaves the link of the process.
pub put-SameLists :
    (s : Sched) (p : ℕ) (v : Process)
    → v.next ≡ (s.procs p).next
    → SameLists s (record s { procs = put s.procs p v })
put-SameLists s p v e = record {
  links = λ x. put-next s.procs p v x e;
  head = refl;
  tail = refl;
  size = refl;
  zombies = refl;
}

SameLists-refl : (s : Sched) → SameLists s s
SameLists-refl s = record {
  links = λ x. refl;
  head = refl;
  tail = refl;
  size = refl;
  zombies = refl;
}

SameLists-Keeps : {s s' : Sched} {zs : List ℕ} → SameLists s s' → Keeps s zs → Keeps s' zs
SameLists-Keeps w (qs, v) = (qs, SameLists-IsSched w v)

-- The state after the current process has used a tick.
used : Sched → Sched
used s =
    let cur = s.current_process in
    if ltb 0 (s.procs cur).ticks_remaining
    then record s {
      procs =
          put s.procs cur
            (record (s.procs cur) { ticks_remaining = (s.procs cur).ticks_remaining - 1 });
    }
    else s

used-SameLists : (s : Sched) → SameLists s (used s)
unfolding used
used-SameLists s = elim (Bool-cases (ltb 0 (s.procs s.current_process).ticks_remaining)) [
  | inl e ↦ rw e (put-SameLists s s.current_process _ refl)
  | inr e ↦ rw e (SameLists-refl s)
]

module _ {s : Sched} {qs zs : List ℕ} (v : IsSched s qs zs) where
  pub quantum-Keeps : Keeps (quantum s) zs
  unfolding quantum used
  quantum-Keeps =
      let u : Sched = used s in
      let v1 : IsSched u qs zs = SameLists-IsSched (used-SameLists s) v in
      let picked : Keeps (pick_next u).1 zs = pick_next-Keeps v1 in
      let s2 : Sched = (pick_next u).1 in
      let cur = s.current_process in
      elim (Bool-cases ((u.procs cur).ticks_remaining == 0 && ltb 0 u.queue_size)) [
        | inr e ↦ rw e (qs, v1)
        | inl e ↦
            rw e (elim (Bool-cases (not ((pick_next u).0 == 0) && not ((pick_next u).0 == cur))) [
              | inl t ↦ rw t (SameLists-Keeps (do_switch-SameLists s2 (pick_next u).0) picked)
              | inr t ↦ rw t (SameLists-Keeps (put-SameLists s2 cur _ refl) picked)
            ])
      ]

  -- A write to a process on neither list.
  pub write-IsSched :
      (proc : ℕ) (w : Process)
      → NotIn proc qs
      → NotIn proc zs
      → IsSched (record s { procs = put s.procs proc w }) qs zs
  write-IsSched proc w off off' = record {
    queue = record {
      seg = Seg-put s.procs proc w s.queue_head qs off v.queue.seg;
      distinct = v.queue.distinct;
      tail = v.queue.tail;
      size = v.queue.size;
      small = v.queue.small;
    };
    zombies = Seg-put s.procs proc w s.zombie_head zs off' v.zombies;
    once = v.once;
    apart = v.apart;
  }

Apart-tail : (q : ℕ) (zs qs : List ℕ) → Apart zs (q ∷ qs) → Apart zs qs
Apart-tail q [] qs a = tt
Apart-tail q (z ∷ zs) qs ((ne, out), a) = (out, Apart-tail q zs qs a)

Apart-head : (q : ℕ) (zs qs : List ℕ) → Apart zs (q ∷ qs) → NotIn q zs
Apart-head q [] qs a = tt
Apart-head q (z ∷ zs) qs ((ne, out), a) = (λ e. ne (sym e), Apart-head q zs qs a)

Apart-sym : (zs qs : List ℕ) → Apart zs qs → Apart qs zs
Apart-sym zs [] a = tt
Apart-sym zs (q ∷ qs) a = (Apart-head q zs qs a, Apart-sym zs qs (Apart-tail q zs qs a))

-- The queue stays, and the zombies are those that `sweep` keeps.
pub reap-IsSched :
    {s : Sched} {qs zs table : List ℕ} {r : Option (Sched × List ℕ × List ℕ)}
    → IsSched s qs zs
    → (w : Reaped s.procs table s [] zs r) → IsSched w.after qs (sweep s.procs table zs).1
reap-IsSched {s} {qs} {zs} {table} v w =
    let apart : Apart qs zs = Apart-sym zs qs v.apart in
    record {
      queue = record {
        seg =
            rw w.head
              (Seg-Apart s.procs w.after.procs s.queue_head qs zs w.others apart v.queue.seg);
        distinct = v.queue.distinct;
        tail = w.tail ∙ v.queue.tail;
        size = w.size ∙ v.queue.size;
        small = v.queue.small;
      };
      zombies = w.zombies;
      once = sweep-Distinct s.procs zs table v.once;
      apart = sweep-AllOf s.procs (λ z. NotIn z qs) zs table v.apart;
    }

empty : Sched → Sched
empty s = record s { queue_head = 0; queue_tail = 0; queue_size = 0 }

empty-IsSched : (s : Sched) → s.zombie_head ≡ 0 → IsSched (empty s) [] []
unfolding empty
empty-IsSched s z = record {
  queue = record { seg = refl; distinct = tt; tail = refl; size = refl; small = omega arith };
  zombies = z;
  once = tt;
  apart = tt;
}

-- `scheduler_init` starts with the idle process alone in the queue, and without one with an empty queue.
pub scheduler_init-IsSched :
    (s : Sched)
    → s.zombie_head ≡ 0
    → IsSched (scheduler_init s) (if s.current_process == 0 then [] else s.current_process ∷ []) []
unfolding scheduler_init empty
scheduler_init-IsSched s z = elim (Bool-cases (s.current_process == 0)) [
  | inl e ↦ rw e (empty-IsSched s z)
  | inr e ↦ rw e (
      SameLists-IsSched
        (put-SameLists (scheduler_enqueue (empty s) s.current_process) s.current_process _ refl)
        (enqueue-IsSched (empty-IsSched s z) s.current_process (==→ne s.current_process 0 e) tt tt
          (omega arith)))
]
