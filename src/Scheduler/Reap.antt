-- ===== src/Scheduler/Reap.antt =====
-- `scheduler_reap_zombies` ends, takes the orphans out of the zombie list, and keeps the others in
-- their order.
use stak_os.Base.{
  ℕ, zero, suc, ◌<◌, ◌≡◌, inl, inr, refl, sym, ap, ◌∙◌, Bool, true, false, not, ◌&&◌, Option, none,
  some, List, [], ◌∷◌, ◌++◌, ◌==◌, if◌then◌else◌, ne→==, Bool-cases, arith, length,
}
use mathlib.Core.List.{append_assoc}
use stak_os.Process.{Process, Procs, process_lookup, proc_table_remove, state_eq, zombie, dead}
use stak_os.Process.Table.{lookup-same}
use stak_os.Scheduler.{Sched, set_next, is_pid_alive, reap_loop, scheduler_reap_zombies}
use stak_os.Scheduler.Queue.{
  NotIn, NotIn-last, Distinct, Seg, Seg-put, last, last-snoc, SameButNext, put_self, put_ne,
  set_next-SameButNext,
}
use stak_os.Scheduler.Dequeue.{Seg-last-ne}
use stak_os.Scheduler.Erase.{NotIn-left, Distinct-drop, NotIn-drop}
use stak_os.Scheduler.Sweep.{sweep}

alive-same :
    (procs procs' : Procs) (table : List ℕ) (pid : ℕ)
    → SameButNext procs procs'
    → is_pid_alive procs' table pid ≡ is_pid_alive procs table pid
unfolding is_pid_alive
alive-same procs procs' table pid same =
    rw (lookup-same procs procs' table pid (λ x. ap (λ p. p.pid) (same x))) (
      ap
        (λ st.
          if pid == 0
          then false
          else if process_lookup procs table pid == 0
          then false
          else not (state_eq st zombie) && not (state_eq st dead))
        (ap (λ p. p.state) (same (process_lookup procs table pid))))

-- The link over `q` behind `a ∷ ps`.
Seg-skip :
    (procs : Procs) (p a : ℕ) (ps : List ℕ) (q : ℕ) (rs : List ℕ)
    → Seg procs p (a ∷ ps ++ (q ∷ rs))
    → Distinct (a ∷ ps ++ (q ∷ rs))
    → Seg (set_next procs (last (a ∷ ps)) (procs q).next) p (a ∷ ps ++ rs)
Seg-skip procs p a [] q rs (e, nz, (e', nz', g)) ((ne, out), d) =
    let v : Process = record (procs a) { next = (procs q).next } in
    (e, nz, rw (ap (λ p. p.next) (put_self procs a v)) (Seg-put procs a v (procs q).next rs out g))
Seg-skip procs p a (b ∷ ps) q rs (e, nz, g) (out, d) = (
  e,
  nz,
  rw (put_ne procs (last (b ∷ ps)) a _ (NotIn-last a b ps (NotIn-left a (b ∷ ps) (q ∷ rs) out)))
      (Seg-skip procs (procs a).next b ps q rs g d),
)

NotIn-behind : (a : ℕ) (ps rs : List ℕ) → Distinct (a ∷ ps ++ rs) → NotIn (last (a ∷ ps)) rs
NotIn-behind a [] rs (out, d) = out
NotIn-behind a (b ∷ ps) rs (out, d) = NotIn-behind b ps rs d

-- The zombies `ps` have been kept, and `rs` follow.
pub record Swept (s u : Sched) (ps rs : List ℕ) (cur : ℕ) : Type 0 where
  pub zombies : Seg u.procs u.zombie_head (ps ++ rs)
  pub here : Seg u.procs cur rs
  pub same : SameButNext s.procs u.procs
  pub others : (x : ℕ) → NotIn x ps → u.procs x ≡ s.procs x
  pub head : u.queue_head ≡ s.queue_head
  pub tail : u.queue_tail ≡ s.queue_tail
  pub size : u.queue_size ≡ s.queue_size
  pub current : u.current_process ≡ s.current_process

unlinked : Sched → (prev q : ℕ) → Sched
unlinked s prev q =
    if prev == 0
    then record s { zombie_head = (s.procs q).next }
    else record s { procs = set_next s.procs prev (s.procs q).next }

unlinked-Swept :
    (s : Sched) (ps : List ℕ) (q : ℕ) (rs : List ℕ)
    → Seg s.procs s.zombie_head (ps ++ (q ∷ rs))
    → Distinct (ps ++ (q ∷ rs))
    → Seg s.procs (s.procs q).next rs
    → Swept s (unlinked s (last ps) q) ps rs (s.procs q).next
unfolding unlinked
unlinked-Swept s [] q rs z d g = record {
  zombies = g;
  here = g;
  same = λ x. refl;
  others = λ x out. refl;
  head = refl;
  tail = refl;
  size = refl;
  current = refl;
}
unlinked-Swept s (a ∷ ps) q rs z d g =
    rw (ne→== (last (a ∷ ps)) 0 (Seg-last-ne s.procs s.zombie_head a ps (q ∷ rs) z)) (record {
      zombies = Seg-skip s.procs s.zombie_head a ps q rs z d;
      here =
          Seg-put s.procs (last (a ∷ ps)) _ (s.procs q).next rs (NotIn-behind a ps (q ∷ rs) d).1 g;
      same = set_next-SameButNext s.procs (last (a ∷ ps)) (s.procs q).next;
      others = λ x out. put_ne s.procs (last (a ∷ ps)) x _ (NotIn-last x a ps out);
      head = refl;
      tail = refl;
      size = refl;
      current = refl;
    })

-- How the sweep over `rest` ends, with `ps` kept before it.
pub record Reaped (procs : Procs) (table : List ℕ) (s : Sched) (ps rest : List ℕ)
    (r : Option (Sched × List ℕ × List ℕ)) : Type 0 where
  pub after : Sched
  pub result : r ≡ some (after, (sweep procs table rest).2, (sweep procs table rest).0)
  pub zombies : Seg after.procs after.zombie_head (ps ++ (sweep procs table rest).1)
  pub same : SameButNext s.procs after.procs
  pub others : (x : ℕ) → NotIn x (ps ++ rest) → after.procs x ≡ s.procs x
  pub head : after.queue_head ≡ s.queue_head
  pub tail : after.queue_tail ≡ s.queue_tail
  pub size : after.queue_size ≡ s.queue_size
  pub current : after.current_process ≡ s.current_process

module _ {procs : Procs} {table : List ℕ} {s : Sched} {ps : List ℕ} {q : ℕ} {rs : List ℕ}
    {r : Option (Sched × List ℕ × List ℕ)} where
  Reaped-kept :
      is_pid_alive procs table (procs q).parent_pid ≡ true
      → Reaped procs table s (ps ++ (q ∷ [])) rs r
      → Reaped procs table s ps (q ∷ rs) r
  unfolding sweep
  Reaped-kept e w = record {
    after = w.after;
    result = rw e w.result;
    zombies = rw e (rw (append_assoc ps (q ∷ []) (sweep procs table rs).1) at w.zombies);
    same = w.same;
    others = λ x out. w.others x (rw (append_assoc ps (q ∷ []) rs) out);
    head = w.head;
    tail = w.tail;
    size = w.size;
    current = w.current;
  }

  Reaped-orphan :
      (u : Sched) (cur at_q : ℕ)
      → at_q ≡ q
      → is_pid_alive procs table (procs q).parent_pid ≡ false
      → Swept s u ps rs cur
      → Reaped procs (proc_table_remove table q) u ps rs r
      → Reaped procs table s ps
          (q ∷ rs)
          (elim r [ none ↦ none | some (s', t, orphans) ↦ some (s', t, at_q ∷ orphans) ])
  unfolding sweep
  Reaped-orphan u cur at_q c e v w = record {
    after = w.after;
    result = rw (w.result, e, c) refl;
    zombies = rw e w.zombies;
    same = λ x. w.same x ∙ v.same x;
    others =
        λ x out. w.others x (NotIn-drop x q ps rs out) ∙ v.others x (NotIn-left x ps (q ∷ rs) out);
    head = w.head ∙ v.head;
    tail = w.tail ∙ v.tail;
    size = w.size ∙ v.size;
    current = w.current ∙ v.current;
  }

module _ (procs : Procs) where
  reap_loop-Reaped :
      (rest ps : List ℕ) (fuel : ℕ) (table : List ℕ) (s : Sched) (prev cur : ℕ)
      → SameButNext procs s.procs
      → Seg s.procs s.zombie_head (ps ++ rest)
      → Distinct (ps ++ rest)
      → prev ≡ last ps
      → Seg s.procs cur rest
      → length rest < fuel
      → Reaped procs table s ps rest (reap_loop fuel s table prev cur)
  unfolding reap_loop sweep unlinked
  reap_loop-Reaped rest ps zero table s prev cur same z d e g l = absurd (omega arith)
  reap_loop-Reaped [] ps (suc fuel) table s prev cur same z d e g l = rw g (record {
    after = s;
    result = refl;
    zombies = z;
    same = λ x. refl;
    others = λ x out. refl;
    head = refl;
    tail = refl;
    size = refl;
    current = refl;
  })
  reap_loop-Reaped (q ∷ rs) ps (suc fuel) table s prev cur same z d e (c, nz, g) l =
      let alive : Bool = is_pid_alive procs table (procs q).parent_pid in
      let test : is_pid_alive s.procs table (s.procs q).parent_pid ≡ alive =
        alive-same procs s.procs table (s.procs q).parent_pid same
        ∙ ap (λ pid. is_pid_alive procs table pid) (ap (λ p. p.parent_pid) (same q)) in
      elim (Bool-cases alive) [
        | inl yes_alive ↦
            let r =
              reap_loop-Reaped rs (ps ++ (q ∷ [])) fuel table s q (s.procs q).next same
                (rw (append_assoc ps (q ∷ []) rs) z) (rw (append_assoc ps (q ∷ []) rs) d)
                (sym (last-snoc ps q)) g (omega arith) in
            rw (c, ne→== q 0 nz, test, yes_alive) (Reaped-kept yes_alive r)
        | inr orphan ↦
            let w = unlinked-Swept s ps q rs z d g in
            let r =
              reap_loop-Reaped rs ps fuel (proc_table_remove table q) (unlinked s (last ps) q)
                (last ps) (s.procs q).next (λ x. w.same x ∙ same x) w.zombies
                (Distinct-drop q ps rs d) refl w.here (omega arith) in
            rw (c, ne→== q 0 nz, test, orphan, e)
              (Reaped-orphan (unlinked s (last ps) q) (s.procs q).next cur c orphan w r)
      ]

-- On a well-formed zombie list, with more fuel than zombies, the reaper ends; it takes out the orphans
-- of `sweep`, leaves the other zombies in their order, and changes no process but the links of zombies.
pub scheduler_reap_zombies_lem :
    (fuel : ℕ) (table : List ℕ) (s : Sched) (zs : List ℕ)
    → Seg s.procs s.zombie_head zs
    → Distinct zs
    → length zs < fuel
    → Reaped s.procs table s [] zs (scheduler_reap_zombies fuel s table)
unfolding scheduler_reap_zombies
scheduler_reap_zombies_lem fuel table s zs z d l =
    reap_loop-Reaped s.procs zs [] fuel table s 0 s.zombie_head (λ x. refl) z d refl z l
