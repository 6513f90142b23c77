-- ===== src/Scheduler/Yield.antt =====
-- `scheduler_yield`: who runs next, and that every process that waits gets its turn.
use stak_os.Base.{
  ℕ, ◌≡◌, ◌≢◌, inl, inr, sym, ap, ◌∙◌, false, List, [], ◌∷◌, ◌++◌, ◌==◌, eq→==, ne→==, ==→eq, ==→ne,
  Bool-cases,
}
use stak_os.Process.{Procs, ready, running, state_eq}
use stak_os.Scheduler.{Sched, do_switch, pick_next, scheduler_yield}
use stak_os.Scheduler.Queue.{IsQueue, Seg, Seg-same}
use stak_os.Scheduler.Pick.{Rotated, NoneReady, ready_in, pick_next-some, pick_next-none}
use stak_os.Scheduler.Switch.{Switched, do_switch-Switched}

-- What a yield leaves of `s`, where `y` is picked and the queue becomes `qs`.
pub record Yielded (s : Sched) (y : ℕ) (qs : List ℕ) (s' : Sched) : Type 0 where
  pub queue : IsQueue s' qs
  pub current : s'.current_process ≡ y
  pub zombies : s'.zombie_head ≡ s.zombie_head
  pub waits : (x : ℕ) → x ≢ y → (s.procs x).state ≡ ready → (s'.procs x).state ≡ ready
  pub runs :
      s.current_process ≢ y
      → ((s'.procs y).state ≡ running)
        × ((s'.procs y).ticks_remaining ≡ (s.procs y).priority)
        × (s'.esp0 ≡ (s.procs y).kernel_stack_top)
        × (s'.cr3 ≡ (s.procs y).cr3)
        × (s'.esp ≡ (s.procs y).esp)

pub Switched-IsQueue :
    (s s' : Sched) (next : ℕ) (qs : List ℕ) → Switched s next s' → IsQueue s qs → IsQueue s' qs
Switched-IsQueue s s' next qs w v = record {
  seg = rw w.head (Seg-same s.procs s'.procs s.queue_head qs w.links v.seg);
  distinct = v.distinct;
  tail = w.tail ∙ v.tail;
  size = w.size ∙ v.size;
  small = v.small;
}

-- A process that stands in a queue is not NULL.
Seg-nonzero : (s : Sched) (qs : List ℕ) (xs : List ℕ) (y : ℕ) → IsQueue s (xs ++ (y ∷ qs)) → y ≢ 0
Seg-nonzero s qs xs y v = go s.procs s.queue_head xs v.seg
  where
    go : (procs : Procs) (p : ℕ) (xs : List ℕ) → Seg procs p (xs ++ (y ∷ qs)) → y ≢ 0
    go procs p [] (e, nz, _) = nz
    go procs p (x ∷ xs) (e, nz, g) = go procs (procs x).next xs g

module _ (s : Sched) (xs : List ℕ) (y : ℕ) (zs : List ℕ) (v : IsQueue s (xs ++ (y ∷ zs)))
    (skip : NoneReady (ready_in s) xs) (hit : (s.procs y).state ≡ ready) where
  abbrev after : Sched
  after = (pick_next s).1

  picked : ((pick_next s).0 ≡ y) × Rotated s after (xs ++ (y ∷ zs)) (zs ++ (xs ++ (y ∷ [])))
  picked = pick_next-some s xs y zs v skip (ap (λ st. state_eq st ready) hit)

  -- On a well-formed queue with a READY process `y` and none before it, `scheduler_yield` makes `y`
  -- current, with the queue rotated behind it; if `y` was not current it is RUNNING with a full
  -- quantum, on its own stack and address space, and every other READY process stays READY.
  pub scheduler_yield-Yielded : Yielded s y (zs ++ (xs ++ (y ∷ []))) (scheduler_yield s)
  unfolding scheduler_yield
  scheduler_yield-Yielded =
      let (e, r) = picked in
      let nz : ((pick_next s).0 == 0) ≡ false =
        ne→== _ 0 (λ z. Seg-nonzero s zs xs y v (sym e ∙ z)) in
      elim (Bool-cases ((pick_next s).0 == s.current_process)) [
        | inl t ↦
            let here : s.current_process ≡ y = sym (==→eq _ s.current_process t) ∙ e in
            rw (nz, t)
              (record {
                queue = r.queue;
                current = r.current ∙ here;
                zombies = r.zombies;
                waits = λ x out w. ap (λ p. p.state) (r.same x) ∙ w;
                runs = λ ne. absurd (ne here);
              })
        | inr t ↦
            let ne : after.current_process ≢ y =
              λ z. ==→ne _ s.current_process t (e ∙ sym z ∙ r.current) in
            let w : Switched after y (do_switch after y) = do_switch-Switched after y ne in
            rw (nz, t, e)
              (record {
                queue = Switched-IsQueue after (do_switch after y) y _ w r.queue;
                current = w.current;
                zombies = w.zombies ∙ r.zombies;
                waits = λ x out st. w.waits x out (ap (λ p. p.state) (r.same x) ∙ st);
                runs = λ _. (
                  w.runs,
                  w.quantum ∙ ap (λ p. p.priority) (r.same y),
                  w.stack ∙ ap (λ p. p.kernel_stack_top) (r.same y),
                  w.space ∙ ap (λ p. p.cr3) (r.same y),
                  w.resumes ∙ ap (λ p. p.esp) (r.same y),
                );
              })
      ]

-- Without a READY process in the queue a yield comes back.
pub scheduler_yield-none :
    (s : Sched) (qs : List ℕ)
    → IsQueue s qs
    → NoneReady (ready_in s) qs
    → (scheduler_yield s).current_process ≡ s.current_process
unfolding scheduler_yield
scheduler_yield-none s qs v skip =
    let (e, r) = pick_next-none s qs v skip in rw (eq→== (pick_next s).0 0 e) r.current
