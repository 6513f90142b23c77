-- ===== src/Scheduler/Enqueue.antt =====
-- `scheduler_enqueue` appends.
use stak_os.Base.{
  ℕ, ◌+◌, ◌<◌, ◌≡◌, ◌≢◌, refl, sym, ap, ◌∙◌, List, [], ◌∷◌, ◌++◌, arith, length, length-append,
  ne→==,
}
use stak_os.Base.Words.{u32_mod}
use stak_os.Process.{ready, Procs, put}
use stak_os.Scheduler.{Sched, set_next, set_state, scheduler_enqueue}
use stak_os.Scheduler.Queue.{
  NotIn, Seg, last, IsQueue, but_next, Seg-put, Seg-snoc, Distinct-snoc, last-snoc,
  set_next-SameButNext, put_ne, NotIn-last,
}

-- `s'` is `s` with `proc` behind the queue `qs`.
pub record Enqueued (s s' : Sched) (proc : ℕ) (qs : List ℕ) : Type 0 where
  pub queue : IsQueue s' (qs ++ (proc ∷ []))
  pub is_ready : (s'.procs proc).state ≡ ready
  pub own : but_next (s'.procs proc) ≡ but_next (record (s.procs proc) { state = ready })
  pub others : (x : ℕ) → x ≢ proc → but_next (s'.procs x) ≡ but_next (s.procs x)
  pub exact : (x : ℕ) → NotIn x (proc ∷ qs) → s'.procs x ≡ s.procs x
  pub current : s'.current_process ≡ s.current_process
  pub zombies : s'.zombie_head ≡ s.zombie_head

module _ (s : Sched) (proc : ℕ) (nz : proc ≢ 0) where
  fresh : Procs
  fresh = set_next (set_state s.procs proc ready) proc 0

  fresh_self : fresh proc ≡ record (s.procs proc) { state = ready; next = 0 }
  unfolding fresh put
  fresh_self = ground arith

  fresh_ne : (x : ℕ) → x ≢ proc → fresh x ≡ s.procs x
  unfolding fresh put
  fresh_ne x ne = ground arith

  Seg-fresh : (p : ℕ) (qs : List ℕ) → NotIn proc qs → Seg s.procs p qs → Seg fresh p qs
  unfolding fresh
  Seg-fresh p qs out g =
      Seg-put (set_state s.procs proc ready) proc _ p qs out (Seg-put s.procs proc _ p qs out g)

  -- A process outside a well-formed ready queue with room for the count goes to its end and becomes READY; nothing else of any
  -- process changes but the link of the last one.
  pub scheduler_enqueue_lem :
      (qs : List ℕ)
      → IsQueue s qs
      → NotIn proc qs
      → length qs + 1 < u32_mod
      → Enqueued s (scheduler_enqueue s proc) proc qs
  unfolding scheduler_enqueue fresh
  scheduler_enqueue_lem [] v out small =
      rw (ne→== proc 0 nz, v.seg)
        (record {
          queue = record {
            seg = (refl, nz, ap (λ p. p.next) fresh_self);
            distinct = (tt, tt);
            tail = refl;
            size = omega (arith, v.size);
            small = omega arith;
          };
          is_ready = ap (λ p. p.state) fresh_self;
          own = ap but_next fresh_self;
          others = λ x ne. ap but_next (fresh_ne x ne);
          exact = λ x (ne, o). fresh_ne x ne;
          current = refl;
          zombies = refl;
        })
  scheduler_enqueue_lem (q ∷ qs) v out small =
      rw (ne→== proc 0 nz, ne→== s.queue_head 0 (λ e. v.seg.1 (sym (v.seg.0) ∙ e)), v.tail)
        (record {
          queue = record {
            seg =
                Seg-snoc fresh proc s.queue_head q qs (Seg-fresh s.queue_head (q ∷ qs) out v.seg)
                  v.distinct out nz (ap (λ p. p.next) fresh_self);
            distinct = Distinct-snoc (q ∷ qs) proc v.distinct out;
            tail = sym (last-snoc (q ∷ qs) proc);
            size = omega (arith, v.size, length-append qs (proc ∷ []));
            small = omega (arith, length-append qs (proc ∷ []));
          };
          is_ready =
              ap (λ p. p.state) (set_next-SameButNext fresh (last (q ∷ qs)) proc proc)
              ∙ ap (λ p. p.state) fresh_self;
          own = set_next-SameButNext fresh (last (q ∷ qs)) proc proc ∙ ap but_next fresh_self;
          others = λ x ne.
              set_next-SameButNext fresh (last (q ∷ qs)) proc x ∙ ap but_next (fresh_ne x ne);
          exact =
              λ x (ne, o). put_ne fresh (last (q ∷ qs)) x _ (NotIn-last x q qs o) ∙ fresh_ne x ne;
          current = refl;
          zombies = refl;
        })
