-- ===== src/Scheduler/Lists.antt =====
-- The ready queue and the zombie list share the field `next`: what each operation keeps of both.
use stak_os.Base.{
  ℕ, ◌+◌, ◌<◌, ◌≡◌, ◌≢◌, inl, inr, refl, sym, ap, ◌∙◌, ◌||◌, Option, some, List, [], ◌∷◌, ◌++◌,
  ◌==◌, ne→==, ==→eq, ==→ne, Bool-cases, length,
}
use stak_os.Base.Words.{u32_mod}
use stak_os.Process.{Process, Procs}
use stak_os.Scheduler.{
  Sched, set_next, scheduler_enqueue, scheduler_dequeue, scheduler_mark_zombie, scheduler_yield,
  do_switch, pick_next,
}
use stak_os.Scheduler.Queue.{
  SameButNext, set_next-SameButNext, NotIn, NotIn-append, Distinct, Seg, Seg-put, Seg-same, IsQueue,
  put_self,
}
use stak_os.Scheduler.Enqueue.{scheduler_enqueue_lem}
use stak_os.Scheduler.Dequeue.{scheduler_dequeue_lem}
use stak_os.Scheduler.Erase.{erase, NotIn-left, NotIn-right}
use stak_os.Scheduler.Pick.{Rotated, ready_in, pick_next-some, pick_next-none}
use stak_os.Scheduler.Switch.{do_switch-Switched}
use stak_os.Scheduler.Fairness.{first_of}
use stak_os.Base.Distinct.{AllOf, AllOf-imp}

-- No process of `zs` stands in `qs`.
abbrev pub Apart : List ℕ → List ℕ → Type 0
Apart zs qs = AllOf (λ z. NotIn z qs) zs

-- The queue `qs` and the zombies `zs` of `s`.
pub record IsSched (s : Sched) (qs zs : List ℕ) : Type 0 where
  pub queue : IsQueue s qs
  pub zombies : Seg s.procs s.zombie_head zs
  pub once : Distinct zs
  pub apart : Apart zs qs

-- A change outside the zombies keeps their list.
pub Seg-Apart :
    (procs procs' : Procs) (p : ℕ) (zs qs : List ℕ)
    → ((x : ℕ) → NotIn x qs → procs' x ≡ procs x)
    → Apart zs qs
    → Seg procs p zs
    → Seg procs' p zs
Seg-Apart procs procs' p [] qs same a g = g
Seg-Apart procs procs' p (z ∷ zs) qs same (out, a) (e, nz, g) =
    let link : (procs' z).next ≡ (procs z).next = ap (λ v. v.next) (same z out) in
    (e, nz, rw link (Seg-Apart procs procs' (procs z).next zs qs same a g))

Apart-cons : (p : ℕ) (zs qs : List ℕ) → NotIn p zs → Apart zs qs → Apart zs (p ∷ qs)
Apart-cons p [] qs out a = tt
Apart-cons p (z ∷ zs) qs (ne, out) (o, a) = ((λ e. ne (sym e), o), Apart-cons p zs qs out a)

Apart-snoc : (p : ℕ) (zs qs : List ℕ) → NotIn p zs → Apart zs qs → Apart zs (qs ++ (p ∷ []))
Apart-snoc p [] qs out a = tt
Apart-snoc p (z ∷ zs) qs (ne, out) (o, a) =
    (NotIn-append z qs (p ∷ []) o (λ e. ne (sym e), tt), Apart-snoc p zs qs out a)

module _ {s : Sched} {qs zs : List ℕ} (v : IsSched s qs zs) where
  pub enqueue-IsSched :
      (proc : ℕ)
      → proc ≢ 0
      → NotIn proc qs
      → NotIn proc zs
      → length qs + 1 < u32_mod
      → IsSched (scheduler_enqueue s proc) (qs ++ (proc ∷ [])) zs
  enqueue-IsSched proc nz off off' small =
      let r = scheduler_enqueue_lem s proc nz qs v.queue off small in
      record {
        queue = r.queue;
        zombies = rw r.zombies (
            Seg-Apart s.procs (scheduler_enqueue s proc).procs s.zombie_head zs (proc ∷ qs) r.exact
              (Apart-cons proc zs qs off' v.apart) v.zombies);
        once = v.once;
        apart = Apart-snoc proc zs qs off' v.apart;
      }

NotIn-erase : (z x : ℕ) (qs : List ℕ) → NotIn z qs → NotIn z (erase x qs)
unfolding erase
NotIn-erase z x [] out = tt
NotIn-erase z x (q ∷ qs) (ne, out) = elim (Bool-cases (q == x)) [
  | inl e ↦ rw e out
  | inr e ↦ rw e (ne, NotIn-erase z x qs out)
]

NotIn-erase_self : (x : ℕ) (qs : List ℕ) → Distinct qs → NotIn x (erase x qs)
unfolding erase
NotIn-erase_self x [] d = tt
NotIn-erase_self x (q ∷ qs) (out, d) = elim (Bool-cases (q == x)) [
  | inl e ↦ rw e (rw (==→eq q x e) at out)
  | inr e ↦ rw e (λ k. ==→ne q x e (sym k), NotIn-erase_self x qs d)
]

Apart-erase : (x : ℕ) (zs qs : List ℕ) → Apart zs qs → Apart zs (erase x qs)
Apart-erase x zs qs a = AllOf-imp _ _ zs (λ z out. NotIn-erase z x qs out) a

-- A call that gives a state with the queue `qs` and the zombies `zs`.
pub record Gives (s : Sched) (r : Option Sched) (qs zs : List ℕ) : Type 0 where
  pub after : Sched
  pub same : SameButNext s.procs after.procs
  pub current : after.current_process ≡ s.current_process
  pub result : r ≡ some after
  pub valid : IsSched after qs zs

module _ {s : Sched} {qs zs : List ℕ} (v : IsSched s qs zs) where
  pub dequeue-IsSched :
      (fuel proc : ℕ)
      → proc ≢ 0
      → length qs < fuel
      → Gives s (scheduler_dequeue fuel s proc) (erase proc qs) zs
  dequeue-IsSched fuel proc nz l =
      let r = scheduler_dequeue_lem s proc fuel qs v.queue nz l in
      record {
        after = r.after;
        same = r.same;
        current = r.current;
        result = r.result;
        valid = record {
          queue = r.queue;
          zombies =
              rw r.zombies
                (Seg-Apart s.procs r.after.procs s.zombie_head zs qs r.others v.apart v.zombies);
          once = v.once;
          apart = Apart-erase proc zs qs v.apart;
        };
      }

  -- With more fuel than queued processes, `scheduler_mark_zombie` of a process that is no zombie yet
  -- takes it out of the queue and puts it at the head of the zombies.
  pub mark_zombie-IsSched :
      (fuel proc : ℕ)
      → proc ≢ 0
      → NotIn proc zs
      → length qs < fuel
      → Gives s (scheduler_mark_zombie fuel s proc) (erase proc qs) (proc ∷ zs)
  unfolding scheduler_mark_zombie
  mark_zombie-IsSched fuel proc nz off l =
      let r = dequeue-IsSched fuel proc nz l in
      let t : Sched = r.after in
      let gone : NotIn proc (erase proc qs) = NotIn-erase_self proc qs v.queue.distinct in
      let v' = r.valid in
      let linked : Process = record (t.procs proc) { next = t.zombie_head } in
      rw (ne→== proc 0 nz, r.result)
        (record {
          after = record t { procs = set_next t.procs proc t.zombie_head; zombie_head = proc };
          same = λ x. set_next-SameButNext t.procs proc t.zombie_head x ∙ r.same x;
          current = r.current;
          result = refl;
          valid = record {
            queue = record {
              seg = Seg-put t.procs proc linked t.queue_head (erase proc qs) gone v'.queue.seg;
              distinct = v'.queue.distinct;
              tail = v'.queue.tail;
              size = v'.queue.size;
              small = v'.queue.small;
            };
            zombies = (
              refl,
              nz,
              rw (ap (λ p. p.next) (put_self t.procs proc linked))
                  (Seg-put t.procs proc linked t.zombie_head zs off v'.zombies),
            );
            once = (off, v.once);
            apart = (gone, v'.apart);
          };
        })

-- A state with the same two lists: the links, the heads, the tail and the count are the same.
pub record SameLists (s s' : Sched) : Type 0 where
  pub links : (x : ℕ) → (s'.procs x).next ≡ (s.procs x).next
  pub head : s'.queue_head ≡ s.queue_head
  pub tail : s'.queue_tail ≡ s.queue_tail
  pub size : s'.queue_size ≡ s.queue_size
  pub zombies : s'.zombie_head ≡ s.zombie_head

pub SameLists-IsSched :
    {s s' : Sched} {qs zs : List ℕ} → SameLists s s' → IsSched s qs zs → IsSched s' qs zs
SameLists-IsSched {s} {s'} {qs} {zs} w v = record {
  queue = record {
    seg = rw w.head (Seg-same s.procs s'.procs s.queue_head qs w.links v.queue.seg);
    distinct = v.queue.distinct;
    tail = w.tail ∙ v.queue.tail;
    size = w.size ∙ v.queue.size;
    small = v.queue.small;
  };
  zombies = rw w.zombies (Seg-same s.procs s'.procs s.zombie_head zs w.links v.zombies);
  once = v.once;
  apart = v.apart;
}

pub do_switch-SameLists : (s : Sched) (next : ℕ) → SameLists s (do_switch s next)
unfolding do_switch
do_switch-SameLists s next = elim (Bool-cases (s.current_process == next)) [
  | inl e ↦
      rw e (record { links = λ x. refl; head = refl; tail = refl; size = refl; zombies = refl })
  | inr e ↦
      let w = do_switch-Switched s next (==→ne s.current_process next e) in
      record { links = w.links; head = w.head; tail = w.tail; size = w.size; zombies = w.zombies }
]

-- The two lists after a change of who runs: the zombies are the same.
abbrev pub Keeps : Sched → List ℕ → Type 0
Keeps s zs = (qs' : List ℕ) × IsSched s qs' zs

Rotated-Keeps :
    {s s' : Sched} {qs zs : List ℕ} (qs' : List ℕ)
    → IsSched s qs zs
    → Rotated s s' qs qs'
    → ((z : ℕ) → NotIn z qs → NotIn z qs')
    → Keeps s' zs
Rotated-Keeps {s} {s'} {qs} {zs} qs' v r keep = (
  qs',
  record {
    queue = r.queue;
    zombies =
        rw r.zombies (Seg-Apart s.procs s'.procs s.zombie_head zs qs r.others v.apart v.zombies);
    once = v.once;
    apart = AllOf-imp _ _ zs keep v.apart;
  },
)

NotIn-rotated :
    (z : ℕ) (xs : List ℕ) (y : ℕ) (ys : List ℕ)
    → NotIn z (xs ++ (y ∷ ys))
    → NotIn z (ys ++ (xs ++ (y ∷ [])))
NotIn-rotated z xs y ys out =
    let (ne, behind) = NotIn-right z xs (y ∷ ys) out in
    NotIn-append z ys (xs ++ (y ∷ [])) behind
      (NotIn-append z xs (y ∷ []) (NotIn-left z xs (y ∷ ys) out) (ne, tt))

module _ {s : Sched} {qs zs : List ℕ} (v : IsSched s qs zs) where
  pub pick_next-Keeps : Keeps (pick_next s).1 zs
  pick_next-Keeps = elim (first_of (ready_in s) qs) [
    | inl skip ↦ Rotated-Keeps qs v (pick_next-none s qs v.queue skip).1 (λ z out. out)
    | inr f ↦
        let v' : IsSched s (f.before ++ (f.first ∷ f.behind)) zs = rw f.split at v in
        let r = (pick_next-some s f.before f.first f.behind v'.queue f.skip f.hit).1 in
        Rotated-Keeps (f.behind ++ (f.before ++ (f.first ∷ []))) v' r
          (λ z out. NotIn-rotated z f.before f.first f.behind out)
  ]

  pub scheduler_yield-Keeps : Keeps (scheduler_yield s) zs
  unfolding scheduler_yield
  scheduler_yield-Keeps =
      let (qs', v') = pick_next-Keeps in
      elim (Bool-cases ((pick_next s).0 == 0 || (pick_next s).0 == s.current_process)) [
        | inl e ↦ rw e (qs', v')
        | inr e ↦
            rw e (qs', SameLists-IsSched (do_switch-SameLists (pick_next s).1 (pick_next s).0) v')
      ]
