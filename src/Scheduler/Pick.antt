-- ===== src/Scheduler/Pick.antt =====
-- `pick_next`: the rotation of the queue and the process that it finds.
use stak_os.Base.{
  ℕ, zero, suc, ◌≤◌, ◌<◌, ◌≡◌, inl, inr, refl, sym, ap, ◌∙◌, Bool, true, false, List, [], ◌∷◌, ◌++◌,
  ◌==◌, if◌then◌else◌, arith, length, length-append, ne→==, Bool-cases,
}
use mathlib.Core.List.{append_assoc, append-nil}
use stak_os.Process.{Procs, ready, state_eq}
use stak_os.Scheduler.{Sched, set_next, rotate, pick_loop, pick_next}
use stak_os.Scheduler.Queue.{
  NotIn, NotIn-last, NotIn-append, last, IsQueue, SameButNext, Seg-head_nonzero, put_self, put_ne,
  Seg-put, Seg-snoc, Distinct-snoc, last-snoc, set_next-SameButNext,
}

-- `s'` has the queue `qs'` where `s` has `qs`; no field of a process but `next` differs, and that
-- of no process outside the queue.
pub record Rotated (s s' : Sched) (qs qs' : List ℕ) : Type 0 where
  pub queue : IsQueue s' qs'
  pub same : SameButNext s.procs s'.procs
  pub others : (x : ℕ) → NotIn x qs → s'.procs x ≡ s.procs x
  pub current : s'.current_process ≡ s.current_process
  pub zombies : s'.zombie_head ≡ s.zombie_head

rotate-one : (s : Sched) (q : ℕ) → IsQueue s (q ∷ []) → Rotated s (rotate s) (q ∷ []) (q ∷ [])
unfolding rotate
rotate-one s q v =
    rw (v.seg.0, v.seg.2)
      (record {
        queue = record {
          seg = (
            refl,
            v.seg.1,
            ap (λ p. p.next) (put_self s.procs q (record (s.procs q) { next = 0 })),
          );
          distinct = (tt, tt);
          tail = refl;
          size = v.size;
          small = v.small;
        };
        same = set_next-SameButNext s.procs q 0;
        others = λ x o. put_ne s.procs q x (record (s.procs q) { next = 0 }) (o.0);
        current = refl;
        zombies = refl;
      })

rotate-more :
    (s : Sched) (q r : ℕ) (qs : List ℕ)
    → IsQueue s (q ∷ r ∷ qs)
    → Rotated s (rotate s) (q ∷ r ∷ qs) (r ∷ qs ++ (q ∷ []))
unfolding rotate
rotate-more s q r qs v =
    let procs1 : Procs = set_next s.procs q 0 in
    let (e, nz, (e', nz', g)) = v.seg in
    let (o, d) = v.distinct in
    rw (e, ne→== (s.procs q).next 0 (λ k. nz' (sym e' ∙ k)), v.tail)
      (record {
        queue = record {
          seg =
              Seg-snoc procs1 q (s.procs q).next r qs
                (Seg-put s.procs q _ (s.procs q).next (r ∷ qs) o (e', nz', g)) d o nz
                (ap (λ p. p.next) (put_self s.procs q (record (s.procs q) { next = 0 })));
          distinct = Distinct-snoc (r ∷ qs) q d o;
          tail = sym (last-snoc (r ∷ qs) q);
          size = omega (arith, v.size, length-append qs (q ∷ []));
          small = omega (arith, v.small, length-append qs (q ∷ []));
        };
        same = λ x.
            set_next-SameButNext procs1 (last (r ∷ qs)) q x ∙ set_next-SameButNext s.procs q 0 x;
        others = λ x out.
            put_ne procs1 (last (r ∷ qs)) x _ (NotIn-last x r qs (out.1))
            ∙ put_ne s.procs q x (record (s.procs q) { next = 0 }) (out.0);
        current = refl;
        zombies = refl;
      })

rotate-Rotated :
    (s : Sched) (q : ℕ) (qs : List ℕ)
    → IsQueue s (q ∷ qs)
    → Rotated s (rotate s) (q ∷ qs) (qs ++ (q ∷ []))
rotate-Rotated s q [] v = rotate-one s q v
rotate-Rotated s q (r ∷ qs) v = rotate-more s q r qs v

-- Round robin on the list: up to `n` rounds, until a process passes the test.
unfoldable pub picks : (ℕ → Bool) → ℕ → List ℕ → ℕ × List ℕ
picks is_ready zero qs = (0, qs)
picks is_ready (suc n) [] = (0, [])
picks is_ready (suc n) (q ∷ qs) =
    let rest = picks is_ready n (qs ++ (q ∷ [])) in if is_ready q then (q, qs ++ (q ∷ [])) else rest

abbrev pub ready_in : Sched → ℕ → Bool
ready_in s x = state_eq (s.procs x).state ready

ready-same : (s s' : Sched) (x : ℕ) → SameButNext s.procs s'.procs → ready_in s' x ≡ ready_in s x
ready-same s s' x same = ap (λ p. state_eq p.state ready) (same x)

Rotated-refl : (s : Sched) (qs : List ℕ) → IsQueue s qs → Rotated s s qs qs
Rotated-refl s qs v = record {
  queue = v;
  same = λ x. refl;
  others = λ x o. refl;
  current = refl;
  zombies = refl;
}

-- `picks` on the queue says what the loop returns and what it leaves.
module _ (is_ready : ℕ → Bool) where
  pub record Looped (s : Sched) (n : ℕ) (qs : List ℕ) (r : ℕ × Sched) : Type 0 where
    pub picked : r.0 ≡ (picks is_ready n qs).0
    pub rotated : Rotated s r.1 qs (picks is_ready n qs).1

  pick_step :
      (s : Sched) (n q : ℕ) (qs : List ℕ) (r : ℕ × Sched)
      → IsQueue s (q ∷ qs)
      → is_ready q ≡ false
      → Looped (rotate s) n (qs ++ (q ∷ [])) r
      → Looped s (suc n) (q ∷ qs) r
  unfolding picks
  pick_step s n q qs r v skip l =
      let one = rotate-Rotated s q qs v in
      record {
        picked = rw skip l.picked;
        rotated = rw skip (record {
          queue = l.rotated.queue;
          same = λ x. l.rotated.same x ∙ one.same x;
          others = λ x (ne, o).
              l.rotated.others x (NotIn-append x qs (q ∷ []) o (ne, tt)) ∙ one.others x (ne, o);
          current = l.rotated.current ∙ one.current;
          zombies = l.rotated.zombies ∙ one.zombies;
        });
      }

  pick_hit :
      (s : Sched) (n p q : ℕ) (qs : List ℕ)
      → IsQueue s (q ∷ qs)
      → p ≡ q
      → is_ready q ≡ true
      → Looped s (suc n) (q ∷ qs) (p, rotate s)
  unfolding picks
  pick_hit s n p q qs v e hit = record {
    picked = rw hit e;
    rotated = rw hit (rotate-Rotated s q qs v);
  }

  pick_loop-Looped :
      (s : Sched) (n : ℕ) (qs : List ℕ)
      → IsQueue s qs
      → n ≤ length qs
      → ((x : ℕ) → ready_in s x ≡ is_ready x)
      → Looped s n qs (pick_loop n s)
  unfolding pick_loop
  pick_loop-Looped s zero qs v l test =
      unfold picks in record { picked = refl; rotated = Rotated-refl s qs v }
  pick_loop-Looped s (suc n) [] v l test = absurd (omega arith)
  pick_loop-Looped s (suc n) (q ∷ qs) v l test =
      let one = rotate-Rotated s q qs v in
      let tested : ready_in (rotate s) s.queue_head ≡ is_ready q =
        ready-same s (rotate s) s.queue_head one.same ∙ test s.queue_head ∙ ap is_ready (v.seg.0) in
      elim (Bool-cases (is_ready q)) [
        | inl hit ↦ rw (tested, hit) (pick_hit s n s.queue_head q qs v (v.seg.0) hit)
        | inr skip ↦
            rw (tested, skip)
              (pick_step s n q qs (pick_loop n (rotate s)) v skip (
                pick_loop-Looped (rotate s) n (qs ++ (q ∷ [])) one.queue
                  (omega (arith, length-append qs (q ∷ [])))
                  (λ x. ready-same s (rotate s) x one.same ∙ test x)))
      ]

-- No process of the list passes.
abbrev pub NoneReady : (ℕ → Bool) → List ℕ → Type 0
NoneReady is_ready [] = Unit
NoneReady is_ready (q ∷ qs) = (is_ready q ≡ false) × NoneReady is_ready qs

module _ (is_ready : ℕ → Bool) where
  pub picks-first :
      (xs : List ℕ) (y : ℕ) (zs : List ℕ) (n : ℕ)
      → NoneReady is_ready xs
      → is_ready y ≡ true
      → length xs < n
      → picks is_ready n (xs ++ (y ∷ zs)) ≡ (y, zs ++ (xs ++ (y ∷ [])))
  unfolding picks
  picks-first xs y zs zero none_ready hit l = absurd (omega arith)
  picks-first [] y zs (suc n) none_ready hit l = rw hit
  picks-first (x ∷ xs) y zs (suc n) (skip, none_ready) hit l =
      rw (skip, append_assoc xs (y ∷ zs) (x ∷ []))
        (picks-first xs y (zs ++ (x ∷ [])) n none_ready hit (omega arith)
          ∙ ap (λ r. (y, r)) (append_assoc zs (x ∷ []) (xs ++ (y ∷ []))))

  picks-none_from :
      (xs ys : List ℕ)
      → NoneReady is_ready xs
      → picks is_ready (length xs) (xs ++ ys) ≡ (0, ys ++ xs)
  unfolding picks
  picks-none_from [] ys none_ready = rw append-nil
  picks-none_from (x ∷ xs) ys (skip, none_ready) =
      rw (skip, append_assoc xs ys (x ∷ []))
        (picks-none_from xs (ys ++ (x ∷ [])) none_ready
          ∙ ap (λ r. (0, r)) (append_assoc ys (x ∷ []) xs))

  pub picks-none : (xs : List ℕ) → NoneReady is_ready xs → picks is_ready (length xs) xs ≡ (0, xs)
  picks-none xs none_ready = rw append-nil at (picks-none_from xs [] none_ready)

module _ (s : Sched) where
  pick_loop_lem :
      (qs : List ℕ) (n : ℕ)
      → n ≡ length qs
      → IsQueue s qs
      → Looped (ready_in s) s (length qs) qs (pick_loop n s)
  pick_loop_lem qs n e v =
      rw e (pick_loop-Looped (ready_in s) s (length qs) qs v (omega arith) (λ x. refl))

  -- With a well-formed queue that has a READY process `y` and none before it, `pick_next` returns `y`, and the queue
  -- is rotated to end with what stood before `y` and with `y`, so that each process behind moves up;
  -- no process differs but in its link.
  pub pick_next-some :
      (xs : List ℕ) (y : ℕ) (zs : List ℕ)
      → IsQueue s (xs ++ (y ∷ zs))
      → NoneReady (ready_in s) xs
      → ready_in s y ≡ true
      → ((pick_next s).0 ≡ y) × Rotated s (pick_next s).1 (xs ++ (y ∷ zs)) (zs ++ (xs ++ (y ∷ [])))
  unfolding pick_next
  pick_next-some xs y zs v skip hit =
      let l = pick_loop_lem (xs ++ (y ∷ zs)) s.queue_size v.size v in
      let e =
        picks-first (ready_in s) xs y zs (length (xs ++ (y ∷ zs))) skip hit
          (omega (arith, length-append xs (y ∷ zs))) in
      rw (ne→== s.queue_head 0 (Seg-head_nonzero s.procs s.queue_head xs y zs v.seg))
        (l.picked ∙ ap (λ r. r.0) e, rw e at l.rotated)

  -- With a well-formed queue that has no READY process `pick_next` returns NULL, and the queue is as before.
  pub pick_next-none :
      (qs : List ℕ)
      → IsQueue s qs
      → NoneReady (ready_in s) qs
      → ((pick_next s).0 ≡ 0) × Rotated s (pick_next s).1 qs qs
  unfolding pick_next
  pick_next-none qs v skip =
      let l = pick_loop_lem qs s.queue_size v.size v in
      let e = picks-none (ready_in s) qs skip in
      elim (Bool-cases (s.queue_head == 0)) [
        | inl h ↦ rw h (refl, Rotated-refl s qs v)
        | inr h ↦ rw h (l.picked ∙ ap (λ r. r.0) e, rw e at l.rotated)
      ]
