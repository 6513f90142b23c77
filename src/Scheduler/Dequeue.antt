-- ===== src/Scheduler/Dequeue.antt =====
-- `scheduler_dequeue` takes a process out of the queue, wherever it stands.
use stak_os.Base.{
  ℕ, zero, suc, ◌<◌, ◌≡◌, ◌≢◌, inl, inr, refl, sym, ◌∙◌, Option, some, List, [], ◌∷◌, ◌++◌, ◌==◌,
  if◌then◌else◌, arith, length, ne→==, ==→eq, ==→ne, eq→==, Bool-cases,
}
use mathlib.Core.Path.{subst}
use mathlib.Core.List.{append_assoc, append-nil}
use stak_os.Base.Words.{sub32}
use stak_os.Process.{Procs}
use stak_os.Scheduler.{Sched, set_next, dequeue_loop, scheduler_dequeue}
use stak_os.Scheduler.Queue.{
  NotIn, Distinct, Seg, last, IsQueue, SameButNext, put_self, put_ne, Seg-put, last-snoc,
  set_next-SameButNext, NotIn-last, NotIn-append,
}
use stak_os.Scheduler.Erase.{
  erase, NotIn-left, NotIn-right, Distinct-drop, Distinct-right, last-append, erase-found,
  erase-absent, length-append_cons, NotIn-last_of,
}

-- `last ps` links past `q`, and `q` is cut off.
abbrev unlinked : Procs → ℕ → ℕ → Procs
unlinked procs prev q = set_next (set_next procs prev (procs q).next) q 0

Seg-unlink :
    (procs : Procs) (p a q : ℕ) (ps rs : List ℕ)
    → Seg procs p (a ∷ ps ++ (q ∷ rs))
    → Distinct (a ∷ ps ++ (q ∷ rs))
    → Seg (unlinked procs (last (a ∷ ps)) q) p (a ∷ ps ++ rs)
Seg-unlink procs p a q [] rs (e, nz, (e', nz', s)) ((ne, oa), (oq, d)) = (
  e,
  nz,
  rw
      (
        put_ne (set_next procs a (procs q).next) q a _ ne,
        put_self procs a (record (procs a) { next = (procs q).next }),
      )
      (Seg-put (set_next procs a (procs q).next) q _ (procs q).next rs oq
        (Seg-put procs a _ (procs q).next rs oa s)),
)
Seg-unlink procs p a q (b ∷ ps) rs (e, nz, s) (oa, d) = (
  e,
  nz,
  rw
      (
        put_ne (set_next procs (last (b ∷ ps)) (procs q).next) q a _
            ((NotIn-right a (b ∷ ps) (q ∷ rs) oa).0),
        put_ne procs (last (b ∷ ps)) a _ (NotIn-last a b ps (NotIn-left a (b ∷ ps) (q ∷ rs) oa)),
      )
      (Seg-unlink procs (procs a).next b q ps rs s d),
)

-- What `scheduler_dequeue` of `proc` leaves of `s` with the queue `qs`.
pub record Dequeued (s : Sched) (proc : ℕ) (qs : List ℕ) (r : Option Sched) : Type 0 where
  pub after : Sched
  pub result : r ≡ some after
  pub queue : IsQueue after (erase proc qs)
  pub same : SameButNext s.procs after.procs
  pub others : (x : ℕ) → NotIn x qs → after.procs x ≡ s.procs x
  pub current : after.current_process ≡ s.current_process
  pub zombies : after.zombie_head ≡ s.zombie_head

-- The tail after `q` is cut out.
tail_after :
    (ps rs : List ℕ) (q : ℕ)
    → Distinct (ps ++ (q ∷ rs))
    → (if q == last (ps ++ (q ∷ rs)) then last ps else last (ps ++ (q ∷ rs))) ≡ last (ps ++ rs)
tail_after ps [] q d = rw (append-nil, last-snoc ps q, eq→== q q refl)
tail_after ps (r ∷ rs) q d =
    rw
      (
        last-append ps q (r ∷ rs),
        ne→== q (last (r ∷ rs)) (NotIn-last q r rs ((Distinct-right ps (q ∷ r ∷ rs) d).0)),
      )
      (sym (last-append ps r rs))

module _ (s : Sched) (q : ℕ) where
  -- The writes at the element that is found, with the elements before it.
  cut : (prev : ℕ) → Sched
  cut prev = record s {
    procs = set_next (if prev == 0 then s.procs else set_next s.procs prev (s.procs q).next) q 0;
    queue_head = if prev == 0 then (s.procs q).next else s.queue_head;
    queue_tail = if q == s.queue_tail then prev else s.queue_tail;
    queue_size = sub32 s.queue_size 1;
  }

  cut_first : (rs : List ℕ) → IsQueue s (q ∷ rs) → IsQueue (cut 0) rs
  unfolding cut
  cut_first rs v = record {
    seg = Seg-put s.procs q _ (s.procs q).next rs v.distinct.0 v.seg.2;
    distinct = v.distinct.1;
    tail = rw v.tail (tail_after [] rs q v.distinct);
    size = omega (arith, v.size, v.small);
    small = omega (arith, v.small);
  }

  cut_later :
      (a : ℕ) (ps rs : List ℕ)
      → IsQueue s (a ∷ ps ++ (q ∷ rs))
      → last (a ∷ ps) ≢ 0
      → IsQueue (cut (last (a ∷ ps))) (a ∷ ps ++ rs)
  unfolding cut
  cut_later a ps rs v nz = rw (ne→== (last (a ∷ ps)) 0 nz) (record {
    seg = Seg-unlink s.procs s.queue_head a q ps rs v.seg v.distinct;
    distinct = Distinct-drop q (a ∷ ps) rs v.distinct;
    tail = rw v.tail (tail_after (a ∷ ps) rs q v.distinct);
    size = omega (arith, v.size, v.small, length-append_cons ps q rs);
    small = omega (arith, v.small, length-append_cons ps q rs);
  })

  cut-Same : (prev : ℕ) → SameButNext s.procs (cut prev).procs
  unfolding cut
  cut-Same prev x = elim (Bool-cases (prev == 0)) [
    | inl e ↦ rw e (set_next-SameButNext s.procs q 0 x)
    | inr e ↦ rw e (
        set_next-SameButNext (set_next s.procs prev (s.procs q).next) q 0 x
        ∙ set_next-SameButNext s.procs prev (s.procs q).next x)
  ]

  cut-others : (prev x : ℕ) → x ≢ q → ((prev ≢ 0) → x ≢ prev) → (cut prev).procs x ≡ s.procs x
  unfolding cut
  cut-others prev x nq np = elim (Bool-cases (prev == 0)) [
    | inl e ↦ rw e (put_ne s.procs q x _ nq)
    | inr e ↦ rw e (
        put_ne (set_next s.procs prev (s.procs q).next) q x _ nq
        ∙ put_ne s.procs prev x _ (np (==→ne prev 0 e)))
  ]

pub Seg-last-ne :
    (procs : Procs) (p a : ℕ) (ps rs : List ℕ) → Seg procs p (a ∷ ps ++ rs) → last (a ∷ ps) ≢ 0
Seg-last-ne procs p a [] rs (e, nz, s) = nz
Seg-last-ne procs p a (b ∷ ps) rs (e, nz, s) = Seg-last-ne procs (procs a).next b ps rs s

cut-IsQueue :
    (s : Sched) (ps : List ℕ) (q : ℕ) (rs : List ℕ)
    → IsQueue s (ps ++ (q ∷ rs))
    → IsQueue (cut s q (last ps)) (ps ++ rs)
cut-IsQueue s [] q rs v = cut_first s q rs v
cut-IsQueue s (a ∷ ps) q rs v =
    cut_later s q a ps rs v (Seg-last-ne s.procs s.queue_head a ps (q ∷ rs) v.seg)

module _ (s : Sched) (proc : ℕ) where
  found :
      (ps rs : List ℕ)
      → IsQueue s (ps ++ (proc ∷ rs))
      → NotIn proc ps
      → Dequeued s proc (ps ++ (proc ∷ rs)) (some (cut s proc (last ps)))
  unfolding cut
  found ps rs v out = record {
    after = cut s proc (last ps);
    result = refl;
    queue = rw (erase-found proc ps rs out) (cut-IsQueue s ps proc rs v);
    same = cut-Same s proc (last ps);
    others = λ x o.
        cut-others s proc (last ps) x ((NotIn-right x ps (proc ∷ rs) o).0)
          (NotIn-last_of x ps (NotIn-left x ps (proc ∷ rs) o));
    current = refl;
    zombies = refl;
  }

  found_at :
      (ps : List ℕ) (q : ℕ) (rs : List ℕ)
      → q ≡ proc
      → IsQueue s (ps ++ (q ∷ rs))
      → NotIn proc ps
      → Dequeued s proc (ps ++ (q ∷ rs)) (some (cut s q (last ps)))
  found_at ps q rs same v out =
      subst
        (λ k.
          IsQueue s (ps ++ (k ∷ rs)) → Dequeued s proc (ps ++ (k ∷ rs)) (some (cut s k (last ps))))
        (sym same) (λ w. found ps rs w out) v

  absent : (qs : List ℕ) → IsQueue s qs → NotIn proc qs → Dequeued s proc qs (some s)
  absent qs v out = record {
    after = s;
    result = refl;
    queue = rw (erase-absent proc qs out) v;
    same = λ x. refl;
    others = λ x o. refl;
    current = refl;
    zombies = refl;
  }

  dequeue_loop-Dequeued :
      (rest ps : List ℕ) (fuel prev cur : ℕ)
      → IsQueue s (ps ++ rest)
      → NotIn proc ps
      → prev ≡ last ps
      → Seg s.procs cur rest
      → length rest < fuel
      → Dequeued s proc (ps ++ rest) (dequeue_loop fuel s proc prev cur)
  unfolding dequeue_loop cut
  dequeue_loop-Dequeued rest ps zero prev cur v out e g l = absurd (omega arith)
  dequeue_loop-Dequeued [] ps (suc fuel) prev cur v out e g l =
      rw g (absent (ps ++ []) v (rw append-nil out))
  dequeue_loop-Dequeued (q ∷ rs) ps (suc fuel) prev cur v out e (c, nz, g) l =
      elim (Bool-cases (q == proc)) [
        | inl here ↦ rw (c, ne→== q 0 nz, here, e) (found_at ps q rs (==→eq q proc here) v out)
        | inr there ↦
            rw (c, ne→== q 0 nz, there)
              (subst (λ l. Dequeued s proc l (dequeue_loop fuel s proc q (s.procs q).next))
                (append_assoc ps (q ∷ []) rs)
                (dequeue_loop-Dequeued rs (ps ++ (q ∷ [])) fuel q (s.procs q).next
                  (rw (append_assoc ps (q ∷ []) rs) v)
                  (NotIn-append proc ps (q ∷ []) out ((λ k. ==→ne q proc there (sym k)), tt))
                  (sym (last-snoc ps q)) g (omega arith)))
      ]

  -- On a well-formed queue, with more fuel than processes in it, the search for a process ends; it is taken out if it stands in the queue, and the others keep
  -- their order. No field but `next` changes, and that of no process outside the queue.
  pub scheduler_dequeue_lem :
      (fuel : ℕ) (qs : List ℕ)
      → IsQueue s qs
      → proc ≢ 0
      → length qs < fuel
      → Dequeued s proc qs (scheduler_dequeue fuel s proc)
  unfolding scheduler_dequeue
  scheduler_dequeue_lem fuel [] v nz l =
      rw (ne→== proc 0 nz, eq→== s.queue_head 0 v.seg) (absent [] v tt)
  scheduler_dequeue_lem fuel (q ∷ qs) v nz l =
      rw (ne→== proc 0 nz, ne→== s.queue_head 0 (λ e. v.seg.1 (sym (v.seg.0) ∙ e)))
        (dequeue_loop-Dequeued (q ∷ qs) [] fuel 0 s.queue_head v tt refl v.seg l)
