-- ===== src/Scheduler/Wake.antt =====
-- The wake-up loop of `scheduler_tick` visits every queued process once.
use stak_os.Base.{
  ℕ, zero, suc, ◌<◌, ◌≡◌, inl, inr, refl, ap, ◌∙◌, true, ◌&&◌, Option, some, List, [], ◌∷◌, ◌==◌,
  if◌then◌else◌, ltb, lt→ltb, ◌-◌, eq→==, ne→==, ==→eq, ==→ne, Bool-cases, arith, length,
}
use stak_os.Base.Distinct.{AllOf, AllOf-map}
use stak_os.Base.Words.{u32_mod, sub32}
use stak_os.Process.{Process, Procs, put, blocked, ready, state_eq}
use stak_os.Scheduler.{Sched, wake, wake_loop}
use stak_os.Scheduler.Queue.{NotIn, Distinct, Seg, Seg-put, IsQueue, put_self, put_ne}

-- The links stay; a sleeper counts down, and is READY when it reaches 0.
pub wake-next : (p : Process) → (wake p).next ≡ p.next
unfolding wake
wake-next p = elim (Bool-cases (state_eq p.state blocked && ltb 0 p.sleep_ticks)) [
  | inl e ↦ rw e refl
  | inr e ↦ rw e refl
]

-- What the loop leaves of the processes of the queue `qs`, and of all others.
pub record Woken (procs : Procs) (qs : List ℕ) (r : Option Procs) : Type 0 where
  pub after : Procs
  pub result : r ≡ some after
  pub queued : AllOf (λ q. after q ≡ wake (procs q)) qs
  pub others : (x : ℕ) → NotIn x qs → after x ≡ procs x
  pub links : (x : ℕ) → (after x).next ≡ (procs x).next

pub put-next :
    (procs : Procs) (p : ℕ) (v : Process) (x : ℕ)
    → v.next ≡ (procs p).next
    → (put procs p v x).next ≡ (procs x).next
put-next procs p v x e = elim (Bool-cases (x == p)) [
  | inl t ↦ rw (==→eq x p t) (ap (λ q. q.next) (put_self procs p v) ∙ e)
  | inr t ↦ ap (λ q. q.next) (put_ne procs p x v (==→ne x p t))
]

wake_loop-Woken :
    (qs : List ℕ) (fuel : ℕ) (procs : Procs) (p : ℕ)
    → Seg procs p qs
    → Distinct qs
    → length qs < fuel
    → Woken procs qs (wake_loop fuel procs p)
unfolding wake_loop
wake_loop-Woken qs zero procs p g d l = absurd (omega arith)
wake_loop-Woken [] (suc fuel) procs p g d l = rw (eq→== p 0 g) (record {
  after = procs;
  result = refl;
  queued = tt;
  others = λ x out. refl;
  links = λ x. refl;
})
wake_loop-Woken (q ∷ qs) (suc fuel) procs p (e, nz, g) (out, d) l =
    let woken : Process = wake (procs q) in
    let procs1 : Procs = put procs q woken in
    let link : (procs1 q).next ≡ (procs q).next =
      ap (λ v. v.next) (put_self procs q woken) ∙ wake-next (procs q) in
    let g1 : Seg procs1 (procs1 q).next qs =
      rw link (Seg-put procs q woken (procs q).next qs out g) in
    let r = wake_loop-Woken qs fuel procs1 (procs1 q).next g1 d (omega arith) in
    rw (e, ne→== q 0 nz)
      (record {
        after = r.after;
        result = r.result;
        queued = (
          r.others q out ∙ put_self procs q woken,
          AllOf-map _ _ q qs (λ x ne h. h ∙ ap wake (put_ne procs q x woken ne)) out r.queued,
        );
        others = λ x (ne, o). r.others x o ∙ put_ne procs q x woken ne;
        links = λ x. r.links x ∙ put-next procs q woken x (wake-next (procs q));
      })

-- On a well-formed queue, with more fuel than processes in it, the wake-up loop ends; each queued
-- process has gone through `wake` once, and no other process has changed.
pub wake_loop_lem :
    (s : Sched) (qs : List ℕ) (fuel : ℕ)
    → IsQueue s qs
    → length qs < fuel
    → Woken s.procs qs (wake_loop fuel s.procs s.queue_head)
wake_loop_lem s qs fuel v l = wake_loop-Woken qs fuel s.procs s.queue_head v.seg v.distinct l

-- `wake` counts a sleeper down by one, and makes it READY exactly when nothing is left.
pub wake_lem :
    (p : Process)
    → p.state ≡ blocked
    → 0 < p.sleep_ticks
    → p.sleep_ticks < u32_mod
    → ((wake p).sleep_ticks ≡ p.sleep_ticks - 1)
      × ((wake p).state ≡ (if p.sleep_ticks == 1 then ready else blocked))
unfolding wake
wake_lem p st pos small =
    let test : state_eq p.state blocked ≡ true = ap (λ t. state_eq t blocked) st in
    let down : sub32 p.sleep_ticks 1 ≡ p.sleep_ticks - 1 = omega (arith, pos, small) in
    rw (test, lt→ltb 0 p.sleep_ticks pos, down)
      (
        refl,
        elim (Bool-cases (p.sleep_ticks == 1)) [
          | inl e ↦
              rw (e, eq→== (p.sleep_ticks - 1) 0 (omega (arith, ==→eq p.sleep_ticks 1 e))) refl
          | inr e ↦
              rw
                (
                  e,
                  ne→== (p.sleep_ticks - 1) 0
                      (λ z. ==→ne p.sleep_ticks 1 e (omega (arith, z, pos))),
                )
                st
        ],
      )
