-- ===== src/Scheduler/Fairness.antt =====
-- Round robin is fair: a READY process runs after at most as many yields as stand before it.
use stak_os.Base.{
  ℕ, zero, suc, ◌+◌, ◌≤◌, ◌<◌, ◌≡◌, ◌≢◌, ◌⊎◌, inl, inr, refl, sym, ap, ◌∙◌, Bool, true, List, [],
  ◌∷◌, ◌++◌, Bool-cases, arith, length, length-append,
}
use mathlib.Core.List.{append_assoc}
use stak_os.Process.{ready, state_eq, ProcessState, running, blocked, zombie, dead}
use stak_os.Scheduler.{Sched, scheduler_yield}
use stak_os.Scheduler.Queue.{IsQueue}
use stak_os.Scheduler.Erase.{NotIn-right, Distinct-right}
use stak_os.Scheduler.Pick.{NoneReady, ready_in}
use stak_os.Scheduler.Yield.{scheduler_yield-Yielded}

-- `n` yields, one after the other.
unfoldable pub yields : ℕ → Sched → Sched
yields zero s = s
yields (suc n) s = yields n (scheduler_yield s)

pub state_eq-ready : (st : ProcessState) → state_eq st ready ≡ true → st ≡ ready
state_eq-ready ready e = refl
state_eq-ready running e = cc
state_eq-ready blocked e = cc
state_eq-ready zombie e = cc
state_eq-ready dead e = cc

-- The first process of a list that passes the test.
pub record FirstOf (is_ready : ℕ → Bool) (xs : List ℕ) : Type 0 where
  pub before : List ℕ
  pub first : ℕ
  pub behind : List ℕ
  pub split : xs ≡ before ++ (first ∷ behind)
  pub skip : NoneReady is_ready before
  pub hit : is_ready first ≡ true

pub first_of : (is_ready : ℕ → Bool) (xs : List ℕ) → NoneReady is_ready xs ⊎ FirstOf is_ready xs
first_of is_ready [] = inl tt
first_of is_ready (x ∷ xs) = elim (Bool-cases (is_ready x)) [
  | inl e ↦ inr (record { before = []; first = x; behind = xs; split = refl; skip = tt; hit = e })
  | inr e ↦ elim (first_of is_ready xs) [
    | inl none_ready ↦ inl (e, none_ready)
    | inr f ↦ inr (record {
      before = x ∷ f.before;
      first = f.first;
      behind = f.behind;
      split = ap (λ l. x ∷ l) f.split;
      skip = (e, f.skip);
      hit = f.hit;
    })
  ]
]

-- `y` is current after 1 to `bound` yields.
abbrev pub RunsWithin : Sched → (y bound : ℕ) → Type 0
RunsWithin s y bound = (n : ℕ) × (0 < n) × (n ≤ bound) × ((yields n s).current_process ≡ y)

fair_from :
    (k : ℕ) (s : Sched) (xs : List ℕ) (y : ℕ) (zs : List ℕ)
    → length xs < k
    → IsQueue s (xs ++ (y ∷ zs))
    → (s.procs y).state ≡ ready
    → RunsWithin s y (suc (length xs))
unfolding yields
fair_from zero s xs y zs l v st = absurd (omega arith)
fair_from (suc k) s xs y zs l v st = elim (first_of (ready_in s) xs) [
  | inl skip ↦ (1, omega arith, omega arith, (scheduler_yield-Yielded s xs y zs v skip st).current)
  | inr f ↦
      let b : ℕ = f.first in
      let whole : xs ++ (y ∷ zs) ≡ f.before ++ (b ∷ (f.behind ++ (y ∷ zs))) =
        ap (λ l. l ++ (y ∷ zs)) f.split ∙ append_assoc f.before (b ∷ f.behind) (y ∷ zs) in
      let v' : IsQueue s (f.before ++ (b ∷ (f.behind ++ (y ∷ zs)))) = rw whole at v in
      let one =
        scheduler_yield-Yielded s f.before b (f.behind ++ (y ∷ zs)) v' f.skip
          (state_eq-ready (s.procs b).state f.hit) in
      let apart : y ≢ b = λ e.
        (NotIn-right b f.behind (y ∷ zs)
            (Distinct-right f.before (b ∷ (f.behind ++ (y ∷ zs))) v'.distinct).0).0
          (sym e) in
      let queue : IsQueue (scheduler_yield s) (f.behind ++ (y ∷ (zs ++ (f.before ++ (b ∷ []))))) =
        rw (append_assoc f.behind (y ∷ zs) (f.before ++ (b ∷ []))) at one.queue in
      let short : length xs ≡ length f.before + suc (length f.behind) =
        ap length f.split ∙ length-append f.before (b ∷ f.behind) in
      let (n, pos, le, e) =
        fair_from k (scheduler_yield s) f.behind y (zs ++ (f.before ++ (b ∷ [])))
          (omega (arith, short, l)) queue (one.waits y apart st) in
      (suc n, omega arith, omega (arith, short, le), e)
]

-- On a well-formed queue, a READY process becomes current after at least one and at most one more
-- yield than the number of processes before it.
pub scheduler_yield-fair :
    (s : Sched) (xs : List ℕ) (y : ℕ) (zs : List ℕ)
    → IsQueue s (xs ++ (y ∷ zs))
    → (s.procs y).state ≡ ready
    → RunsWithin s y (suc (length xs))
scheduler_yield-fair s xs y zs v st = fair_from (suc (length xs)) s xs y zs (omega arith) v st
