-- ===== src/Scheduler/Queue.antt =====
-- The linked queue as a list of pointers, and what single writes do to it.
use stak_os.Base.{
  ℕ, ◌<◌, ◌≡◌, ◌≢◌, inl, inr, refl, sym, ap, ◌∙◌, List, [], ◌∷◌, ◌++◌, ◌==◌, length, Bool-cases,
  ==→eq, ne→==, ==_self,
}
pub use stak_os.Base.Distinct.{NotIn, Distinct}
use stak_os.Base.Words.{u32_mod}
use stak_os.Process.{Process, Procs, put}
use stak_os.Scheduler.{Sched, set_next}

-- From `p` the `next` fields lead through `qs` to NULL.
abbrev pub Seg : Procs → ℕ → List ℕ → Type 0
Seg procs p [] = p ≡ 0
Seg procs p (q ∷ qs) = (p ≡ q) × (q ≢ 0) × Seg procs (procs q).next qs

-- The last pointer, 0 in the empty list.
abbrev pub last : List ℕ → ℕ
last [] = 0
last (q ∷ []) = q
last (q ∷ r ∷ qs) = last (r ∷ qs)

pub record IsQueue (s : Sched) (qs : List ℕ) : Type 0 where
  pub seg : Seg s.procs s.queue_head qs
  pub distinct : Distinct qs
  pub tail : s.queue_tail ≡ last qs
  pub size : s.queue_size ≡ length qs
  pub small : length qs < u32_mod

-- The structures agree but for their `next` fields.
abbrev pub but_next : Process → Process
but_next p = record p { next = 0 }

abbrev pub SameButNext : Procs → Procs → Type 0
SameButNext procs procs' = (x : ℕ) → but_next (procs' x) ≡ but_next (procs x)

pub put_self : (procs : Procs) (p : ℕ) (v : Process) → put procs p v p ≡ v
unfolding put
put_self procs p v = rw (==_self p)

pub put_ne : (procs : Procs) (p q : ℕ) (v : Process) → q ≢ p → put procs p v q ≡ procs q
unfolding put
put_ne procs p q v ne = rw (ne→== q p ne)

pub set_next-SameButNext : (procs : Procs) (p v : ℕ) → SameButNext procs (set_next procs p v)
unfolding put
set_next-SameButNext procs p v x = elim (Bool-cases (x == p)) [
  | inl e ↦ rw e (ap (λ k. but_next (procs k)) (sym (==→eq x p e)))
  | inr e ↦ rw e
]

pub Seg-put :
    (procs : Procs) (x : ℕ) (v : Process) (p : ℕ) (qs : List ℕ)
    → NotIn x qs
    → Seg procs p qs
    → Seg (put procs x v) p qs
Seg-put procs x v p [] out s = s
Seg-put procs x v p (q ∷ qs) (ne, out) (e, nz, s) =
    (e, nz, rw (put_ne procs x q v (λ k. ne (sym k))) (Seg-put procs x v (procs q).next qs out s))

-- A change that keeps every `next` keeps the queue.
pub Seg-same :
    (procs procs' : Procs) (p : ℕ) (qs : List ℕ)
    → ((x : ℕ) → (procs' x).next ≡ (procs x).next)
    → Seg procs p qs
    → Seg procs' p qs
Seg-same procs procs' p [] same s = s
Seg-same procs procs' p (q ∷ qs) same (e, nz, s) =
    (e, nz, rw (same q) (Seg-same procs procs' (procs q).next qs same s))

pub NotIn-last : (x q : ℕ) (qs : List ℕ) → NotIn x (q ∷ qs) → x ≢ last (q ∷ qs)
NotIn-last x q [] (ne, _) = ne
NotIn-last x q (r ∷ qs) (_, out) = NotIn-last x r qs out

pub NotIn-append : (x : ℕ) (qs rs : List ℕ) → NotIn x qs → NotIn x rs → NotIn x (qs ++ rs)
NotIn-append x [] rs a b = b
NotIn-append x (q ∷ qs) rs (ne, a) b = (ne, NotIn-append x qs rs a b)

pub Distinct-snoc : (qs : List ℕ) (x : ℕ) → Distinct qs → NotIn x qs → Distinct (qs ++ (x ∷ []))
Distinct-snoc [] x d out = (tt, tt)
Distinct-snoc (q ∷ qs) x (o, d) (ne, out) =
    (NotIn-append q qs (x ∷ []) o ((λ e. ne (sym e)), tt), Distinct-snoc qs x d out)

pub last-snoc : (qs : List ℕ) (x : ℕ) → last (qs ++ (x ∷ [])) ≡ x
last-snoc [] x = refl
last-snoc (q ∷ []) x = refl
last-snoc (q ∷ r ∷ qs) x = last-snoc (r ∷ qs) x

-- Linking `x` behind the last element appends it.
pub Seg-snoc :
    (procs : Procs) (x p q : ℕ) (qs : List ℕ)
    → Seg procs p (q ∷ qs)
    → Distinct (q ∷ qs)
    → NotIn x (q ∷ qs)
    → x ≢ 0
    → (procs x).next ≡ 0
    → Seg (set_next procs (last (q ∷ qs)) x) p (q ∷ qs ++ (x ∷ []))
Seg-snoc procs x p q [] (e, nz, s) d (ne, out) xz end = (
  e,
  nz,
  (
    rw (put_self procs q (record (procs q) { next = x })) refl,
    xz,
    rw (put_ne procs q x (record (procs q) { next = x }) ne) end,
  ),
)
Seg-snoc procs x p q (r ∷ qs) (e, nz, s) (o, d) (ne, out) xz end = (
  e,
  nz,
  rw (put_ne procs (last (r ∷ qs)) q _ (NotIn-last q r qs o))
      (Seg-snoc procs x (procs q).next r qs s d out xz end),
)

pub Seg-head_nonzero :
    (procs : Procs) (p : ℕ) (xs : List ℕ) (y : ℕ) (zs : List ℕ)
    → Seg procs p (xs ++ (y ∷ zs))
    → p ≢ 0
Seg-head_nonzero procs p [] y zs (e, nz, _) z = nz (sym e ∙ z)
Seg-head_nonzero procs p (x ∷ xs) y zs (e, nz, _) z = nz (sym e ∙ z)
