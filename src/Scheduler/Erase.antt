-- ===== src/Scheduler/Erase.antt =====
-- Lists of processes with one of them taken out.
use stak_os.Base.{
  ℕ, suc, ◌≡◌, ◌≢◌, refl, sym, ap, List, [], ◌∷◌, ◌++◌, ◌==◌, if◌then◌else◌, arith, length,
  length-append, ne→==, eq→==,
}
use stak_os.Scheduler.Queue.{NotIn, Distinct, last, NotIn-last}

-- The first `x` is taken out.
unfoldable pub erase : ℕ → List ℕ → List ℕ
erase x [] = []
erase x (q ∷ qs) = if q == x then qs else q ∷ erase x qs

pub NotIn-left : (x : ℕ) (qs rs : List ℕ) → NotIn x (qs ++ rs) → NotIn x qs
NotIn-left x [] rs out = tt
NotIn-left x (q ∷ qs) rs (ne, out) = (ne, NotIn-left x qs rs out)

pub NotIn-right : (x : ℕ) (qs rs : List ℕ) → NotIn x (qs ++ rs) → NotIn x rs
NotIn-right x [] rs out = out
NotIn-right x (q ∷ qs) rs (ne, out) = NotIn-right x qs rs out

pub NotIn-drop : (x q : ℕ) (ps rs : List ℕ) → NotIn x (ps ++ (q ∷ rs)) → NotIn x (ps ++ rs)
NotIn-drop x q [] rs (ne, out) = out
NotIn-drop x q (p ∷ ps) rs (ne, out) = (ne, NotIn-drop x q ps rs out)

pub Distinct-drop : (q : ℕ) (ps rs : List ℕ) → Distinct (ps ++ (q ∷ rs)) → Distinct (ps ++ rs)
Distinct-drop q [] rs (o, d) = d
Distinct-drop q (p ∷ ps) rs (o, d) = (NotIn-drop p q ps rs o, Distinct-drop q ps rs d)

pub Distinct-right : (ps rs : List ℕ) → Distinct (ps ++ rs) → Distinct rs
Distinct-right [] rs d = d
Distinct-right (p ∷ ps) rs (_, d) = Distinct-right ps rs d

pub last-append : (ps : List ℕ) (r : ℕ) (rs : List ℕ) → last (ps ++ (r ∷ rs)) ≡ last (r ∷ rs)
last-append [] r rs = refl
last-append (p ∷ []) r rs = refl
last-append (p ∷ p' ∷ ps) r rs = last-append (p' ∷ ps) r rs

pub erase-found : (x : ℕ) (ps rs : List ℕ) → NotIn x ps → erase x (ps ++ (x ∷ rs)) ≡ ps ++ rs
unfolding erase
erase-found x [] rs out = rw (eq→== x x refl)
erase-found x (p ∷ ps) rs (ne, out) =
    rw (ne→== p x (λ e. ne (sym e))) (ap (λ l. p ∷ l) (erase-found x ps rs out))

pub erase-absent : (x : ℕ) (qs : List ℕ) → NotIn x qs → erase x qs ≡ qs
unfolding erase
erase-absent x [] out = refl
erase-absent x (q ∷ qs) (ne, out) =
    rw (ne→== q x (λ e. ne (sym e))) (ap (λ l. q ∷ l) (erase-absent x qs out))

pub length-append_cons :
    (ps : List ℕ) (q : ℕ) (rs : List ℕ) → length (ps ++ (q ∷ rs)) ≡ suc (length (ps ++ rs))
length-append_cons ps q rs = omega (arith, length-append ps (q ∷ rs), length-append ps rs)

pub NotIn-last_of : (x : ℕ) (ps : List ℕ) → NotIn x ps → last ps ≢ 0 → x ≢ last ps
NotIn-last_of x [] out nz = absurd (nz refl)
NotIn-last_of x (p ∷ ps) out nz = NotIn-last x p ps out
