-- ===== src/Base/Distinct.antt =====
-- Lists of numbers without repetition, and what holds of every number of a list.
use Prim.Native.Nat.{ℕ}
use mathlib.Core.Path.{◌≡◌, sym}
use mathlib.Core.Logic.{◌≢◌, ◌⊎◌, inl, inr}
use mathlib.Core.List.{List, [], ◌∷◌}
use native.Mathlib.Decide.{ℕ_discrete}

abbrev pub NotIn : ℕ → List ℕ → Type 0
NotIn x [] = Unit
NotIn x (q ∷ qs) = (x ≢ q) × NotIn x qs

abbrev pub Distinct : List ℕ → Type 0
Distinct [] = Unit
Distinct (q ∷ qs) = NotIn q qs × Distinct qs

abbrev pub AllOf : (ℕ → Type 0) → List ℕ → Type 0
AllOf P [] = Unit
AllOf P (q ∷ qs) = P q × AllOf P qs

pub AllOf-map :
    (P Q : ℕ → Type 0) (x : ℕ) (qs : List ℕ)
    → ((q : ℕ) → q ≢ x → P q → Q q)
    → NotIn x qs
    → AllOf P qs
    → AllOf Q qs
AllOf-map P Q x [] f out all = tt
AllOf-map P Q x (q ∷ qs) f (ne, out) (p, all) =
    (f q (λ e. ne (sym e)) p, AllOf-map P Q x qs f out all)

pub AllOf-imp : (P Q : ℕ → Type 0) (qs : List ℕ) → ((q : ℕ) → P q → Q q) → AllOf P qs → AllOf Q qs
AllOf-imp P Q [] f all = tt
AllOf-imp P Q (q ∷ qs) f (p, all) = (f q p, AllOf-imp P Q qs f all)

-- What fails for `x` and holds of the list keeps `x` out of it.
pub NotIn-AllOf :
    (P : ℕ → Type 0) (x : ℕ) (qs : List ℕ) → ((q : ℕ) → x ≡ q → ¬ P q) → AllOf P qs → NotIn x qs
NotIn-AllOf P x [] f all = tt
NotIn-AllOf P x (q ∷ qs) f (p, all) = (λ e. f q e p, NotIn-AllOf P x qs f all)

-- A number of the list has both properties, or is not in it.
pub both_or_NotIn :
    (P Q : ℕ → Type 0) (x : ℕ) (qs : List ℕ) → AllOf P qs → AllOf Q qs → (P x × Q x) ⊎ NotIn x qs
both_or_NotIn P Q x [] ps qs = inr tt
both_or_NotIn P Q x (y ∷ ys) (p, ps) (q, qs) = elim (ℕ_discrete x y) [
  | yes e ↦ inl (rw e p, rw e q)
  | no ne ↦ elim (both_or_NotIn P Q x ys ps qs) [ inl both ↦ inl both | inr out ↦ inr (ne, out) ]
]

pub AllOf-both :
    (P Q : ℕ → Type 0) (qs : List ℕ) → AllOf P qs → AllOf Q qs → AllOf (λ x. P x × Q x) qs
AllOf-both P Q [] ps qs = tt
AllOf-both P Q (y ∷ ys) (p, ps) (q, qs) = ((p, q), AllOf-both P Q ys ps qs)
