-- ===== src/Userland/Strings.antt =====
-- Strings in memory: their length, their printing, and the writes that leave them.
use stak_os.Base.{
  ℕ, zero, suc, ◌+◌, ◌≤◌, ◌<◌, ◌≡◌, refl, ap, ◌∙◌, Bool, true, false, not, ◌&&◌, some, List, [],
  ◌∷◌, ◌==◌, ==_self, length, arith,
}
use stak_os.Memory.{Mem, load8}
use stak_os.Vga.{Vga, kprint, vga_putchar}
use stak_os.Syscall.{write_loop}
use stak_os.Kernel.Exit.{string_at}
use stak_os.Userland.{length_loop}

-- The bytes of `s`, none of them 0, and a NUL stand at `p`.
unfoldable pub holds : Mem → (p : ℕ) → List ℕ → Bool
holds m p [] = load8 m p == 0
holds m p (c ∷ s) = load8 m p == c && not (c == 0) && holds m (p + 1) s

pub record Byte (m : Mem) (p c : ℕ) (s : List ℕ) : Type 0 where
  pub here : load8 m p ≡ c
  pub nonzero : (c == 0) ≡ false
  pub rest : holds m (p + 1) s ≡ true

first_byte : (m : Mem) (p c : ℕ) (s : List ℕ) → holds m p (c ∷ s) ≡ true → Byte m p c s
unfolding holds
first_byte m p c s h = record {
  here = ground (arith, h);
  nonzero = ground (arith, h);
  rest = ground (arith, h);
}

pub length_loop_lem :
    (s : List ℕ) (fuel : ℕ) (m : Mem) (p i : ℕ)
    → holds m (p + i) s ≡ true
    → length s < fuel
    → length_loop fuel m p i ≡ some (i + length s)
unfolding length_loop holds
length_loop_lem s zero m p i h l = absurd (omega (arith, l))
length_loop_lem [] (suc fuel) m p i h l = rw h (ap some (omega arith))
length_loop_lem (c ∷ s) (suc fuel) m p i h l =
    let b = first_byte m (p + i) c s h in
    let at : p + i + 1 ≡ p + (i + 1) = omega arith in
    rw (b.here, b.nonzero)
      (length_loop_lem s fuel m p (i + 1) (rw at at b.rest) (omega (arith, l))
        ∙ ap some (omega arith))

pub write_loop_lem :
    (s : List ℕ) (m : Mem) (p : ℕ) (v : Vga)
    → holds m p s ≡ true
    → write_loop (length s) m p v ≡ kprint v s
unfolding write_loop kprint
write_loop_lem [] m p v h = refl
write_loop_lem (c ∷ s) m p v h =
    let b = first_byte m p c s h in
    ap (λ x. write_loop (length s) m (p + 1) (vga_putchar v x)) b.here
    ∙ write_loop_lem s m (p + 1) (vga_putchar v c) b.rest

pub string_at_lem :
    (s : List ℕ) (fuel : ℕ) (m : Mem) (p : ℕ)
    → holds m p s ≡ true
    → length s < fuel
    → string_at fuel m p ≡ some s
unfolding string_at holds
string_at_lem s zero m p h l = absurd (omega (arith, l))
string_at_lem [] (suc fuel) m p h l = rw h refl
string_at_lem (c ∷ s) (suc fuel) m p h l =
    let b = first_byte m p c s h in
    rw (b.here, b.nonzero, string_at_lem s fuel m (p + 1) b.rest (omega (arith, l)))
      (ap (λ x. some (x ∷ s)) b.here)

pub holds-same :
    (s : List ℕ) (m m' : Mem) (p : ℕ)
    → ((a : ℕ) → p ≤ a → a < p + suc (length s) → m' a ≡ m a)
    → holds m p s ≡ true
    → holds m' p s ≡ true
unfolding holds
holds-same [] m m' p same h = rw (same p (omega arith) (omega arith)) h
holds-same (c ∷ s) m m' p same h =
    let b = first_byte m p c s h in
    rw (same p (omega arith) (omega arith), b.here, b.nonzero, ==_self c)
      (holds-same s m m' (p + 1) (λ a l l'. same a (omega (arith, l)) (omega (arith, l'))) b.rest)
