-- ===== src/Vga/Digits.antt =====
-- The numbers that kernel/vga.c prints.
use stak_os.Base.{
  ℕ, zero, suc, ◌+◌, ◌-◌, ◌*◌, ◌/◌, ◌%◌, ◌^◌, ◌<◌, ◌≡◌, inl, inr, refl, sym, ap, ◌∙◌, some, List,
  [], ◌∷◌, arith, ◌==◌, ne→==, eq→==, lt→ltb, le→ltb, Bool-cases, ==→eq,
}
use stak_os.Base.Words.{u32_mod}
use native.Mathlib.Decide.{dec_lt}
use stak_os.Vga.{Vga, int_digits, int_text, kprint, kprint_int}

-- The value of decimal characters behind digits of value `v`.
unfoldable pub decimal : (v : ℕ) → List ℕ → ℕ
decimal v [] = v
decimal v (c ∷ s) = decimal (v * 10 + (c - 48)) s

int_digits_lem :
    (f val : ℕ) (acc : List ℕ)
    → val < 10 ^ f
    → (s : List ℕ) × (int_digits (suc f) val acc ≡ some s) × (decimal 0 s ≡ decimal val acc)
unfolding int_digits decimal
int_digits_lem zero val acc l =
    let z : val ≡ 0 = omega (arith, l) in
    (acc, rw (eq→== val 0 z) refl, ap (λ k. decimal k acc) (sym z))
int_digits_lem (suc f) val acc l = elim (Bool-cases (val == 0)) [
  | inl e ↦ (acc, rw e refl, ap (λ k. decimal k acc) (sym (==→eq val 0 e)))
  | inr e ↦
      let (s, out, v) = int_digits_lem f (val / 10) ((48 + val % 10) ∷ acc) (omega (arith, l)) in
      let digit : val / 10 * 10 + (48 + val % 10 - 48) ≡ val = omega arith in
      (s, rw e out, v ∙ ap (λ k. decimal k acc) digit)
]

-- A word below 2^31 is printed as decimal characters with its value.
pub int_text-positive :
    (val : ℕ) → val < 2147483648 → (s : List ℕ) × (int_text val ≡ some s) × (decimal 0 s ≡ val)
unfolding int_text
int_text-positive val l = elim (Bool-cases (val == 0)) [
  | inl e ↦ (48 ∷ [], rw e refl, unfold decimal in sym (==→eq val 0 e))
  | inr e ↦
      let (s, out, v) = int_digits_lem 10 val [] (omega (arith, l)) in
      (s, rw (e, lt→ltb val 2147483648 l) out, unfold decimal in v)
]

-- A word above 2^31 is printed as a minus sign before the characters of what it lacks to 2^32.
pub int_text-negative :
    (val : ℕ)
    → 2147483648 < val
    → val < u32_mod
    → (s : List ℕ) × (int_text val ≡ some (45 ∷ s)) × (decimal 0 s ≡ u32_mod - val)
unfolding int_text
int_text-negative val l h =
    let negated : (u32_mod - val) % u32_mod ≡ u32_mod - val = omega (arith, l, h) in
    let (s, out, v) = int_digits_lem 10 (u32_mod - val) [] (omega (arith, l, h)) in
    (
      s,
      rw
          (
            ne→== val 0 (λ e. ground (arith, e, l)),
            le→ltb val 2147483648 (omega (arith, l)),
            negated,
            ne→== (u32_mod - val) 2147483648 (λ e. ground (arith, e, l, h)),
            out,
          )
          refl,
      unfold decimal in v,
    )

-- Every number is printed.
pub kprint_int-some : (v : Vga) (val : ℕ) → (w : Vga) × (kprint_int v val ≡ some w)
unfolding int_text kprint_int int_digits
kprint_int-some v val = elim (dec_lt val u32_mod) [
  | yes l ↦ elim (dec_lt val 2147483648) [
    | yes e ↦ let (s, out, _) = int_text-positive val e in (kprint v s, rw (kprint_int, out) refl)
    | no above ↦ elim (dec_lt 2147483648 val) [
      | yes e ↦
          let (s, out, _) = int_text-negative val e l in
          (kprint v (45 ∷ s), rw (kprint_int, out) refl)
      | no same ↦
          let e : val ≡ 2147483648 = omega (arith, above, same) in (kprint v (45 ∷ []), rw e refl)
    ]
  ]
  | no out ↦
      let negated : (u32_mod - val) % u32_mod ≡ 0 = omega (arith, out) in
      (
        kprint v (45 ∷ []),
        rw
            (
              kprint_int,
              ne→== val 0 (omega (arith, out)),
              le→ltb val 2147483648 (omega (arith, out)),
              negated,
            )
            refl,
      )
]
