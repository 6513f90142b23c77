-- ===== src/Shell/Numbers.antt =====
-- `sh_strtoul` of shell/sh_util.c computes the number without bounds, cut at the largest word.
use stak_os.Base.{
  ℕ, ◌+◌, ◌*◌, ◌<◌, ◌≡◌, refl, ap, ◌∙◌, none, some, List, [], ◌∷◌, min, arith, inl, inr, ltb,
  if◌then◌else◌, ◌||◌, ◌-◌, ◌/◌, Bool-cases, Option-cases,
}
use stak_os.Base.Words.{mul32}
use stak_os.Shell.{digit_of, strtoul_loop, max32, skip_prefix, sh_strtoul}

-- The value of the digits at the start of a string, behind digits of value `v`.
unfoldable pub digits_value : (base v : ℕ) → List ℕ → ℕ
digits_value base v [] = v
digits_value base v (c ∷ s) = elim (digit_of c) [
  | none ↦ v
  | some digit ↦ digits_value base (v * base + digit) s
]

digit_of-lt : (c d : ℕ) → digit_of c ≡ some d → d < 16
unfolding digit_of
digit_of-lt c d e = ground (arith, e)

step_sixteen :
    (v d : ℕ)
    → d < 16
    → (if ltb (max32 / 16) (min v max32) || ltb (max32 - d) (mul32 (min v max32) 16)
        then max32
        else min v max32 * 16 + d)
      ≡ min (v * 16 + d) max32
step_sixteen v d l = ground arith

module _ (base : ℕ)
    (step : (v d : ℕ)
      → d < 16
      → (if ltb (max32 / base) (min v max32) || ltb (max32 - d) (mul32 (min v max32) base)
          then max32
          else min v max32 * base + d)
        ≡ min (v * base + d) max32) where
  strtoul_loop-min :
      (v : ℕ) (s : List ℕ) → strtoul_loop base (min v max32) s ≡ min (digits_value base v s) max32
  unfolding strtoul_loop digits_value
  strtoul_loop-min v [] = refl
  strtoul_loop-min v (c ∷ s) = elim (Option-cases (digit_of c)) [
    | inl e ↦ rw (e, strtoul_loop, digits_value) refl
    | inr (d, e) ↦
        elim (Bool-cases
          (ltb (max32 / base) (min v max32) || ltb (max32 - d) (mul32 (min v max32) base))) [
            | inl h ↦
                rw (e, strtoul_loop, digits_value, h)
                  (ap (λ r. strtoul_loop base r s) (rw h at (step v d (digit_of-lt c d e)))
                    ∙ strtoul_loop-min (v * base + d) s)
            | inr h ↦
                rw (e, strtoul_loop, digits_value, h)
                  (ap (λ r. strtoul_loop base r s) (rw h at (step v d (digit_of-lt c d e)))
                    ∙ strtoul_loop-min (v * base + d) s)
          ]
  ]

-- In base 16 `sh_strtoul` returns the value of the digits behind the optional prefix `0x`, or 2^32 - 1
-- where that is larger.
pub sh_strtoul_sixteen :
    (s : List ℕ) → sh_strtoul s 16 ≡ min (digits_value 16 0 (skip_prefix 16 s)) max32
unfolding sh_strtoul
sh_strtoul_sixteen s = strtoul_loop-min 16 step_sixteen 0 (skip_prefix 16 s)
