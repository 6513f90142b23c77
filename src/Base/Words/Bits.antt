-- ===== src/Base/Words/Bits.antt =====
-- Laws of `&` and `|` at variables, from the digit recursions that the native operations stand for.
use Prim.Native.Nat.{
  ℕ, zero, suc, ◌+◌, ◌-◌, ◌*◌, ◌/◌, ◌%◌, ◌^◌, ◌≤◌, ◌<◌, min, max, bit_and, bit_or, digits, bitwise,
  bit_and-bitwise, bit_or-bitwise,
}
use mathlib.Core.Path.{◌≡◌, refl, sym, ap, ◌∙◌}
use native.Mathlib.Nat.{
  pow-suc, pow-succ', div-div-eq-div-mul, mod_def, pow-le-pow_right, mul-one, div-one, mul-div-le,
  one-le-pow,
}
use native.Mathlib.Omega.{arith}
use stak_os.Base.Tests.{◌==◌, if◌then◌else◌}
use stak_os.Base.Words.{u32_mod, not32}

-- Fuel beyond the first number changes no digit.
module _ (tail : ℕ → ℕ) (op : ℕ → ℕ → ℕ) where
  digits-enough :
      (more a b extra : ℕ)
      → more ≡ a + extra
      → (spare : ℕ) → a ≤ spare
      → digits tail op more a b ≡ digits tail op spare a b
  digits-enough zero zero b extra e zero s = refl
  digits-enough zero zero b extra e (suc k) s = refl
  digits-enough zero (suc a) b extra e k s = absurd (omega arith)
  digits-enough (suc n) zero b extra e zero s = refl
  digits-enough (suc n) zero b extra e (suc k) s = refl
  digits-enough (suc n) (suc a) b extra e zero s = absurd (omega arith)
  digits-enough (suc n) (suc a) b extra e (suc k) s =
      rw (digits-enough n (suc a / 2) (b / 2) (n - suc a / 2) (omega arith) k (omega arith))

  bitwise_step :
      (a b : ℕ)
      → bitwise tail op (suc a) b ≡ bitwise tail op (suc a / 2) (b / 2) * 2 + op (suc a % 2) (b % 2)
  bitwise_step a b = omega (
    arith,
    digits-enough a (suc a / 2) (b / 2) (a - suc a / 2) (omega arith) (suc a / 2) (omega arith),
  )

pub bit_or_step : (a b : ℕ) → bit_or a b ≡ bit_or (a / 2) (b / 2) * 2 + max (a % 2) (b % 2)
bit_or_step zero b = omega (arith, bit_or-bitwise 0 b, bit_or-bitwise 0 (b / 2))
bit_or_step (suc a) b = omega (
  arith,
  bit_or-bitwise (suc a) b,
  bit_or-bitwise (suc a / 2) (b / 2),
  bitwise_step (λ k. k) max a b,
)

pub bit_and_step : (a b : ℕ) → bit_and a b ≡ bit_and (a / 2) (b / 2) * 2 + min (a % 2) (b % 2)
bit_and_step zero b = omega (arith, bit_and-bitwise 0 b, bit_and-bitwise 0 (b / 2))
bit_and_step (suc a) b = omega (
  arith,
  bit_and-bitwise (suc a) b,
  bit_and-bitwise (suc a / 2) (b / 2),
  bitwise_step (λ k. 0) min a b,
)

-- Digit `c` of `w`.
abbrev pub test_bit : ℕ → ℕ → ℕ
test_bit w zero = w % 2
test_bit w (suc c) = test_bit (w / 2) c

pub div-pow_suc : (a k : ℕ) → a / 2 ^ suc k ≡ a / 2 / 2 ^ k
div-pow_suc a k = ap (λ d. a / d) (pow-succ' 2 k) ∙ sym (div-div-eq-div-mul a 2 (2 ^ k))

mul-pow_suc : (m k : ℕ) → m * 2 ^ suc k ≡ 2 * (m * 2 ^ k)
mul-pow_suc m k = omega (arith, ap (λ (p : ℕ). m * p) (pow-suc 2 k))

pub shr-test_bit : (w c : ℕ) → w / 2 ^ c % 2 ≡ test_bit w c
shr-test_bit w zero = omega arith
shr-test_bit w (suc c) = ap (λ q. q % 2) (div-pow_suc w c) ∙ shr-test_bit (w / 2) c

pub test_bit-or : (a b c : ℕ) → test_bit (bit_or a b) c ≡ max (test_bit a c) (test_bit b c)
test_bit-or a b zero = omega (arith, bit_or_step a b)
test_bit-or a b (suc c) =
    ap (λ w. test_bit w c) (omega (arith, bit_or_step a b)) ∙ test_bit-or (a / 2) (b / 2) c

pub test_bit-and : (a b c : ℕ) → test_bit (bit_and a b) c ≡ min (test_bit a c) (test_bit b c)
test_bit-and a b zero = omega (arith, bit_and_step a b)
test_bit-and a b (suc c) =
    ap (λ w. test_bit w c) (omega (arith, bit_and_step a b)) ∙ test_bit-and (a / 2) (b / 2) c

pub test_bit-lt : (w c : ℕ) → test_bit w c < 2
test_bit-lt w zero = omega arith
test_bit-lt w (suc c) = test_bit-lt (w / 2) c

pub test_bit-zero : (c : ℕ) → test_bit 0 c ≡ 0
test_bit-zero zero = refl
test_bit-zero (suc c) = test_bit-zero c

pub test_bit-pow : (b c : ℕ) → test_bit (2 ^ b) c ≡ (if b == c then 1 else 0)
test_bit-pow zero zero = refl
test_bit-pow zero (suc c) = ground (arith, test_bit-zero c)
test_bit-pow (suc b) zero = ground (arith, pow-suc 2 b)
test_bit-pow (suc b) (suc c) =
    ap (λ w. test_bit w c) (omega (arith, pow-suc 2 b)) ∙ test_bit-pow b c ∙ ground arith

-- The complement on `k` bits.
test_bit-not_below : (k w c : ℕ) → w < 2 ^ k → c < k → test_bit (2 ^ k - 1 - w) c ≡ 1 - test_bit w c
test_bit-not_below zero w c h l = absurd (omega arith)
test_bit-not_below (suc k) w zero h l = omega (arith, pow-suc 2 k)
test_bit-not_below (suc k) w (suc c) h l =
    ap (λ v. test_bit v c) (omega (arith, pow-suc 2 k))
    ∙ test_bit-not_below k (w / 2) c (omega (arith, pow-suc 2 k)) (omega arith)

pub test_bit-not32 : (w c : ℕ) → w < u32_mod → c < 32 → test_bit (not32 w) c ≡ 1 - test_bit w c
test_bit-not32 w c h l = test_bit-not_below 32 w c h l

-- A shift of one within the width.
pub pow-lt : (c : ℕ) → c < 32 → 2 ^ c < u32_mod
pow-lt c h = omega (arith, pow-le-pow_right {n = 2} (omega arith) {i = c} {j = 31} (omega arith))

pub bit_and-zero : (a : ℕ) (fuel : ℕ) → a ≤ fuel → bit_and a 0 ≡ 0
bit_and-zero zero fuel h = refl
bit_and-zero (suc a) zero h = absurd (omega arith)
bit_and-zero (suc a) (suc fuel) h =
    omega (arith, bit_and_step (suc a) 0, bit_and-zero (suc a / 2) fuel (omega arith))

-- A mask of `k` ones keeps the low `k` digits.
pub bit_and-mask : (k a : ℕ) → bit_and a (2 ^ k - 1) ≡ a % 2 ^ k
bit_and-mask zero a = omega (arith, bit_and-zero a a (omega arith))
bit_and-mask (suc k) a = omega (
  arith,
  bit_and_step a (2 ^ suc k - 1),
  ap (λ (m : ℕ). bit_and (a / 2) m) (half_mask k),
  bit_and-mask k (a / 2),
  pow-suc 2 k,
  one-le-pow k 2 (omega arith),
  mod_def (a / 2) (2 ^ k),
  mod_def a (2 ^ suc k),
  mul-div-le (a / 2) (2 ^ k),
  quotient,
)
  where
    half_mask : (k : ℕ) → (2 ^ suc k - 1) / 2 ≡ 2 ^ k - 1
    half_mask k = omega (arith, pow-suc 2 k)

    quotient : 2 ^ suc k * (a / 2 ^ suc k) ≡ 2 * (2 ^ k * (a / 2 / 2 ^ k))
    quotient =
        rw (div-pow_suc a k) (omega (arith, ap (λ (p : ℕ). p * (a / 2 / 2 ^ k)) (pow-suc 2 k)))

half : (m k : ℕ) → m * 2 ^ suc k / 2 ≡ m * 2 ^ k
half m k = omega (arith, mul-pow_suc m k)

-- A mask with `k` low zeros works on the digits above them.
pub bit_and-high : (k a m : ℕ) → bit_and a (m * 2 ^ k) ≡ bit_and (a / 2 ^ k) m * 2 ^ k
bit_and-high zero a m = simp (mul-one, div-one)
bit_and-high (suc k) a m = rw (div-pow_suc a k) (
    omega (
      arith,
      bit_and_step a (m * 2 ^ suc k),
      ap (λ (h : ℕ). bit_and (a / 2) h) (half m k),
      bit_and-high k (a / 2) m,
      mul-pow_suc m k,
      mul-pow_suc (bit_and (a / 2 / 2 ^ k) m) k,
    ))

pub bit_or-zero : (a fuel : ℕ) → a ≤ fuel → bit_or a 0 ≡ a
bit_or-zero zero fuel h = refl
bit_or-zero (suc a) zero h = absurd (omega arith)
bit_or-zero (suc a) (suc fuel) h =
    omega (arith, bit_or_step (suc a) 0, bit_or-zero (suc a / 2) fuel (omega arith))

-- `|` of disjoint fields is their sum.
pub bit_or-fields : (k q r : ℕ) → r < 2 ^ k → bit_or (q * 2 ^ k) r ≡ q * 2 ^ k + r
bit_or-fields zero q r h = omega (
  arith,
  bit_or-zero q q (omega arith),
  ap (λ (n : ℕ). bit_or (q * 1) n) zero_r,
  ap (λ (n : ℕ). bit_or n 0) (mul-one q),
)
  where
    zero_r : r ≡ 0
    zero_r = omega arith
bit_or-fields (suc k) q r h = omega (
  arith,
  bit_or_step (q * 2 ^ suc k) r,
  ap (λ (h : ℕ). bit_or h (r / 2)) (half q k),
  bit_or-fields k q (r / 2) (omega (arith, pow-suc 2 k)),
  mul-pow_suc q k,
)
