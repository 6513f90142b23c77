-- ===== src/Paging/Entries.antt =====
-- The frame and the flags in an entry of a table, and the indices of an address.
use stak_os.Base.{
  ℕ, zero, suc, ◌+◌, ◌*◌, ◌/◌, ◌%◌, ◌^◌, ◌≤◌, ◌<◌, ◌≡◌, ◌≢◌, ◌⊎◌, inl, inr, refl, ap, true, bit_and,
  bit_or, arith, ne→==,
}
use native.Mathlib.Nat.{div-one}
use native.Mathlib.Decide.{dec_lt}
use stak_os.Base.Words.{u32_mod}
use stak_os.Base.Words.Bits.{bit_and-mask, bit_and-high, bit_or-fields, bit_or_step, div-pow_suc}
use stak_os.Paging.{frame_of, is_present, pd_index, pt_index}

pub frame_of_lem : (x : ℕ) → x < u32_mod → frame_of x ≡ x / 4096 * 4096
frame_of_lem x l = omega (arith, l, bit_and-high 12 x 0xFFFFF, bit_and-mask 20 (x / 4096))

pub is_present-odd : (x : ℕ) → x % 2 ≡ 1 → is_present x ≡ true
is_present-odd x e = rw (ne→== (bit_and x 1) 0 (omega (arith, e, bit_and-mask 1 x))) refl

pub odd-is_present : (x : ℕ) → is_present x ≡ true → x % 2 ≡ 1
odd-is_present x e = ground (arith, e, bit_and-mask 1 x)

-- An entry for the table or page at the address `x`, with flags.
pub entry_of : (x r : ℕ) → r < 4096 → bit_or (x / 4096 * 4096) r ≡ x / 4096 * 4096 + r
entry_of x r l = bit_or-fields 12 (x / 4096) r l

-- A flag of an entry leaves its frame.
half-bit_or : (a b : ℕ) → bit_or a b / 2 ≡ bit_or (a / 2) (b / 2)
half-bit_or a b = omega (arith, bit_or_step a b)

pub div-bit_or : (k a b : ℕ) → bit_or a b / 2 ^ k ≡ bit_or (a / 2 ^ k) (b / 2 ^ k)
div-bit_or zero a b = simp div-one
div-bit_or (suc k) a b =
    rw (div-pow_suc (bit_or a b) k, div-pow_suc a k, div-pow_suc b k, half-bit_or a b)
      (div-bit_or k (a / 2) (b / 2))

-- Words of two pages do not overlap.
pub page_apart :
    (p q i j : ℕ)
    → p % 4096 ≡ 0
    → q % 4096 ≡ 0
    → p ≢ q
    → i < 1024
    → j < 1024
    → (q + 4 * j + 4 ≤ p + 4 * i) ⊎ (p + 4 * i + 4 ≤ q + 4 * j)
page_apart p q i j pp qq ne li lj = elim (dec_lt p q) [
  | yes l ↦ inr (omega (arith, pp, qq, l, li))
  | no l ↦ inl (omega (arith, pp, qq, l, ne, lj))
]

pub pd_index-lt : (virt : ℕ) → virt < u32_mod → pd_index virt < 1024
unfolding pd_index
pd_index-lt virt l = omega (arith, l)

pub pt_index-lt : (virt : ℕ) → pt_index virt < 1024
unfolding pt_index
pt_index-lt virt = omega (arith, bit_and-mask 10 (virt / 4096))

pub pd_index-page : (a virt : ℕ) → a / 4096 ≡ virt / 4096 → pd_index a ≡ pd_index virt
unfolding pd_index
pd_index-page a virt e = omega (arith, e)

pub pt_index-page : (a virt : ℕ) → a / 4096 ≡ virt / 4096 → pt_index a ≡ pt_index virt
unfolding pt_index
pt_index-page a virt e = ap (λ q. bit_and q 1023) e
