-- ===== src/Base/Words.antt =====
-- 32-bit words: the wrapping operations of `uint32_t`, and the bit operations of the C code.
pub mod Bits
use Prim.Native.Nat.{ℕ, ◌+◌, ◌-◌, ◌*◌, ◌/◌, ◌%◌, ◌^◌, bit_and, bit_or}

abbrev pub u32_mod : ℕ
u32_mod = 0x1_0000_0000

abbrev pub add32 : ℕ → ℕ → ℕ
add32 a b = (a + b) % u32_mod

abbrev pub sub32 : ℕ → ℕ → ℕ
sub32 a b = (a + (u32_mod - b)) % u32_mod

abbrev pub mul32 : ℕ → ℕ → ℕ
mul32 a b = a * b % u32_mod

-- `~a` on 32 bits
abbrev pub not32 : ℕ → ℕ
not32 a = u32_mod - 1 - a

-- `a >> k`
abbrev pub shr : ℕ → ℕ → ℕ
shr a k = a / 2 ^ k
