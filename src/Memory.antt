-- ===== src/Memory.antt =====
-- Physical memory as bytes, and the little-endian accesses of the C code through pointers. The
-- kernel runs identity-mapped, so a pointer is a physical address.
pub mod Writes
use stak_os.Base.{ℕ, ◌+◌, ◌*◌, ◌/◌, ◌%◌, ◌≤◌, ◌<◌, ◌≡◌, ◌⊎◌, ◌==◌, if◌then◌else◌, arith}
use stak_os.Base.Words.{u32_mod}

abbrev pub Mem : Type 0
Mem = ℕ → ℕ

-- `*(uint8_t *)a = v`
unfoldable pub store8 : Mem → ℕ → ℕ → Mem
store8 m a v b = if b == a then v % 256 else m b

abbrev pub load8 : Mem → ℕ → ℕ
load8 m a = m a % 256

abbrev pub load16 : Mem → ℕ → ℕ
load16 m a = load8 m a + 256 * load8 m (a + 1)

unfoldable pub load32 : Mem → ℕ → ℕ
load32 m a =
    load8 m a + 256 * load8 m (a + 1) + 65536 * load8 m (a + 2) + 16777216 * load8 m (a + 3)

abbrev pub load64 : Mem → ℕ → ℕ
load64 m a = load32 m a + u32_mod * load32 m (a + 4)

-- `*(uint32_t *)a = v`
unfoldable pub store32 : Mem → ℕ → ℕ → Mem
unfolding store8
store32 m a v =
    store8 (store8 (store8 (store8 m a v) (a + 1) (v / 256)) (a + 2) (v / 65536)) (a + 3)
      (v / 16777216)

pub load32-store32_self : (m : Mem) (a v : ℕ) → load32 (store32 m a v) a ≡ v % u32_mod
unfolding load32 store32
load32-store32_self m a v = ground arith

pub store32_ne : (m : Mem) (a b v : ℕ) → (b < a) ⊎ (a + 4 ≤ b) → store32 m a v b ≡ m b
unfolding store32
store32_ne m a b v h = ground arith

pub load32-same :
    (m m' : Mem) (a : ℕ)
    → m' a ≡ m a
    → m' (a + 1) ≡ m (a + 1)
    → m' (a + 2) ≡ m (a + 2)
    → m' (a + 3) ≡ m (a + 3)
    → load32 m' a ≡ load32 m a
unfolding load32
load32-same m m' a p q r s = rw (p, q, r, s)

-- A word elsewhere keeps its value.
pub load32-store32_ne :
    (m : Mem) (a b v : ℕ) → (b + 4 ≤ a) ⊎ (a + 4 ≤ b) → load32 (store32 m a v) b ≡ load32 m b
unfolding load32 store32
load32-store32_ne m a b v h = ground arith

pub load32-store8_ne :
    (m : Mem) (a b v : ℕ) → (b + 4 ≤ a) ⊎ (a + 1 ≤ b) → load32 (store8 m a v) b ≡ load32 m b
unfolding load32 store8
load32-store8_ne m a b v h = ground arith

pub load32-lt : (m : Mem) (a : ℕ) → load32 m a < u32_mod
unfolding load32
load32-lt m a = omega arith
