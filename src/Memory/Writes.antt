-- ===== src/Memory/Writes.antt =====
-- A run of word writes, and what it leaves alone.
use stak_os.Base.{
  ℕ, ◌+◌, ◌%◌, ◌≤◌, ◌<◌, ◌≡◌, ◌⊎◌, refl, ap, ◌∙◌, List, [], ◌∷◌, ◌==◌, if◌then◌else◌, arith,
}
use stak_os.Base.Words.{u32_mod}
use stak_os.Memory.{
  Mem, load32, store32, store32_ne, load32-same, load32-store32_self, load32-store32_ne,
}

-- The bytes of `m` and `m'` agree from `lo` on; below `hi`.
abbrev pub SameFrom : ℕ → Mem → Mem → Type 0
SameFrom lo m m' = (a : ℕ) → lo ≤ a → m' a ≡ m a

abbrev pub SameBelow : ℕ → Mem → Mem → Type 0
SameBelow hi m m' = (a : ℕ) → a < hi → m' a ≡ m a

pub load32-SameFrom : (m m' : Mem) (lo a : ℕ) → SameFrom lo m m' → lo ≤ a → load32 m' a ≡ load32 m a
load32-SameFrom m m' lo a same l =
    load32-same m m' a (same a l) (same (a + 1) (omega arith)) (same (a + 2) (omega arith))
      (same (a + 3) (omega arith))

pub load32-SameBelow :
    (m m' : Mem) (hi a : ℕ) → SameBelow hi m m' → a + 4 ≤ hi → load32 m' a ≡ load32 m a
load32-SameBelow m m' hi a same l =
    load32-same m m' a (same a (omega arith)) (same (a + 1) (omega arith))
      (same (a + 2) (omega arith)) (same (a + 3) (omega arith))

-- The writes `*(uint32_t *)a = v` in program order.
abbrev pub writes : Mem → List (ℕ × ℕ) → Mem
writes m [] = m
writes m ((a, v) ∷ ws) = writes (store32 m a v) ws

-- The word at `b` behind the writes, `d` before them.
abbrev pub word_after : ℕ → ℕ → List (ℕ × ℕ) → ℕ
word_after b d [] = d
word_after b d ((a, v) ∷ ws) = word_after b (if a == b then v % u32_mod else d) ws

abbrev pub Aligned : List (ℕ × ℕ) → Type 0
Aligned [] = Unit
Aligned ((a, v) ∷ ws) = (a % 4 ≡ 0) × Aligned ws

-- Every write lies apart from byte `x`.
abbrev pub Spares : ℕ → List (ℕ × ℕ) → Type 0
Spares x [] = Unit
Spares x ((a, v) ∷ ws) = ((x < a) ⊎ (a + 4 ≤ x)) × Spares x ws

pub load32-store32 :
    (m : Mem) (a b v : ℕ)
    → a % 4 ≡ 0
    → b % 4 ≡ 0
    → load32 (store32 m a v) b ≡ (if a == b then v % u32_mod else load32 m b)
load32-store32 m a b v p q = ground (arith, load32-store32_self m a v, load32-store32_ne m a b v)

pub load32-writes :
    (ws : List (ℕ × ℕ)) (m : Mem) (b : ℕ)
    → Aligned ws
    → b % 4 ≡ 0
    → load32 (writes m ws) b ≡ word_after b (load32 m b) ws
load32-writes [] m b al q = refl
load32-writes ((a, v) ∷ ws) m b (p, al) q =
    load32-writes ws (store32 m a v) b al q
    ∙ ap (λ d. word_after b d ws) (load32-store32 m a b v p q)

pub writes-Spares : (ws : List (ℕ × ℕ)) (m : Mem) (x : ℕ) → Spares x ws → writes m ws x ≡ m x
writes-Spares [] m x s = refl
writes-Spares ((a, v) ∷ ws) m x (h, s) = writes-Spares ws (store32 m a v) x s ∙ store32_ne m a x v h
