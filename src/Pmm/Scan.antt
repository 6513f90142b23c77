-- ===== src/Pmm/Scan.antt =====
-- The scan of `pmm_alloc_frame` returns the lowest free frame.
use stak_os.Base.{
  ℕ, zero, suc, ◌+◌, ◌*◌, ◌%◌, ◌≤◌, ◌<◌, ◌≡◌, ap, ◌∙◌, inl, inr, false, List, Option, none, some,
  ◌==◌, arith, get_or, Bool-cases, ==→eq, ==→ne,
}
use native.Mathlib.Decide.{dec_lt}
use native.Mathlib.Nat.{add-zero}
use stak_os.Base.Words.Bits.{test_bit, test_bit-not32, test_bit-zero}
use stak_os.Pmm.{frame_test, find_bit, find_frame, all_used}
use stak_os.Pmm.Bitmap.{frame_test_lem, frame_test-le}

-- What a search of the frames `lo .. hi - 1` may answer.
abbrev pub FirstFree : List ℕ → ℕ → ℕ → Option ℕ → Type 0
FirstFree bitmap lo hi none = (g : ℕ) → lo ≤ g → g < hi → frame_test bitmap g ≡ 1
FirstFree bitmap lo hi (some f) =
    (lo ≤ f)
    × (f < hi)
    × (frame_test bitmap f ≡ 0)
    × ((g : ℕ) → lo ≤ g → g < f → frame_test bitmap g ≡ 1)

module _ (bitmap : List ℕ) where
  FirstFree-join :
      (lo mid hi mid' hi' : ℕ) (o : Option ℕ)
      → lo ≤ mid
      → mid' ≡ mid
      → hi' ≡ hi
      → FirstFree bitmap lo mid none
      → FirstFree bitmap mid' hi' o
      → FirstFree bitmap lo hi o
  FirstFree-join lo mid hi mid' hi' none l e e' h k =
      λ g p q. elim (dec_lt g mid) [ yes b ↦ h g p b | no b ↦ k g (omega arith) (omega arith) ]
  FirstFree-join lo mid hi mid' hi' (some f) l e e' h (a, b, c, d) = (
    omega arith,
    omega arith,
    c,
    λ g p q. elim (dec_lt g mid) [ yes b ↦ h g p b | no b ↦ d g (omega arith) q ],
  )

  -- The answer of one word, else that of the rest.
  FirstFree-or_else :
      (lo mid hi mid' hi' : ℕ) (o rest : Option ℕ)
      → lo ≤ mid
      → mid ≤ hi
      → mid' ≡ mid
      → hi' ≡ hi
      → FirstFree bitmap lo mid o
      → FirstFree bitmap mid' hi' rest
      → FirstFree bitmap lo hi (elim o [ some f ↦ some f | none ↦ rest ])
  FirstFree-or_else lo mid hi mid' hi' none rest l l' e e' h k =
      FirstFree-join lo mid hi mid' hi' rest l e e' h k
  FirstFree-or_else lo mid hi mid' hi' (some f) rest l l' e e' (a, b, c, d) k =
      (a, omega arith, c, d)

  FirstFree-empty : (lo hi : ℕ) → hi ≤ lo → FirstFree bitmap lo hi none
  FirstFree-empty lo hi l g p q = absurd (omega arith)

  one_used : (f : ℕ) → (frame_test bitmap f == 0) ≡ false → FirstFree bitmap f (f + 1) none
  one_used f e g p q =
      let same : g ≡ f = omega arith in
      ap (λ k. frame_test bitmap k) same
      ∙ omega (arith, ==→ne (frame_test bitmap f) 0 e, frame_test-le bitmap f)

  find_bit-FirstFree :
      (i n bit : ℕ)
      → bit + n ≡ 32
      → FirstFree bitmap (i * 32 + bit) (i * 32 + 32) (find_bit bitmap i n bit)
  unfolding find_bit
  find_bit-FirstFree i zero bit e = FirstFree-empty (i * 32 + bit) (i * 32 + 32) (omega arith)
  find_bit-FirstFree i (suc n) bit e = elim (Bool-cases (frame_test bitmap (i * 32 + bit) == 0)) [
    | inl free ↦ rw free (
      omega arith,
      omega arith,
      ==→eq (frame_test bitmap (i * 32 + bit)) 0 free,
      λ g p q. absurd (omega arith),
    )
    | inr used ↦ rw used (
        FirstFree-join (i * 32 + bit) (i * 32 + bit + 1) (i * 32 + 32) (i * 32 + (bit + 1))
          (i * 32 + 32) (find_bit bitmap i n (bit + 1)) (omega arith) (omega arith) (omega arith)
          (one_used (i * 32 + bit) used) (find_bit-FirstFree i n (bit + 1) (omega arith)))
  ]

  full_word : (i : ℕ) → get_or bitmap i 0 ≡ all_used → FirstFree bitmap (i * 32) (i * 32 + 32) none
  full_word i e g p q =
      frame_test_lem bitmap g
      ∙ ap (λ k. test_bit (get_or bitmap k 0) (g % 32)) (omega arith)
      ∙ ap (λ w. test_bit w (g % 32)) e
      ∙ test_bit-not32 0 (g % 32) (omega arith) (omega arith)
      ∙ omega (arith, test_bit-zero (g % 32))

  pub find_frame-FirstFree :
      (n i : ℕ) → FirstFree bitmap (i * 32) ((i + n) * 32) (find_frame bitmap n i)
  unfolding find_frame
  find_frame-FirstFree zero i = FirstFree-empty (i * 32) ((i + 0) * 32) (omega arith)
  find_frame-FirstFree (suc n) i = elim (Bool-cases (get_or bitmap i 0 == all_used)) [
    | inl full ↦ rw full (
        FirstFree-join (i * 32) (i * 32 + 32) ((i + suc n) * 32) ((i + 1) * 32) ((i + 1 + n) * 32)
          (find_frame bitmap n (i + 1)) (omega arith) (omega arith) (omega arith)
          (full_word i (==→eq (get_or bitmap i 0) all_used full)) (find_frame-FirstFree n (i + 1)))
    | inr other ↦ rw other (
        FirstFree-or_else (i * 32) (i * 32 + 32) ((i + suc n) * 32) ((i + 1) * 32)
          ((i + 1 + n) * 32) (find_bit bitmap i 32 0) (find_frame bitmap n (i + 1)) (omega arith)
          (omega arith) (omega arith) (omega arith)
          (rw add-zero at (find_bit-FirstFree i 32 0 (omega arith)))
          (find_frame-FirstFree n (i + 1)))
  ]
