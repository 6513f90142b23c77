-- ===== src/Pmm/Bitmap.antt =====
-- One bit of the bitmap: what a set, a clear and a scan do to the tests of all frames.
use native.Mathlib.Decide.{ℕ_discrete}
use stak_os.Base.{
  ℕ, ◌/◌, ◌%◌, ◌^◌, ◌≤◌, ◌<◌, ◌≡◌, sym, ap, ◌∙◌, List, ◌==◌, if◌then◌else◌, arith, length,
  length-set, get_or, set, get_or-set_self, get_or-set_ne, bit_and, bit_or,
}
use stak_os.Base.Words.{not32, shr}
use stak_os.Base.Words.Bits.{
  test_bit, shr-test_bit, test_bit-or, test_bit-and, test_bit-pow, test_bit-not32, test_bit-lt,
  bit_and-mask, pow-lt,
}
use stak_os.Pmm.{frame_set, frame_clear, frame_test}

pub frame_test_lem :
    (bitmap : List ℕ) (f : ℕ) → frame_test bitmap f ≡ test_bit (get_or bitmap (f / 32) 0) (f % 32)
unfolding frame_test
frame_test_lem bitmap f =
    bit_and-mask 1 (shr (get_or bitmap (f / 32) 0) (f % 32))
    ∙ shr-test_bit (get_or bitmap (f / 32) 0) (f % 32)

pub frame_test-le : (bitmap : List ℕ) (f : ℕ) → frame_test bitmap f ≤ 1
frame_test-le bitmap f =
    omega (arith, frame_test_lem bitmap f, test_bit-lt (get_or bitmap (f / 32) 0) (f % 32))

-- The word of `g` after a write to the word of `f`.
word-set_same :
    (bitmap : List ℕ) (f g w : ℕ)
    → f / 32 < length bitmap
    → f / 32 ≡ g / 32
    → get_or (set bitmap (f / 32) w) (g / 32) 0 ≡ w
word-set_same bitmap f g w l e =
    ap (λ i. get_or (set bitmap (f / 32) w) i 0) (sym e) ∙ get_or-set_self bitmap (f / 32) w 0 l

frame_test_of_word :
    (xs ys : List ℕ) (g : ℕ)
    → get_or xs (g / 32) 0 ≡ get_or ys (g / 32) 0
    → frame_test xs g ≡ frame_test ys g
frame_test_of_word xs ys g e =
    frame_test_lem xs g ∙ ap (λ w. test_bit w (g % 32)) e ∙ sym (frame_test_lem ys g)

pub length-frame_set : (bitmap : List ℕ) (f : ℕ) → length (frame_set bitmap f) ≡ length bitmap
unfolding frame_set
length-frame_set bitmap f =
    length-set bitmap (f / 32) (bit_or (get_or bitmap (f / 32) 0) (2 ^ (f % 32)))

pub length-frame_clear : (bitmap : List ℕ) (f : ℕ) → length (frame_clear bitmap f) ≡ length bitmap
unfolding frame_clear
length-frame_clear bitmap f =
    length-set bitmap (f / 32) (bit_and (get_or bitmap (f / 32) 0) (not32 (2 ^ (f % 32))))

-- `frame_set` marks its own frame and no other.
pub frame_test-set :
    (bitmap : List ℕ) (f g : ℕ)
    → f / 32 < length bitmap
    → frame_test (frame_set bitmap f) g ≡ (if f == g then 1 else frame_test bitmap g)
unfolding frame_set
frame_test-set bitmap f g l = elim (ℕ_discrete (f / 32) (g / 32)) [
  | yes e ↦ ground (
    arith,
    frame_test_lem (frame_set bitmap f) g,
    frame_test_lem bitmap g,
    ap (λ (w : ℕ). test_bit w (g % 32)) (word-set_same bitmap f g new l e),
    test_bit-or (get_or bitmap (f / 32) 0) (2 ^ (f % 32)) (g % 32),
    ap (λ (i : ℕ). test_bit (get_or bitmap i 0) (g % 32)) e,
    test_bit-pow (f % 32) (g % 32),
    test_bit-lt (get_or bitmap (g / 32) 0) (g % 32),
  )
  | no ne ↦ ground (
    arith,
    frame_test_of_word (frame_set bitmap f) bitmap g
        (get_or-set_ne bitmap (f / 32) (g / 32) new 0 ne),
  )
]
  where
    new : ℕ
    new = bit_or (get_or bitmap (f / 32) 0) (2 ^ (f % 32))

-- `frame_clear` frees its own frame and no other.
pub frame_test-clear :
    (bitmap : List ℕ) (f g : ℕ)
    → f / 32 < length bitmap
    → frame_test (frame_clear bitmap f) g ≡ (if f == g then 0 else frame_test bitmap g)
unfolding frame_clear
frame_test-clear bitmap f g l = elim (ℕ_discrete (f / 32) (g / 32)) [
  | yes e ↦ ground (
    arith,
    frame_test_lem (frame_clear bitmap f) g,
    frame_test_lem bitmap g,
    ap (λ (w : ℕ). test_bit w (g % 32)) (word-set_same bitmap f g new l e),
    test_bit-and (get_or bitmap (f / 32) 0) (not32 (2 ^ (f % 32))) (g % 32),
    ap (λ (i : ℕ). test_bit (get_or bitmap i 0) (g % 32)) e,
    test_bit-not32 (2 ^ (f % 32)) (g % 32) (pow-lt (f % 32) (omega arith)) (omega arith),
    test_bit-pow (f % 32) (g % 32),
    test_bit-lt (get_or bitmap (g / 32) 0) (g % 32),
  )
  | no ne ↦ ground (
    arith,
    frame_test_of_word (frame_clear bitmap f) bitmap g
        (get_or-set_ne bitmap (f / 32) (g / 32) new 0 ne),
  )
]
  where
    new : ℕ
    new = bit_and (get_or bitmap (f / 32) 0) (not32 (2 ^ (f % 32)))
