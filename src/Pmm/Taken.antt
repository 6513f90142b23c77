-- ===== src/Pmm/Taken.antt =====
-- Several frames that `pmm_alloc_frame` has handed out one after the other.
use stak_os.Base.{
  ℕ, ◌+◌, ◌*◌, ◌<◌, ◌≡◌, ◌≢◌, refl, sym, ap, ◌∙◌, List, [], ◌∷◌, map, length, arith, ne→==,
}
use stak_os.Base.Distinct.{NotIn, Distinct, AllOf, AllOf-map, NotIn-AllOf}
use stak_os.Pmm.{Pmm, page_size, max_frames, frame_test}
use stak_os.Pmm.Alloc.{IsValid, Differs}

abbrev pub addresses : List ℕ → List ℕ
addresses ns = map (λ f. f * page_size) ns

-- `q` is `p` with the frames `ns` taken.
pub record Taken (k : ℕ) (p q : Pmm) (ns : List ℕ) : Type 0 where
  pub once : Distinct ns
  pub free_before : AllOf (λ f. (f < max_frames) × (frame_test p.bitmap f ≡ 0)) ns
  pub used_after : AllOf (λ f. frame_test q.bitmap f ≡ 1) ns
  pub others : (g : ℕ) → NotIn g ns → frame_test q.bitmap g ≡ frame_test p.bitmap g
  pub counter : q.free_frames + length ns ≡ p.free_frames
  pub valid : IsValid k q

pub Taken-none : (k : ℕ) (p : Pmm) → IsValid k p → Taken k p p []
Taken-none k p v = record {
  once = tt;
  free_before = tt;
  used_after = tt;
  others = λ g out. refl;
  counter = omega arith;
  valid = v;
}

-- A frame that is taken before the others.
pub Taken-cons :
    {k : ℕ} {p p1 q : Pmm} (f : ℕ) {ns : List ℕ}
    → f < max_frames
    → frame_test p.bitmap f ≡ 0
    → Differs p.bitmap p1.bitmap f 1
    → p1.free_frames + 1 ≡ p.free_frames
    → Taken k p1 q ns
    → Taken k p q (f ∷ ns)
Taken-cons {k} {p} {p1} {q} f {ns} l free d c t =
    let used : frame_test p1.bitmap f ≡ 1 = ground (arith, d f) in
    let off : NotIn f ns =
      NotIn-AllOf _ f ns (λ g e h. omega (arith, h, used, ap (λ x. frame_test p1.bitmap x) e))
        t.free_before in
    let before : (g : ℕ) → g ≢ f → frame_test p1.bitmap g ≡ frame_test p.bitmap g =
      λ g ne. d g ∙ rw (ne→== f g (λ e. ne (sym e))) refl in
    record {
      once = (off, t.once);
      free_before = (
        (l, free),
        AllOf-map _ _ f ns (λ g ne h. (h.0, sym (before g ne) ∙ h.1)) off t.free_before,
      );
      used_after = (t.others f off ∙ used, t.used_after);
      others = λ g (ne, out). t.others g out ∙ before g ne;
      counter = omega (arith, t.counter, c);
      valid = t.valid;
    }
