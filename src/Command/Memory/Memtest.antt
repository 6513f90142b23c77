-- ===== src/Command/Memory/Memtest.antt =====
-- cmd_memtest gives back every frame that it takes.
use stak_os.Base.{ℕ, ◌+◌, ◌≡◌, List, length}
use stak_os.Base.Distinct.{NotIn, Distinct, AllOf}
use stak_os.Pmm.{Pmm, frame_test}
use stak_os.Pmm.Taken.{addresses, Taken}

-- The list of `cmd_memtest` holds the addresses of the frames that are taken.
abbrev Took : (k : ℕ) → Pmm → Pmm → List ℕ → Type 0
Took k p q frames = (ns : List ℕ) × (frames ≡ addresses ns) × Taken k p q ns

-- `q` is `p` with the used frames `ns` given back.
record GivenBack (p q : Pmm) (ns : List ℕ) : Type 0 where
  free_after : AllOf (λ f. frame_test q.bitmap f ≡ 0) ns
  others : (g : ℕ) → NotIn g ns → frame_test q.bitmap g ≡ frame_test p.bitmap g
  counter : q.free_frames ≡ p.free_frames + length ns
