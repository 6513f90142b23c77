-- ===== src/Pmm/Requests.antt =====
-- Any sequence of requests keeps the counter of the frame allocator true to its bitmap.
use stak_os.Base.{ℕ, List, [], ◌∷◌}
use stak_os.Pmm.{Pmm, pmm_alloc_frame, pmm_free_frame}
use stak_os.Pmm.Alloc.{IsValid, alloc-IsValid}
use stak_os.Pmm.Free.{free-IsValid}

pub data Request : Type 0 where
  alloc : Request
  free : (addr : ℕ) → Request

pub serve : Pmm → List Request → Pmm
serve p [] = p
serve p (alloc ∷ rs) = serve (pmm_alloc_frame p).1 rs
serve p (free addr ∷ rs) = serve (pmm_free_frame p addr) rs

-- After any sequence of allocations and releases, of any addresses, `free_frames` is still the number
-- of free frames of the bitmap plus the slack `k` that it had before.
pub serve-IsValid : {k : ℕ} (p : Pmm) (rs : List Request) → IsValid k p → IsValid k (serve p rs)
unfolding serve
serve-IsValid p [] v = v
serve-IsValid p (alloc ∷ rs) v = serve-IsValid (pmm_alloc_frame p).1 rs (alloc-IsValid v)
serve-IsValid p (free addr ∷ rs) v = serve-IsValid (pmm_free_frame p addr) rs (free-IsValid v addr)
