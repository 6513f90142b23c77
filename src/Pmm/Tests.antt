-- ===== src/Pmm/Tests.antt =====
-- The frame allocator on a bitmap with every frame in use, and with frame 5 free.
use stak_os.Base.{ℕ, ◌/◌, ◌≤◌, ◌<◌, ◌≡◌, ◌⊎◌, refl, some, [], arith, length-replicate, replicate}
use stak_os.Pmm.{Pmm, frame_clear, frame_test, max_frames, page_size, pmm_free_frame}
use stak_os.Pmm.Init.{all_used-frame_test}
use stak_os.Pmm.Alloc.{IsValid, Allocates, count_free-none, alloc-lowest}
use stak_os.Pmm.Free.{Freed, free-cases, free-IsValid}

abbrev all_in_use : Pmm
all_in_use = record { bitmap = replicate 1024 4294967295; total_frames = 32768; free_frames = 0 }

all_in_use-IsValid : IsValid 0 all_in_use
all_in_use-IsValid = record {
  words = length-replicate {A = ℕ} 1024 4294967295;
  counted = omega (arith, count_free-none all_in_use.bitmap 32768 all_used-frame_test);
  room = omega arith;
}

-- Frame 5 is free.
abbrev one_free : Pmm
one_free = pmm_free_frame all_in_use 20480

five-free : frame_test one_free.bitmap 5 ≡ 0
unfolding frame_test pmm_free_frame frame_clear
five-free = refl

one_free-IsValid : IsValid 0 one_free
one_free-IsValid = free-IsValid all_in_use-IsValid 20480

alloc-lowest_example :
    (f : ℕ) × (f ≤ 5)
    × (frame_test one_free.bitmap f ≡ 0)
    × ((e : ℕ) → e < f → frame_test one_free.bitmap e ≡ 1)
    × Allocates one_free (some f)
alloc-lowest_example = alloc-lowest one_free-IsValid 5 (omega arith) five-free

free-cases_example :
    ((max_frames ≤ 20480 / page_size) × (pmm_free_frame all_in_use 20480 ≡ all_in_use))
    ⊎ (((frame_test all_in_use.bitmap (20480 / page_size) ≡ 0)
          × (pmm_free_frame all_in_use 20480 ≡ all_in_use))
        ⊎ Freed all_in_use (pmm_free_frame all_in_use 20480) (20480 / page_size))
free-cases_example = free-cases all_in_use-IsValid 20480

abbrev unset : Pmm
unset = record { bitmap = []; total_frames = 0; free_frames = 0 }
