-- ===== src/Pmm/Sample.antt =====
-- For tests: a frame allocator of which frame 8 alone is free, and the memory of a boot loader.
use stak_os.Base.{List, [], ◌==◌, if◌then◌else◌, ◌≡◌, refl, ◌∷◌, replicate, arith}
use stak_os.Memory.{Mem, load32}
use stak_os.Pmm.{Pmm, frame_test}
use stak_os.Pmm.Map.{Tag, memory_map, AreTags}
use stak_os.Pmm.Alloc.{IsValid, count_free}

abbrev pub sample_pmm : Pmm
sample_pmm = record {
  bitmap = 0xFFFF_FEFF ∷ replicate 1023 0xFFFF_FFFF;
  total_frames = 1;
  free_frames = 1;
}

one_free_frame : count_free sample_pmm.bitmap 32768 ≡ 1
unfolding count_free frame_test
one_free_frame = refl

pub sample_pmm-IsValid : IsValid 0 sample_pmm
sample_pmm-IsValid = record {
  words = refl;
  counted = omega (arith, one_free_frame);
  room = omega arith;
}

pub zero_used : frame_test sample_pmm.bitmap 0 ≡ 1
unfolding frame_test
zero_used = refl

pub eight_free : frame_test sample_pmm.bitmap 8 ≡ 0
unfolding frame_test
eight_free = refl

-- The information at 4096 has a memory map with 8 MB from address 0 on.
abbrev pub sample_info : Mem
sample_info a =
    if a == 4104
    then 6
    else if a == 4108
    then 40
    else if a == 4112
    then 24
    else if a == 4130
    then 128
    else if a == 4136
    then 1
    else 0

abbrev pub sample_tags : List Tag
sample_tags = memory_map (record { base = 0; len = 8_388_608; kind = 1 } ∷ []) ∷ []

pub sample_info-AreTags : AreTags sample_info 4104 sample_tags
unfolding load32
sample_info-AreTags = (
  (
    refl,
    omega arith,
    refl,
    (record { has_base = refl; has_len = refl; has_kind = refl; in_reach = omega arith }, tt),
  ),
  omega arith,
  refl,
)
