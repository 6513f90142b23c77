-- ===== src/Userland/Tests.antt =====
-- A program in memory, on a kernel without files and processes.
use stak_os.Base.{Bool, false, leb, ℕ, ◌-◌, ◌≡◌, inl, refl, List, get_or, if◌then◌else◌, ltb, arith}
use stak_os.Base.Text.{text}
use stak_os.Base.Run.{done, ◌>>=◌}
use stak_os.Memory.{Mem}
use stak_os.Vga.{kprint}
use stak_os.Kernel.{Kernel}
use stak_os.Kernel.Exit.{process_exit, touches}
use stak_os.Kernel.Sample.{sample_kernel}
use stak_os.Userland.{Layout, start}
use stak_os.Userland.Strings.{holds}
use stak_os.Userland.Exits.{
  IsLoaded, Verdict, greeting, read_ok, read_bad, open_failed, start-exits,
}
use stak_os.Userland.Calls.{Did}

abbrev memory : Mem
memory a =
    if ltb a 200
    then get_or greeting (a - 100) 0
    else if ltb a 300
    then get_or (text "test.elf") (a - 200) 0
    else if ltb a 400
    then get_or read_ok (a - 300) 0
    else if ltb a 500
    then get_or read_bad (a - 400) 0
    else if ltb a 600
    then get_or open_failed (a - 500) 0
    else 0

abbrev layout : Layout
layout = record { msg = 100; path = 200; ok = 300; bad = 400; fail = 500; buf = 700 }

abbrev program_end : ℕ → Bool
program_end a = leb 1000 a

loaded : IsLoaded program_end memory layout
unfolding holds touches
loaded = record {
  msg = record { nonnull = omega arith; string = refl; foreign = refl; apart = inl (omega arith) };
  path = record { nonnull = omega arith; string = refl; foreign = refl; apart = inl (omega arith) };
  ok = record { nonnull = omega arith; string = refl; foreign = refl; apart = inl (omega arith) };
  bad = record { nonnull = omega arith; string = refl; foreign = refl; apart = inl (omega arith) };
  fail = record { nonnull = omega arith; string = refl; foreign = refl; apart = inl (omega arith) };
}

abbrev kernel : Kernel
kernel = record sample_kernel { mem = memory }

buffer_free : touches program_end 4 700 ≡ false
unfolding touches
buffer_free = refl

start-exits_example :
    (line : List ℕ) × (k' : Kernel) × Verdict line
    × Did kernel k' 700 (kprint (kprint kernel.screen greeting) line)
    × (start program_end layout 40 kernel ≡ (do k1 ← process_exit 40 k' 0; done (0, k1)))
start-exits_example = start-exits program_end layout 40 (omega arith) buffer_free kernel loaded
