-- ===== src/Syscall/Tests.antt =====
-- A process that opens, reads and closes the file "a" of 10 bytes at address 4096.
use stak_os.Base.{◌≡◌, inr, refl, true, some, List, [], ◌∷◌, arith}
use stak_os.Process.{running, FdEntry}
use stak_os.RamFs.{RamFile, ramfs_lookup, ramfs_get, lookup_from, str_eq}
use stak_os.Syscall.{Io, closed, sys_open, sys_read}
use stak_os.Syscall.Files.{IsOpen, HasRead, sys_read_lem}
use stak_os.Syscall.Open.{Opened, sys_open_lem}

abbrev file_a : RamFile
file_a = record { name = 97 ∷ []; contents = 4096; size = 10; in_use = true }

abbrev fds_with : FdEntry → List FdEntry
fds_with e = closed ∷ closed ∷ closed ∷ e ∷ closed ∷ closed ∷ closed ∷ closed ∷ []

abbrev io_with : FdEntry → Io
io_with e = record {
  mem = λ k. 7;
  files = file_a ∷ [];
  screen = record { vga_buf = λ k. 0; vga_row = 0; vga_col = 0; vga_color = 7 };
  proc = record {
    pid = 1;
    name = [];
    state = running;
    esp = 0;
    cr3 = 0;
    parent_pid = 0;
    priority = 5;
    ticks_remaining = 5;
    sleep_ticks = 0;
    exit_code = 0;
    kernel_stack_top = 0;
    stack_frame_lo = 0;
    stack_frame_hi = 0;
    user_entry = 0;
    user_stack_top = 0;
    fds = fds_with e;
    next = 0;
  };
}

abbrev half_read : FdEntry
half_read = record { in_use = 1; file_idx = 0; offset = 4 }

a-found : ramfs_lookup (file_a ∷ []) (97 ∷ []) ≡ some 0
unfolding ramfs_lookup lookup_from str_eq
a-found = refl

a-get : ramfs_get (file_a ∷ []) 0 ≡ some file_a
unfolding ramfs_get
a-get = refl

half_read-IsOpen : IsOpen (io_with half_read) 3 file_a
half_read-IsOpen = record {
  fds = refl;
  low = omega arith;
  high = omega arith;
  used = omega arith;
  found = a-get;
  within = omega arith;
  word = omega arith;
}

sys_read_lem_example :
    HasRead (io_with half_read) 3 8192 100 file_a (sys_read (io_with half_read) 3 8192 100)
sys_read_lem_example =
    sys_read_lem (io_with half_read) 3 8192 100 file_a half_read-IsOpen (omega arith)
      (inr (omega arith))

sys_open_lem_example : Opened (io_with closed) file_a (sys_open (io_with closed) (some (97 ∷ [])))
sys_open_lem_example =
    sys_open_lem (io_with closed) (97 ∷ []) 0 file_a refl a-found a-get (omega arith)
