-- ===== src/Syscall.antt =====
-- kernel/syscall.c: the calls that reach files and the screen. The result 2^32 - 1 is the source's
-- `(uint32_t)-1`. A negative `fd` is a word from 2^31 on, which the tests refuse as the signed ones do.
pub mod Files
pub mod Open
pub mod Effects
mod Tests
use stak_os.Base.{
  ℕ, zero, suc, ◌+◌, ◌-◌, Bool, true, false, not, ◌||◌, Option, none, some, List, [], ◌∷◌, ◌==◌,
  if◌then◌else◌, ltb, leb, get_or, set,
}
use stak_os.Base.Words.{u32_mod, add32, sub32}
use stak_os.Memory.{Mem, load8, store8}
use stak_os.Process.{Process, FdEntry, max_fds_per_process}
use stak_os.RamFs.{RamFile, ramfs_lookup, ramfs_get}
use stak_os.Vga.{Vga, vga_putchar}

-- What the calls reach: `process_current()` is `proc`.
pub record Io : Type 0 where
  pub mem : Mem
  pub files : List RamFile
  pub screen : Vga
  pub proc : Process

abbrev pub minus_one : ℕ
minus_one = 4294967295

-- -1 in `file_idx` of a closed entry.
abbrev pub closed : FdEntry
closed = record { in_use = 0; file_idx = minus_one; offset = 0 }

-- The loop of `sys_write` with `n` bytes left.
unfoldable pub write_loop : (n : ℕ) → Mem → (buf : ℕ) → Vga → Vga
write_loop zero m buf v = v
write_loop (suc n) m buf v = write_loop n m (buf + 1) (vga_putchar v (load8 m buf))

unfoldable pub sys_write : Io → (fd buf len : ℕ) → ℕ × Io
sys_write io fd buf len =
    if not (fd == 1) || buf == 0
    then (minus_one, io)
    else (len, record io { screen = write_loop len io.mem buf io.screen })

-- The loop of `alloc_fd` from `fd` on, with `rounds` left: `none` is -1.
pub alloc_fd_loop : (rounds : ℕ) → List FdEntry → (fd : ℕ) → Option ℕ
alloc_fd_loop zero fds fd = none
alloc_fd_loop (suc n) fds fd =
    let rest = alloc_fd_loop n fds (fd + 1) in
    if (get_or fds fd closed).in_use == 0 then some fd else rest

pub alloc_fd : Process → Option ℕ
alloc_fd proc = alloc_fd_loop (max_fds_per_process - 3) proc.fds 3

unfoldable pub set_fd : Io → (fd : ℕ) → FdEntry → Io
set_fd io fd entry = record io { proc = record io.proc { fds = set io.proc.fds fd entry } }

-- `path` is the string that the pointer leads to, `none` for NULL.
unfoldable pub sys_open : Io → (path : Option (List ℕ)) → ℕ × Io
sys_open io none = (minus_one, io)
sys_open io (some path) = elim (ramfs_lookup io.files path) [
  | none ↦ (minus_one, io)
  | some file_idx ↦ elim (alloc_fd io.proc) [
    | none ↦ (minus_one, io)
    | some fd ↦ (fd, set_fd io fd (record { in_use = 1; file_idx = file_idx; offset = 0 }))
  ]
]

-- The loop of `sys_read`: `n` bytes from `src` to `dst`, in order.
pub copy_loop : (n : ℕ) → Mem → (dst src : ℕ) → Mem
copy_loop zero m dst src = m
copy_loop (suc n) m dst src = copy_loop n (store8 m dst (load8 m src)) (dst + 1) (src + 1)

unfoldable pub sys_read : Io → (fd buf len : ℕ) → ℕ × Io
sys_read io fd buf len =
    let entry = get_or io.proc.fds fd closed in
    let read : ℕ × Io = elim (ramfs_get io.files entry.file_idx) [
      | none ↦ (minus_one, io)
      | some file ↦
          let remaining = sub32 file.size entry.offset in
          let to_copy = if ltb len remaining then len else remaining in
          (
            to_copy,
            record (set_fd io fd (record entry { offset = add32 entry.offset to_copy })) {
              mem = copy_loop to_copy io.mem buf (file.contents + entry.offset);
            },
          )
    ] in
    if buf == 0
    then (minus_one, io)
    else if ltb fd 3 || leb max_fds_per_process fd
    then (minus_one, io)
    else if entry.in_use == 0
    then (minus_one, io)
    else read

unfoldable pub sys_close : Io → (fd : ℕ) → ℕ × Io
sys_close io fd =
    let entry = get_or io.proc.fds fd closed in
    if ltb fd 3 || leb max_fds_per_process fd
    then (minus_one, io)
    else if entry.in_use == 0
    then (minus_one, io)
    else (0, set_fd io fd closed)
