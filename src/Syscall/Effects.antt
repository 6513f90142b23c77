-- ===== src/Syscall/Effects.antt =====
-- What the calls of the program leave of the screen and the memory.
use stak_os.Base.{
  ℕ, ◌+◌, ◌≤◌, ◌<◌, ◌≡◌, ◌⊎◌, inl, inr, refl, false, ◌||◌, none, some, Option, List, ◌==◌, ltb, leb,
  if◌then◌else◌, arith, Bool-cases, get_or,
}
use stak_os.Base.Words.{sub32}
use stak_os.Process.{max_fds_per_process}
use stak_os.RamFs.{RamFile, ramfs_get, ramfs_lookup}
use stak_os.Syscall.{Io, closed, alloc_fd, sys_open, sys_read, sys_close, set_fd}
use stak_os.Syscall.Files.{copy_loop-other}

-- The screen and the files are the same, and the memory but for `n` bytes at `buf`.
pub record Leaves (io : Io) (buf n : ℕ) (io' : Io) : Type 0 where
  pub screen : io'.screen ≡ io.screen
  pub files : io'.files ≡ io.files
  pub outside : (k : ℕ) → (k < buf) ⊎ (buf + n ≤ k) → io'.mem k ≡ io.mem k

nothing : (io : Io) (buf n : ℕ) → Leaves io buf n io
nothing io buf n = record { screen = refl; files = refl; outside = λ k out. refl }

pub open-Leaves :
    (io : Io) (path : List ℕ) (buf n : ℕ) → Leaves io buf n (sys_open io (some path)).1
unfolding sys_open set_fd
open-Leaves io path buf n = found (ramfs_lookup io.files path) refl
  where
    taken :
        (i : ℕ) (o : Option ℕ)
        → ramfs_lookup io.files path ≡ some i
        → alloc_fd io.proc ≡ o
        → Leaves io buf n (sys_open io (some path)).1
    taken i none e e' = rw (sys_open, e, e') (nothing io buf n)
    taken i (some fd) e e' =
        rw (sys_open, e, e') (record { screen = refl; files = refl; outside = λ k out. refl })

    found :
        (o : Option ℕ)
        → ramfs_lookup io.files path ≡ o
        → Leaves io buf n (sys_open io (some path)).1
    found none e = rw (sys_open, e) (nothing io buf n)
    found (some i) e = taken i (alloc_fd io.proc) e refl

pub close-Leaves : (io : Io) (fd buf n : ℕ) → Leaves io buf n (sys_close io fd).1
unfolding sys_close set_fd
close-Leaves io fd buf n =
    let entry = get_or io.proc.fds fd closed in
    elim (Bool-cases (ltb fd 3 || leb max_fds_per_process fd)) [
      | inl e ↦ rw (sys_close, e) (nothing io buf n)
      | inr e ↦ elim (Bool-cases (entry.in_use == 0)) [
        | inl e' ↦ rw (sys_close, e, e') (nothing io buf n)
        | inr e' ↦
            rw (sys_close, e, e') (record { screen = refl; files = refl; outside = λ k out. refl })
      ]
    ]

pub read-Leaves : (io : Io) (fd buf len : ℕ) → Leaves io buf len (sys_read io fd buf len).1
unfolding sys_read set_fd
read-Leaves io fd buf len = elim (Bool-cases (buf == 0)) [
  | inl z ↦ rw (sys_read, z) (nothing io buf len)
  | inr z ↦ elim (Bool-cases (ltb fd 3 || leb max_fds_per_process fd)) [
    | inl e ↦ rw (sys_read, z, e) (nothing io buf len)
    | inr e ↦ elim (Bool-cases ((get_or io.proc.fds fd closed).in_use == 0)) [
      | inl e' ↦ rw (sys_read, z, e, e') (nothing io buf len)
      | inr e' ↦ found z e e' (ramfs_get io.files (get_or io.proc.fds fd closed).file_idx) refl
    ]
  ]
]
  where
    found :
        (buf == 0) ≡ false
        → (ltb fd 3 || leb max_fds_per_process fd) ≡ false
        → ((get_or io.proc.fds fd closed).in_use == 0) ≡ false
        → (o : Option RamFile) → ramfs_get io.files (get_or io.proc.fds fd closed).file_idx ≡ o
        → Leaves io buf len (sys_read io fd buf len).1
    found z e e' none g = rw (sys_read, z, e, e', g) (nothing io buf len)
    found z e e' (some file) g =
        let left = sub32 file.size (get_or io.proc.fds fd closed).offset in
        rw (sys_read, z, e, e', g)
          (record {
            screen = refl;
            files = refl;
            outside = λ k out.
                copy_loop-other (if ltb len left then len else left) io.mem buf
                  (file.contents + (get_or io.proc.fds fd closed).offset) k (ground (arith, out));
          })
