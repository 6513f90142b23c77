-- ===== src/Syscall/Open.antt =====
-- The choice of a descriptor in kernel/syscall.c, and the calls that open and close one.
use stak_os.Base.{
  ℕ, zero, suc, ◌+◌, ◌≤◌, ◌<◌, ◌≡◌, ◌≢◌, ◌⊎◌, inl, inr, refl, sym, ap, ◌∙◌, none, some, List, ◌==◌,
  arith, length, get_or, set, Bool-cases, ne→==, ==→eq, ==→ne, le→ltb, lt→leb, get_or-set_self,
  get_or-set_ne, length-set,
}
use stak_os.Base.Words.{u32_mod}
use stak_os.Process.{FdEntry}
use stak_os.RamFs.{RamFile, ramfs_get, ramfs_lookup}
use stak_os.Syscall.{Io, closed, minus_one, sys_open, sys_close, set_fd, alloc_fd, alloc_fd_loop}
use stak_os.Syscall.Files.{IsOpen, offset_of}

abbrev pub used_at : List FdEntry → ℕ → ℕ
used_at fds g = (get_or fds g closed).in_use

-- `fd` is the first descriptor from `low` on that is not in use.
pub record FirstFree (fds : List FdEntry) (low high fd : ℕ) : Type 0 where
  pub above : low ≤ fd
  pub below : fd < high
  pub free : used_at fds fd ≡ 0
  pub before : (g : ℕ) → low ≤ g → g < fd → used_at fds g ≢ 0

-- The loop finds the first free descriptor, or none is free.
alloc_fd_loop-cases :
    (n : ℕ) (fds : List FdEntry) (fd : ℕ)
    → ((alloc_fd_loop n fds fd ≡ none) × ((g : ℕ) → fd ≤ g → g < fd + n → used_at fds g ≢ 0))
      ⊎ ((g : ℕ) × (alloc_fd_loop n fds fd ≡ some g) × FirstFree fds fd (fd + n) g)
unfolding alloc_fd_loop
alloc_fd_loop-cases zero fds fd = inl (refl, λ g l h e. ground (arith, l, h))
alloc_fd_loop-cases (suc n) fds fd = elim (Bool-cases (used_at fds fd == 0)) [
  | inl e ↦ inr (
    fd,
    rw e refl,
    record {
      above = omega arith;
      below = omega arith;
      free = ==→eq _ 0 e;
      before = λ g l h z. ground (arith, l, h);
    },
  )
  | inr e ↦
      let this : (g : ℕ) → g ≡ fd → used_at fds g ≢ 0 =
        λ g here z. ==→ne (used_at fds fd) 0 e (ap (λ k. used_at fds k) (sym here) ∙ z) in
      elim (alloc_fd_loop-cases n fds (fd + 1)) [
        | inl (out, all) ↦ inl (
          rw e out,
          λ g l h z. elim (Bool-cases (g == fd)) [
            | inl t ↦ this g (==→eq g fd t) z
            | inr t ↦ all g (omega (arith, l, ==→ne g fd t)) (omega (arith, h)) z
          ],
        )
        | inr (g, out, first) ↦ inr (
          g,
          rw e out,
          record {
            above = omega (arith, first.above);
            below = omega (arith, first.below);
            free = first.free;
            before = λ k l h z. elim (Bool-cases (k == fd)) [
              | inl t ↦ this k (==→eq k fd t) z
              | inr t ↦ first.before k (omega (arith, l, ==→ne k fd t)) h z
            ];
          },
        )
      ]
]

-- What opening a file that the table has leads to: the first free descriptor from 3 on is open on
-- the file at offset 0 and the others are as before, or all are in use and nothing happens.
pub Opened : Io → RamFile → ℕ × Io → Type 0
Opened io file (fd, io') =
    (FirstFree io.proc.fds 3 8 fd
      × IsOpen io' fd file
      × (offset_of io' fd ≡ 0)
      × ((g : ℕ) → g ≢ fd → get_or io'.proc.fds g closed ≡ get_or io.proc.fds g closed))
    ⊎ ((fd ≡ minus_one) × (io' ≡ io) × ((g : ℕ) → 3 ≤ g → g < 8 → used_at io.proc.fds g ≢ 0))

-- In a process with 8 descriptors, opening the path of a file in the table gives the first free
-- descriptor from 3 on, open on that file at offset 0 with the others as before; where all are in use
-- it returns -1 and changes nothing.
pub sys_open_lem :
    (io : Io) (path : List ℕ) (idx : ℕ) (file : RamFile)
    → length io.proc.fds ≡ 8
    → ramfs_lookup io.files path ≡ some idx
    → ramfs_get io.files idx ≡ some file
    → file.size < u32_mod
    → Opened io file (sys_open io (some path))
unfolding sys_open set_fd alloc_fd Opened
sys_open_lem io path idx file fds found get word = elim (alloc_fd_loop-cases 5 io.proc.fds 3) [
  | inl (out, all) ↦ rw (sys_open, found, out) (inr (refl, refl, all))
  | inr (fd, out, first) ↦
      let entry : FdEntry = record { in_use = 1; file_idx = idx; offset = 0 } in
      let here : get_or (set io.proc.fds fd entry) fd closed ≡ entry =
        get_or-set_self io.proc.fds fd entry closed (omega (arith, fds, first.below)) in
      rw (sys_open, found, out)
        (inl (
          first,
          record {
            fds = length-set io.proc.fds fd entry ∙ fds;
            low = first.above;
            high = first.below;
            used = rw here (λ z. ground (arith, z));
            found = rw here get;
            within = rw here (omega arith);
            word = word;
          },
          ap (λ e. e.offset) here,
          λ g ne. get_or-set_ne io.proc.fds fd g entry closed (λ e. ne (sym e)),
        ))
]

-- A path that is not in the table, or NULL, is refused.
pub sys_open-refused :
    (io : Io) (path : List ℕ)
    → ramfs_lookup io.files path ≡ none
    → (sys_open io (some path) ≡ (minus_one, io)) × (sys_open io none ≡ (minus_one, io))
unfolding sys_open
sys_open-refused io path missing = (rw (sys_open, missing) refl, refl)

-- Closing an open descriptor returns 0, frees it and leaves the others; closing it again is refused.
pub sys_close_lem :
    (io : Io) (fd : ℕ) (file : RamFile)
    → IsOpen io fd file
    → ((sys_close io fd).0 ≡ 0)
      × (get_or (sys_close io fd).1.proc.fds fd closed ≡ closed)
      × ((g : ℕ)
          → g ≢ fd
          → get_or (sys_close io fd).1.proc.fds g closed ≡ get_or io.proc.fds g closed)
      × (sys_close (sys_close io fd).1 fd ≡ (minus_one, (sys_close io fd).1))
unfolding sys_close set_fd
sys_close_lem io fd file v =
    let here : get_or (set io.proc.fds fd closed) fd closed ≡ closed =
      get_or-set_self io.proc.fds fd closed closed (omega (arith, v.fds, v.high)) in
    rw (le→ltb fd 3 v.low, lt→leb 8 fd v.high, ne→== (get_or io.proc.fds fd closed).in_use 0 v.used)
      (
        refl,
        here,
        λ g ne. get_or-set_ne io.proc.fds fd g closed closed (λ e. ne (sym e)),
        rw here refl,
      )
