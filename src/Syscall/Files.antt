-- ===== src/Syscall/Files.antt =====
-- The calls on files of kernel/syscall.c.
use stak_os.Base.{
  ℕ, zero, suc, ◌+◌, ◌-◌, ◌≤◌, ◌<◌, ◌≡◌, ◌≢◌, ◌⊎◌, refl, sym, ap, ◌∙◌, some, if◌then◌else◌, ltb,
  min, arith, length, get_or, set, ne→==, eq→==, le→ltb, lt→leb, get_or-set_self, get_or-set_ne,
  length-set, ◌%◌,
}
use stak_os.Base.Words.{u32_mod, sub32, add32}
use stak_os.Memory.{Mem, load8, store8}
use stak_os.Process.{FdEntry}
use stak_os.RamFs.{RamFile, ramfs_get}
use stak_os.Syscall.{Io, closed, copy_loop, sys_read, set_fd}

-- The bytes that the loop of `sys_read` copies, between areas that lie apart, and those that it leaves.
pub copy_loop-other :
    (n : ℕ) (m : Mem) (dst src k : ℕ) → (k < dst) ⊎ (dst + n ≤ k) → copy_loop n m dst src k ≡ m k
unfolding copy_loop store8
copy_loop-other zero m dst src k out = refl
copy_loop-other (suc n) m dst src k out =
    let store8-k : store8 m dst (load8 m src) k ≡ m k =
      rw (ne→== k dst (λ e. ground (arith, e, out))) refl in
    copy_loop-other n (store8 m dst (load8 m src)) (dst + 1) (src + 1) k (ground (arith, out))
    ∙ store8-k

copy_loop_lem :
    (n : ℕ) (m : Mem) (dst src i k j : ℕ)
    → (dst + n ≤ src) ⊎ (src + n ≤ dst)
    → i < n
    → k ≡ dst + i
    → j ≡ src + i
    → copy_loop n m dst src k ≡ load8 m j
unfolding copy_loop store8
copy_loop_lem zero m dst src i k j apart l ek ej = absurd (omega arith)
copy_loop_lem (suc n) m dst src zero k j apart l ek ej =
    let here : store8 m dst (load8 m src) k ≡ load8 m src % 256 =
      rw (eq→== k dst (omega (arith, ek))) refl in
    let byte : load8 m src % 256 ≡ load8 m src = omega arith in
    copy_loop-other n (store8 m dst (load8 m src)) (dst + 1) (src + 1) k (ground (arith, ek))
    ∙ here
    ∙ byte
    ∙ ap (λ a. load8 m a) (omega (arith, ej))
copy_loop_lem (suc n) m dst src (suc i) k j apart l ek ej =
    let kept : store8 m dst (load8 m src) j ≡ m j =
      rw (ne→== j dst (λ e. ground (arith, e, ej, apart, l))) refl in
    copy_loop_lem n (store8 m dst (load8 m src)) (dst + 1) (src + 1) i k j (ground (arith, apart))
      (omega arith) (omega (arith, ek)) (omega (arith, ej))
    ∙ ap (λ b. b % 256) kept

-- The entry of `fd` is open on `file`, and its offset is within the file.
pub record IsOpen (io : Io) (fd : ℕ) (file : RamFile) : Type 0 where
  pub fds : length io.proc.fds ≡ 8
  pub low : 3 ≤ fd
  pub high : fd < 8
  pub used : (get_or io.proc.fds fd closed).in_use ≢ 0
  pub found : ramfs_get io.files (get_or io.proc.fds fd closed).file_idx ≡ some file
  pub within : (get_or io.proc.fds fd closed).offset ≤ file.size
  pub word : file.size < u32_mod

abbrev pub offset_of : Io → ℕ → ℕ
offset_of io fd = (get_or io.proc.fds fd closed).offset

-- What `sys_read` returns and leaves: `n` bytes, no more than asked for and than are left, are in
-- the buffer, the offset is `n` further and still within the file, and the other descriptors and
-- the memory outside the buffer are as before.
pub record HasRead (io : Io) (fd buf len : ℕ) (file : RamFile) (r : ℕ × Io) : Type 0 where
  pub count : r.0 ≡ min len (file.size - offset_of io fd)
  pub moved : offset_of r.1 fd ≡ offset_of io fd + r.0
  pub still_open : IsOpen r.1 fd file
  pub bytes :
      (i : ℕ) → i < r.0 → r.1.mem (buf + i) ≡ load8 io.mem (file.contents + offset_of io fd + i)
  pub outside : (k : ℕ) → (k < buf) ⊎ (buf + r.0 ≤ k) → r.1.mem k ≡ io.mem k
  pub others : (g : ℕ) → g ≢ fd → get_or r.1.proc.fds g closed ≡ get_or io.proc.fds g closed

-- The state after a read of `n` bytes.
abbrev pub read_state : Io → (fd buf n : ℕ) → RamFile → Io
read_state io fd buf n file =
    let entry = get_or io.proc.fds fd closed in
    record (set_fd io fd (record entry { offset = add32 entry.offset n })) {
      mem = copy_loop n io.mem buf (file.contents + entry.offset);
    }

read_state_lem :
    (io : Io) (fd buf len n : ℕ) (file : RamFile)
    → IsOpen io fd file
    → (buf + n ≤ file.contents + offset_of io fd) ⊎ (file.contents + offset_of io fd + n ≤ buf)
    → n ≡ min len (file.size - offset_of io fd)
    → HasRead io fd buf len file (n, read_state io fd buf n file)
unfolding set_fd
read_state_lem io fd buf len n file v apart count =
    let entry : FdEntry = get_or io.proc.fds fd closed in
    let entry' : FdEntry = record entry { offset = add32 entry.offset n } in
    let here : get_or (set io.proc.fds fd entry') fd closed ≡ entry' =
      get_or-set_self io.proc.fds fd entry' closed (omega (arith, v.fds, v.high)) in
    let sum : add32 entry.offset n ≡ entry.offset + n = omega (arith, count, v.within, v.word) in
    record {
      count = count;
      moved = ap (λ e. e.offset) here ∙ sum;
      still_open = record {
        fds = length-set io.proc.fds fd entry' ∙ v.fds;
        low = v.low;
        high = v.high;
        used = rw here v.used;
        found = rw here v.found;
        within = rw (here, sum) (omega (arith, count, v.within));
        word = v.word;
      };
      bytes = λ i l.
          copy_loop_lem n io.mem buf (file.contents + entry.offset) i (buf + i) _ apart l refl refl;
      outside = λ k out. copy_loop-other n io.mem buf (file.contents + entry.offset) k out;
      others = λ g ne. get_or-set_ne io.proc.fds fd g entry' closed (λ e. ne (sym e));
    }

-- A read from an open descriptor, into a buffer that is not NULL and lies apart from the contents of
-- the file, returns the smaller of what is asked for and what is left; so many bytes of the file from
-- the offset on are in the buffer, the offset is so much further and within the file, and other
-- descriptors and other memory are as before.
pub sys_read_lem :
    (io : Io) (fd buf len : ℕ) (file : RamFile)
    → IsOpen io fd file
    → buf ≢ 0
    → (buf + len ≤ file.contents) ⊎ (file.contents + file.size ≤ buf)
    → HasRead io fd buf len file (sys_read io fd buf len)
unfolding sys_read
sys_read_lem io fd buf len file v nonnull apart =
    let entry : FdEntry = get_or io.proc.fds fd closed in
    let remaining : ℕ = sub32 file.size entry.offset in
    let n : ℕ = if ltb len remaining then len else remaining in
    let left : remaining ≡ file.size - entry.offset = omega (arith, v.within, v.word) in
    let count : n ≡ min len (file.size - entry.offset) = ground (arith, left) in
    rw
      (
        ne→== buf 0 nonnull,
        le→ltb fd 3 v.low,
        lt→leb 8 fd v.high,
        ne→== entry.in_use 0 v.used,
        v.found,
      )
      (read_state_lem io fd buf len n file v (ground (arith, apart, count, v.within)) count)
