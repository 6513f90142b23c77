-- ===== src/Userland.antt =====
-- userland/test_prog.c, the program that is loaded from an ELF file and runs in user mode. The kernel
-- answers its `int 0x80` by `syscall_handler`; between two calls no other process runs.
pub mod Strings
pub mod Exits
pub mod Calls
mod Tests
use stak_os.Base.{ℕ, zero, suc, ◌+◌, Bool, ◌&&◌, Option, none, some, ◌==◌, if◌then◌else◌, ltb}
use stak_os.Base.Run.{Run, done, ◌>>=◌, fueled}
use stak_os.Memory.{Mem, load8}
use stak_os.Kernel.{Kernel}
use stak_os.Kernel.Exit.{syscall_handler}

-- Where the compiler puts the strings of the program and its buffer.
pub record Layout : Type 0 where
  pub msg : ℕ
  pub path : ℕ
  pub ok : ℕ
  pub bad : ℕ
  pub fail : ℕ
  pub buf : ℕ

-- `syscall3`: the value of `eax` after `int 0x80`.
abbrev pub syscall3 : (own : ℕ → Bool) → (fuel : ℕ) → Kernel → (num a b c : ℕ) → Run (ℕ × Kernel)
syscall3 own fuel k num a b c =
    syscall_handler own fuel k (record { eax = num; ebx = a; ecx = b; edx = c })

-- The loop `while (msg[len]) len++;`
pub length_loop : (fuel : ℕ) → Mem → (s len : ℕ) → Option ℕ
length_loop zero m s len = none
length_loop (suc fuel) m s len =
    let rest = length_loop fuel m s (len + 1) in if load8 m (s + len) == 0 then some len else rest

-- The length of a string, and the call that writes it.
pub write : (own : ℕ → Bool) → (fuel : ℕ) → Kernel → (s : ℕ) → Run (ℕ × Kernel)
write own fuel k s = do len ← fueled (length_loop fuel k.mem s 0); syscall3 own fuel k 0 1 s len

-- The first bytes of an ELF file are in the buffer.
abbrev pub is_magic : Mem → (buf : ℕ) → Bool
is_magic m buf =
    load8 m buf == 127
    && load8 m (buf + 1) == 69
    && load8 m (buf + 2) == 76
    && load8 m (buf + 3) == 70

-- With the file open as `fd`.
pub read_back : (own : ℕ → Bool) → Layout → (fuel : ℕ) → Kernel → (fd : ℕ) → Run (ℕ × Kernel)
read_back own l fuel k fd = do
  n ← syscall3 own fuel k 4 fd l.buf 4
  w ← write own fuel n.1 (if n.0 == 4 && is_magic n.1.mem l.buf then l.ok else l.bad)
  syscall3 own fuel w.1 5 fd 0 0

-- The program up to its exit.
pub before_exit : (own : ℕ → Bool) → Layout → (fuel : ℕ) → Kernel → Run (ℕ × Kernel)
before_exit own l fuel k = do
  w ← write own fuel k l.msg
  o ← syscall3 own fuel w.1 3 l.path 0 0
  if ltb o.0 2_147_483_648 then read_back own l fuel o.1 o.0 else write own fuel o.1 l.fail

-- `_start`: the exit switches to another process, so that the loop behind it is not reached.
pub start : (own : ℕ → Bool) → Layout → (fuel : ℕ) → Kernel → Run (ℕ × Kernel)
start own l fuel k = do r ← before_exit own l fuel k; syscall3 own fuel r.1 1 0 0 0
