-- ===== src/Command/User.antt =====
-- shell/commands_user.c and kernel/syscall_wrapper.h: the commands that go through system calls and
-- the loader.
use stak_os.Base.{
  Bool, ℕ, zero, suc, ◌+◌, ◌/◌, ◌%◌, List, [], ◌∷◌, ◌++◌, length, ◌==◌, if◌then◌else◌, ltb,
}
use stak_os.Base.Run.{Run, done, ◌>>=◌, fueled}
use stak_os.Base.Text.{text}
use stak_os.Memory.{Mem, load8}
use stak_os.Kernel.{Kernel, process_of}
use stak_os.Kernel.Create.{process_create_from_elf}
use stak_os.Kernel.Exit.{syscall_handler, string_at}
use stak_os.Kernel.Print.{Piece, lit, int, hex, chr, color, say, light_grey, light_cyan}
use stak_os.Command.World.{World, Argv}
use stak_os.Command.Memory.{hex_char}

-- `int 0x80` with the number and the arguments.
pub syscall3 : (own : ℕ → Bool) → (fuel : ℕ) → Kernel → (num a b c : ℕ) → Run (ℕ × Kernel)
syscall3 own fuel k num a b c =
    syscall_handler own fuel k (record { eax = num; ebx = a; ecx = b; edx = c })

pub cmd_synctest : World → Kernel → Argv → Run Kernel
cmd_synctest w k argv = do
  k1 ← say k (color light_cyan ∷ lit "Syscall gate test\n" ∷ color light_grey ∷ [])
  msg ← fueled (string_at w.fuel k1.mem w.message_at)
  let len = length msg
  r ← syscall3 w.own w.fuel k1 0 1 w.message_at len
  k2 ← say r.1 (
      lit "  sys_write returned: "
      ∷ int r.0
      ∷ (if r.0 == len then lit "  [OK]\n" else lit "  [MISMATCH]\n")
      ∷ lit "  calling sys_yield()...\n"
      ∷ [])
  y ← syscall3 w.own w.fuel k2 2 0 0 0
  say (w.resume y.1) (lit "  back from sys_yield  [OK]\n" ∷ [])

pub cmd_elftest : World → Kernel → Argv → Run Kernel
cmd_elftest w k argv = do
  k1 ← say k (
      color light_cyan
      ∷ lit "ELF loader test\n"
      ∷ color light_grey
      ∷ lit "  loading embedded test_prog.elf...\n"
      ∷ [])
  r ← process_create_from_elf w.image w.fuel k1 (text "elftest") w.test_prog_blob 5
  let p = process_of r.1 r.0
  if r.0 == 0
      then say r.1 (lit "  process_create_from_elf failed\n" ∷ [])
      else say r.1 (
          lit "  spawned pid="
          ∷ int p.pid
          ∷ lit " entry="
          ∷ hex p.user_entry
          ∷ lit " - watch for its output on the next scheduler tick\n"
          ∷ [])

-- The `n` bytes from `a` on in hexadecimal.
hex_bytes : (n : ℕ) → Mem → (a : ℕ) → List Piece
hex_bytes zero m a = []
hex_bytes (suc n) m a =
    chr (hex_char (load8 m a / 16))
    ∷ chr (hex_char (load8 m a % 16))
    ∷ chr 32
    ∷ hex_bytes n m (a + 1)

-- What follows the successful open of cmd_fstest.
pub fstest_read : World → Kernel → (fd : ℕ) → Run Kernel
fstest_read w k fd = do
  r ← syscall3 w.own w.fuel k 4 fd w.buf_at 16
  let n = r.0
  k1 ← say r.1 (
      (lit "  read() = " ∷ int n ∷ lit " bytes: " ∷ [])
      ++ (hex_bytes n r.1.mem w.buf_at ++ (lit "\n" ∷ [])))
  c ← syscall3 w.own w.fuel k1 5 fd 0 0
  say c.1
      (lit "  close() = " ∷ int c.0 ∷ (if c.0 == 0 then lit "  [OK]\n" else lit "  [FAIL]\n") ∷ [])

pub cmd_fstest : World → Kernel → Argv → Run Kernel
cmd_fstest w k argv = do
  k1 ← say k (color light_cyan ∷ lit "Filesystem test\n" ∷ color light_grey ∷ [])
  r ← syscall3 w.own w.fuel k1 3 w.path_at 0 0
  let opened = ltb r.0 2147483648
  k2 ← say r.1 (
      lit "  open(\"test.elf\") = "
      ∷ int r.0
      ∷ (if opened then lit "  [OK]\n" else lit "  [FAIL]\n")
      ∷ [])
  if opened then fstest_read w k2 r.0 else done k2
