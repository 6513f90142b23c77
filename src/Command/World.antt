-- ===== src/Command/World.antt =====
-- What the shell's commands take from outside of them: addresses that the linker and the stack give,
-- the other processes, and the arguments of `argv`.
use stak_os.Base.{Bool, ℕ, zero, suc, List, [], ◌∷◌, replicate}
use stak_os.Kernel.{Kernel, Image}
use stak_os.Kernel.Print.{Piece, str}

-- `test_prog_blob` is the embedded program, `message_at` the literal of cmd_synctest, `path_at` the
-- literal "test.elf", `buf_at` the buffer of cmd_fstest. `resume` is what the machine does from a `hlt`
-- or a switch to another process until the shell runs again. `own` are the addresses that the kernel's
-- statics and process structures take. The fuel is for the loops.
pub record World : Type 0 where
  pub image : Image
  pub own : ℕ → Bool
  pub fuel : ℕ
  pub test_prog_blob : ℕ
  pub message_at : ℕ
  pub path_at : ℕ
  pub buf_at : ℕ
  pub resume : Kernel → Kernel

abbrev pub Argv : Type 0
Argv = List (List ℕ)

abbrev pub arg : Argv → ℕ → List ℕ
arg [] i = []
arg (a ∷ argv) zero = a
arg (a ∷ argv) (suc i) = arg argv i

-- A blank printed `n` times.
abbrev pub pad : ℕ → Piece
pad n = str (replicate n 32)
