-- ===== src/Command/Session.antt =====
-- `shell_run` of shell/shell.c: a character of the keyboard edits the line or dispatches it.
use stak_os.Base.{ℕ, List, [], ◌∷◌}
use stak_os.Base.Run.{Run, done, ◌>>=◌}
use stak_os.Keyboard.{Keyboard, keyboard_getchar}
use stak_os.Shell.{shell_key, ignored, echo, dispatched}
use stak_os.Kernel.{Kernel}
use stak_os.Kernel.Print.{Piece, lit, chr, color, say, light_grey, white}
use stak_os.Command.World.{World}
use stak_os.Command.Dispatch.{dispatch}

-- The kernel with the keyboard and the bytes of `buf` before `buf_len`.
pub record Session : Type 0 where
  pub kernel : Kernel
  pub keyboard : Keyboard
  pub buf : List ℕ

abbrev pub print_prompt : List Piece
print_prompt = color white ∷ lit "> " ∷ []

pub shell_start : Session → Run Session
shell_start s = do
  k ←
      say s.kernel
        (color light_grey ∷ lit "\nType 'help' for available commands.\n\n" ∷ print_prompt)
  done (record s { kernel = k })

-- One round of the loop.
pub shell_round : World → Session → Run Session
shell_round w s =
    let (c, keyboard) = keyboard_getchar s.keyboard in
    let (buf, event) = shell_key s.buf c in
    let s' = record s { keyboard = keyboard; buf = buf } in
    elim event [
      | ignored ↦ done s'
      | echo e ↦ do k ← say s.kernel (chr e ∷ []); done (record s' { kernel = k })
      | dispatched line ↦ do
        k1 ← say s.kernel (chr 10 ∷ [])
        k2 ← dispatch w k1 line
        k3 ← say k2 print_prompt
        done (record s' { kernel = k3 })
    ]
