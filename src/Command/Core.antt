-- ===== src/Command/Core.antt =====
-- shell/commands_core.c, and the names and help texts of the table in shell/commands.c.
use stak_os.Base.{ℕ, ◌-◌, List, [], ◌∷◌, ◌++◌, length}
use stak_os.Base.Run.{Run, done}
use stak_os.Base.Text.{text}
use stak_os.Vga.{vga_init}
use stak_os.Kernel.{Kernel}
use stak_os.Kernel.Print.{Piece, lit, str, color, say, light_grey, light_cyan, white}
use stak_os.Command.World.{World, Argv, pad}

-- The function pointers of the table.
pub data Function : Type 0 where
  help : Function
  clear : Function
  echo : Function
  meminfo : Function
  memtest : Function
  hexdump : Function
  heapinfo : Function
  heaptest : Function
  ps : Function
  sleep : Function
  uptime : Function
  vminfo : Function
  synctest : Function
  elftest : Function
  fstest : Function
  ls : Function
  run : Function
  shutdown : Function

-- `command_t`
pub record Entry : Type 0 where
  pub name : List ℕ
  pub help_text : List ℕ
  pub fn : Function

abbrev entry : List ℕ → List ℕ → Function → Entry
entry n h f = record { name = n; help_text = h; fn = f }

abbrev pub commands : List Entry
commands =
    entry (text "help") (text "list available commands") help
    ∷ entry (text "clear") (text "clear the screen") clear
    ∷ entry (text "echo") (text "print arguments to screen") echo
    ∷ entry (text "meminfo") (text "show PMM memory statistics") meminfo
    ∷ entry (text "memtest") (text "alloc/free N frames (default 8)") memtest
    ∷ entry (text "hexdump") (text "dump memory: hexdump <addr> <len>") hexdump
    ∷ entry (text "heapinfo") (text "show kmalloc heap statistics") heapinfo
    ∷ entry (text "heaptest") (text "alloc/free/read-back heap chunks") heaptest
    ∷ entry (text "ps") (text "list processes") ps
    ∷ entry (text "sleep") (text "sleep <ticks> (100 ticks = 1 second)") sleep
    ∷ entry (text "uptime") (text "show ticks and seconds since boot") uptime
    ∷ entry (text "vminfo") (text "show virtual memory info") vminfo
    ∷ entry (text "synctest") (text "exercise int 0x80 syscall gate") synctest
    ∷ entry (text "elftest") (text "load and run the embedded test ELF binary") elftest
    ∷ entry (text "fstest") (text "exercise SYS_OPEN/READ/CLOSE against ramfs") fstest
    ∷ entry (text "ls") (text "list files in ramfs") ls
    ∷ entry (text "run") (text "run <filename> - load and execute an ELF from ramfs") run
    ∷ entry (text "shutdown") (text "shut down the system") shutdown
    ∷ []

help_lines : List Entry → List Piece
help_lines [] = []
help_lines (c ∷ cs) =
    color white
    ∷ lit "  "
    ∷ str c.name
    ∷ pad (10 - length c.name)
    ∷ color light_grey
    ∷ lit "- "
    ∷ str c.help_text
    ∷ lit "\n"
    ∷ help_lines cs

pub cmd_help : World → Kernel → Argv → Run Kernel
cmd_help w k argv = say k (color light_cyan ∷ lit "StakOS commands:\n" ∷ help_lines commands)

pub cmd_clear : World → Kernel → Argv → Run Kernel
cmd_clear w k argv = done (record k { screen = vga_init k.screen })

-- The words from `argv[i]` on, with a blank between two.
echo_words : Argv → List Piece
echo_words [] = []
echo_words (a ∷ []) = str a ∷ []
echo_words (a ∷ b ∷ argv) = str a ∷ lit " " ∷ echo_words (b ∷ argv)

pub cmd_echo : World → Kernel → Argv → Run Kernel
cmd_echo w k [] = say k (lit "\n" ∷ [])
cmd_echo w k (name ∷ argv) = say k (echo_words argv ++ (lit "\n" ∷ []))
