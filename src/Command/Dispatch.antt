-- ===== src/Command/Dispatch.antt =====
-- `dispatch` of shell/shell.c: a line is split, and its first word looked up in the table.
pub mod Lines
use stak_os.Base.{ℕ, Option, none, some, List, [], ◌∷◌, ◌==◌, if◌then◌else◌, Bool}
use stak_os.Base.Run.{Run, done, halted, ◌>>=◌}
use stak_os.Shell.{parse, argv_max, sh_streq}
use stak_os.Kernel.{Kernel}
use stak_os.Kernel.Print.{lit, str, color, say, light_grey, light_red, white}
use stak_os.Command.World.{World, Argv}
use stak_os.Command.Core.{
  Function, Entry, commands, help, clear, echo, meminfo, memtest, hexdump, heapinfo, heaptest, ps,
  sleep, uptime, vminfo, synctest, elftest, fstest, ls, run, shutdown, cmd_help, cmd_clear,
  cmd_echo,
}
use stak_os.Command.Memory.{cmd_meminfo, cmd_memtest, cmd_hexdump, cmd_heapinfo, cmd_heaptest}
use stak_os.Command.Processes.{cmd_ps, cmd_sleep, cmd_uptime, cmd_vminfo}
use stak_os.Command.User.{cmd_synctest, cmd_elftest, cmd_fstest}
use stak_os.Command.Files.{cmd_ls, cmd_run}

-- The port writes of cmd_shutdown turn the machine off or leave it halted.
pub call : Function → World → Kernel → Argv → Run Kernel
call help = cmd_help
call clear = cmd_clear
call echo = cmd_echo
call meminfo = cmd_meminfo
call memtest = cmd_memtest
call hexdump = cmd_hexdump
call heapinfo = cmd_heapinfo
call heaptest = cmd_heaptest
call ps = cmd_ps
call sleep = cmd_sleep
call uptime = cmd_uptime
call vminfo = cmd_vminfo
call synctest = cmd_synctest
call elftest = cmd_elftest
call fstest = cmd_fstest
call ls = cmd_ls
call run = cmd_run
call shutdown = λ w k argv. halted

-- The first entry with that name.
pub command_of : List Entry → (name : List ℕ) → Option Function
command_of [] name = none
command_of (c ∷ cs) name =
    let rest = command_of cs name in if sh_streq name c.name then some c.fn else rest

pub dispatch : World → Kernel → (line : List ℕ) → Run Kernel
dispatch w k line = elim (parse line argv_max) [
  | [] ↦ done k
  | name ∷ args ↦ elim (command_of commands name) [
    | some f ↦ call f w k (name ∷ args)
    | none ↦ say k (
        color light_red
        ∷ lit "unknown command: "
        ∷ str name
        ∷ lit "  (type 'help')\n"
        ∷ color light_grey
        ∷ [])
  ]
]
