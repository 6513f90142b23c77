-- ===== src/Command/Processes.antt =====
-- shell/commands_proc.c: the commands on processes and time.
pub mod Sleep
use stak_os.Base.{
  ℕ, zero, suc, ◌+◌, ◌-◌, ◌/◌, Bool, true, false, List, [], ◌∷◌, ◌++◌, length, ◌==◌, if◌then◌else◌,
  ltb,
}
use Prim.Native.String.{String}
use stak_os.Base.Run.{Run, done, no_fuel, ◌>>=◌, fueled}
use stak_os.Base.Words.{sub32}
use stak_os.Process.{Process}
use stak_os.Shell.{sh_strtoul}
use stak_os.Kernel.{Kernel, process_of}
use stak_os.Kernel.Print.{
  Piece, lit, str, int, hex, color, say, rows_of, process_list, light_grey, light_green, light_cyan,
  light_red, white,
}
use stak_os.Command.World.{World, Argv, arg, pad}

pub cmd_ps : World → Kernel → Argv → Run Kernel
cmd_ps w k argv = process_list w.fuel k

-- The loop of cmd_sleep: each `hlt` lets the machine run until the shell does again.
pub sleep_loop : (fuel : ℕ) → (resume : Kernel → Kernel) → Kernel → (start ticks : ℕ) → Run Kernel
sleep_loop zero resume k start ticks = no_fuel
sleep_loop (suc fuel) resume k start ticks =
    let rest = sleep_loop fuel resume (resume k) start ticks in
    if ltb (sub32 k.tick_count start) ticks then rest else done k

pub cmd_sleep : World → Kernel → Argv → Run Kernel
cmd_sleep w k argv =
    let ticks = sh_strtoul (arg argv 1) 10 in
    let slept : Run Kernel = do
      k' ← sleep_loop w.fuel w.resume k k.tick_count ticks
      say k' (color light_green ∷ lit "slept " ∷ int ticks ∷ lit " ticks\n" ∷ color light_grey ∷ [])
    in if ltb (length argv) 2
      then say k (color light_red ∷ lit "usage: sleep <ticks>\n" ∷ color light_grey ∷ [])
      else slept

pub cmd_uptime : World → Kernel → Argv → Run Kernel
cmd_uptime w k argv = say k (
    lit "uptime: "
    ∷ int (k.tick_count / 100)
    ∷ lit "s ("
    ∷ int k.tick_count
    ∷ lit " ticks at 100Hz)\n"
    ∷ [])

vminfo_print_proc : Process → (live_cr3 kernel_pd : ℕ) → List Piece
vminfo_print_proc p live_cr3 kernel_pd =
    let note : Piece =
      if p.cr3 == live_cr3
      then lit "<-- live"
      else if p.cr3 == kernel_pd
      then lit "(kernel PD)"
      else lit "(own PD)" in
    int p.pid
    ∷ lit "  "
    ∷ str p.name
    ∷ pad (16 - length p.name)
    ∷ hex p.cr3
    ∷ lit "  "
    ∷ note
    ∷ lit "\n"
    ∷ []

pub cmd_vminfo : World → Kernel → Argv → Run Kernel
cmd_vminfo w k argv =
    let live_cr3 = k.sched.cr3 in
    let cur = k.sched.current_process in
    let row : Process → List Piece = λ p. vminfo_print_proc p live_cr3 k.kernel_pd in
    let first : List Piece = if cur == 0 then [] else row (process_of k cur) in
    do
      rows ← fueled (rows_of w.fuel row k.sched.procs cur k.sched.queue_head)
      say k (
          color light_cyan
            ∷ lit "Virtual memory\n"
            ∷ color light_grey
            ∷ lit "  kernel_pd_phys : "
            ∷ hex k.kernel_pd
            ∷ lit "\n"
            ∷ lit "  live CR3       : "
            ∷ hex live_cr3
            ∷ lit "\n\n"
            ∷ color light_cyan
            ∷ lit "PID  NAME              CR3         NOTE\n"
            ∷ lit "---  ----------------  ----------  -----------\n"
            ∷ color white
            ∷ first
          ++ (color light_grey ∷ rows))
