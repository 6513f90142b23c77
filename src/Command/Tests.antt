-- ===== src/Command/Tests.antt =====
-- Commands on the sample kernel.
use stak_os.Base.{
  false, zero, suc, ◌*◌, ◌≤◌, ℕ, ◌≡◌, refl, some, List, [], ◌∷◌, if◌then◌else◌, arith, lt→ltb, ltb,
}
use stak_os.Base.Run.{done}
use stak_os.Base.Text.{text}
use stak_os.Base.Words.{add32}
use stak_os.Memory.{Mem}
use stak_os.Shell.Words.{Spaced, line_of}
use stak_os.Kernel.{Kernel}
use stak_os.Kernel.Sample.{sample_kernel}
use stak_os.Kernel.Print.{Piece}
use stak_os.Command.World.{World, Argv}
use stak_os.Command.Core.{uptime}
use stak_os.Command.Memory.{hexdump}
use stak_os.Command.Memory.Hexdump.{hexdump-mapped}
use stak_os.Command.Processes.{sleep_loop}
use stak_os.Command.Processes.Sleep.{iterate, sleep_loop_lem}
use stak_os.Command.Dispatch.{call, dispatch}
use stak_os.Command.Dispatch.Lines.{dispatch-line}

-- Two memories that differ above the mapped bytes.
abbrev zeros : Mem
zeros a = 0

abbrev ones_above : Mem
ones_above a = if ltb a 33554432 then 0 else 1

abbrev last_bytes : Argv
last_bytes = text "hexdump" ∷ text "0x1fffff0" ∷ text "16" ∷ []

hexdump-mapped_example :
    (out : List Piece) × (hexdump zeros last_bytes ≡ some out)
    × (hexdump ones_above last_bytes ≡ some out)
hexdump-mapped_example =
    hexdump-mapped zeros ones_above last_bytes (λ a l. rw (lt→ltb a 33554432 l) refl)

abbrev one_tick : Kernel → Kernel
one_tick k = record k { tick_count = add32 k.tick_count 1 }

abbrev two_ticks : Kernel → Kernel
two_ticks k = record k { tick_count = add32 k.tick_count 2 }

two_each :
    (i : ℕ) → i ≤ 2 → (iterate i two_ticks sample_kernel).tick_count ≡ add32 4294967295 (2 * i)
unfolding iterate
two_each zero l = refl
two_each (suc zero) l = refl
two_each (suc (suc zero)) l = refl
two_each (suc (suc (suc i))) l = absurd (omega arith)

-- The shell runs after two and after four ticks, and the third tick ends the sleep.
sleep_loop_lem_example :
    sleep_loop 4 two_ticks sample_kernel 4294967295 3 ≡ done (iterate 2 two_ticks sample_kernel)
sleep_loop_lem_example =
    sleep_loop_lem two_ticks (λ i. 2 * i) 2 3 4 sample_kernel (omega arith) two_each
      (λ i l. omega arith) (omega arith) (omega arith) (omega arith)

abbrev world : World
world = record {
  image = record { idle_pcb = 0; stack_top = 0; process_exit_at = 0; trampoline_at = 0 };
  own = λ a. false;
  fuel = 4;
  test_prog_blob = 0;
  message_at = 0;
  path_at = 0;
  buf_at = 0;
  resume = one_tick;
}

-- " uptime now"
abbrev typed : List Spaced
typed =
    record { gap = 32 ∷ []; first = 117; rest = text "ptime" }
    ∷ record { gap = 32 ∷ []; first = 110; rest = text "ow" }
    ∷ []

dispatch-line_example :
    dispatch world sample_kernel (line_of typed [])
    ≡ call uptime world sample_kernel (text "uptime" ∷ text "now" ∷ [])
dispatch-line_example =
    dispatch-line world sample_kernel 10
      (record {
        name = text "uptime";
        help_text = text "show ticks and seconds since boot";
        fn = uptime;
      })
      (text "now" ∷ []) typed [] refl
      (
        (refl, tt),
        refl,
        (refl, (refl, (refl, (refl, (refl, tt))))),
        ((refl, tt), refl, (refl, (refl, tt)), tt),
      )
      (omega arith, tt) tt (omega arith) refl
