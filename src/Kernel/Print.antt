-- ===== src/Kernel/Print.antt =====
-- What the kernel prints: sequences of calls of kernel/vga.c, the reports that end in `kpanic`, and
-- the statistics of the allocators and the process list.
pub mod Said
use stak_os.Base.{
  ℕ, zero, suc, ◌/◌, Bool, true, false, Option, none, some, List, [], ◌∷◌, ◌++◌, ◌==◌,
  if◌then◌else◌,
}
use Prim.Native.String.{String}
use stak_os.Base.Run.{Run, done, ◌>>=◌, fueled}
use stak_os.Base.Text.{text}
use stak_os.Base.Words.{mul32}
use stak_os.Process.{Process, ProcessState, ready, running, blocked, zombie, dead, Procs}
use stak_os.Pmm.{Pmm, page_size}
use stak_os.Kmalloc.{Heap, Stats, kmalloc_stats}
use stak_os.Vga.{Vga, vga_set_color, vga_putchar, kprint, kprint_int, kprint_hex}
use stak_os.Kernel.{Kernel, process_of}

-- A call of `kprint` on a literal or on a string, of `kprint_int`, `kprint_hex`, `vga_putchar` or
-- `vga_set_color`.
pub data Piece : Type 0 where
  lit : String → Piece
  str : List ℕ → Piece
  int : ℕ → Piece
  hex : ℕ → Piece
  chr : ℕ → Piece
  color : ℕ → Piece

pub print : Vga → Piece → Option Vga
print v (lit s) = some (kprint v (text s))
print v (str s) = some (kprint v s)
print v (int n) = kprint_int v n
print v (hex n) = some (kprint_hex v n)
print v (chr c) = some (vga_putchar v c)
print v (color c) = some (vga_set_color v c)

pub print_all : Vga → List Piece → Option Vga
print_all v [] = some v
print_all v (p ∷ ps) = elim (print v p) [ none ↦ none | some v' ↦ print_all v' ps ]

pub say : Kernel → List Piece → Run Kernel
say k ps = do v ← fueled (print_all k.screen ps); done (record k { screen = v })

abbrev pub red : ℕ
red = 4

abbrev pub light_grey : ℕ
light_grey = 7

abbrev pub light_green : ℕ
light_green = 10

abbrev pub light_cyan : ℕ
light_cyan = 11

abbrev pub light_red : ℕ
light_red = 12

abbrev pub yellow : ℕ
yellow = 14

abbrev pub white : ℕ
white = 15

-- `kpanic` up to its halt.
abbrev pub kpanic : (msg detail : List ℕ) → List Piece
kpanic msg detail =
    color red
    ∷ lit "\n[KERNEL PANIC] "
    ∷ str msg
    ∷ str detail
    ∷ lit "\n--- System Halted ---\n"
    ∷ []

pub pmm_print_stats : Pmm → List Piece
pmm_print_stats p =
    color light_green
    ∷ lit "[OK] PMM initialized\n"
    ∷ color light_grey
    ∷ lit "     Total frames : "
    ∷ int p.total_frames
    ∷ lit "  ("
    ∷ int (mul32 p.total_frames page_size / 1024)
    ∷ lit " KB)\n"
    ∷ lit "     Free  frames : "
    ∷ int p.free_frames
    ∷ lit "  ("
    ∷ int (mul32 p.free_frames page_size / 1024)
    ∷ lit " KB)\n"
    ∷ []

print_heap : Heap → Stats → List Piece
print_heap h t =
    color light_green
    ∷ lit "[OK] kmalloc heap initialized\n"
    ∷ color light_grey
    ∷ lit "     Heap size   : "
    ∷ int h.heap_total_bytes
    ∷ lit " bytes ("
    ∷ int (h.heap_total_bytes / 1024)
    ∷ lit " KB)\n"
    ∷ lit "     Free        : "
    ∷ int t.free_bytes
    ∷ lit " bytes in "
    ∷ int t.free_blocks
    ∷ lit " block(s)\n"
    ∷ lit "     Used        : "
    ∷ int t.used_bytes
    ∷ lit " bytes in "
    ∷ int t.used_blocks
    ∷ lit " block(s)\n"
    ∷ lit "     Total       : "
    ∷ int t.total_blocks
    ∷ lit " block(s)\n"
    ∷ []

pub kmalloc_print_stats : (fuel : ℕ) → Kernel → Run Kernel
kmalloc_print_stats fuel k = do
  t ← fueled (kmalloc_stats fuel k.heap k.mem)
  say k (print_heap k.heap t)

pub state_name : ProcessState → List ℕ
state_name ready = text "READY  "
state_name running = text "RUNNING"
state_name blocked = text "BLOCKED"
state_name zombie = text "ZOMBIE "
state_name dead = text "DEAD   "

pub print_proc_row : Process → (highlight : Bool) → List Piece
print_proc_row p highlight =
    color (if highlight then white else light_grey)
    ∷ int p.pid
    ∷ lit "    "
    ∷ str (state_name p.state)
    ∷ lit "  "
    ∷ int p.priority
    ∷ lit "    "
    ∷ str p.name
    ∷ lit "\n"
    ∷ []

-- The processes of a list but for `cur`, each as `row` prints it.
pub rows_of : (fuel : ℕ) → (Process → List Piece) → Procs → (cur p : ℕ) → Option (List Piece)
rows_of zero row procs cur p = none
rows_of (suc fuel) row procs cur p =
    let rest : Option (List Piece) = elim (rows_of fuel row procs cur (procs p).next) [
      | none ↦ none
      | some ps ↦ some (if p == cur then ps else row (procs p) ++ ps)
    ] in
    if p == 0 then some [] else rest

pub process_list : (fuel : ℕ) → Kernel → Run Kernel
process_list fuel k =
    let cur = k.sched.current_process in
    let first : List Piece = if cur == 0 then [] else print_proc_row (process_of k cur) true in
    do
      rows ←
          fueled (rows_of fuel (λ p. print_proc_row p false) k.sched.procs cur k.sched.queue_head)
      say k (
          color light_cyan
            ∷ lit "PID  STATE    PRI  NAME\n"
            ∷ lit "---  -------  ---  ----------------\n"
            ∷ first
          ++ (rows ++ (color light_grey ∷ [])))
