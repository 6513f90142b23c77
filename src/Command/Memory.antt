-- ===== src/Command/Memory.antt =====
-- shell/commands_mem.c: the commands on memory.
pub mod Memtest
pub mod Hexdump
use stak_os.Base.{
  ℕ, zero, suc, ◌+◌, ◌-◌, ◌*◌, ◌/◌, ◌%◌, Bool, true, false, not, ◌&&◌, ◌||◌, Option, none, some,
  List, [], ◌∷◌, ◌++◌, ◌==◌, if◌then◌else◌, ltb, leb, length,
}
use stak_os.Base.Run.{Run, done, ◌>>=◌, fueled}
use stak_os.Base.Words.{add32}
use stak_os.Memory.{Mem, load8, store8}
use stak_os.Pmm.{Pmm, page_size, pmm_alloc_frame, pmm_free_frame}
use stak_os.Paging.{entries, identity_pt_count}
use stak_os.Shell.{sh_strtoul}
use stak_os.Kernel.{Kernel, with_pmm, heap_alloc, heap_free}
use stak_os.Kernel.Print.{
  Piece, lit, int, hex, chr, color, say, pmm_print_stats, kmalloc_print_stats, light_grey,
  light_green, light_cyan, light_red, white,
}
use stak_os.Command.World.{World, Argv, arg}

pub cmd_meminfo : World → Kernel → Argv → Run Kernel
cmd_meminfo w k argv = say k (pmm_print_stats k.pmm)

abbrev pub memtest_max_frames : ℕ
memtest_max_frames = 64

-- The frames that the loop of cmd_memtest gets, `n` rounds before its end at round `i`, whether all
-- allocations succeeded, what it prints, and the allocator after it.
pub memtest_alloc : (n i : ℕ) → Pmm → List ℕ × Bool × List Piece × Pmm
memtest_alloc zero i p = ([], true, [], p)
memtest_alloc (suc n) i p =
    let (frame, p') = pmm_alloc_frame p in
    let (frames, ok, out, p'') = memtest_alloc n (i + 1) p' in
    if frame == 0
    then (
      [],
      false,
      color light_red ∷ lit "  [FAIL] alloc returned 0 at i=" ∷ int i ∷ lit "\n" ∷ [],
      p',
    )
    else (frame ∷ frames, ok, lit "  alloc[" ∷ int i ∷ lit "] = " ∷ hex frame ∷ lit "\n" ∷ out, p'')

pub memtest_free : List ℕ → Pmm → Pmm
memtest_free [] p = p
memtest_free (f ∷ frames) p = memtest_free frames (pmm_free_frame p f)

pub cmd_memtest : World → Kernel → Argv → Run Kernel
cmd_memtest w k argv =
    let n = if ltb (length argv) 2 then 8 else sh_strtoul (arg argv 1) 10 in
    let (frames, ok, out, p) = memtest_alloc n 0 k.pmm in
    let all_ok : List Piece =
      if ok then color light_green ∷ lit "  all allocs OK\n" ∷ color light_grey ∷ [] else [] in
    if n == 0 || ltb memtest_max_frames n
    then say k (color light_red ∷ lit "memtest: n must be 1-64\n" ∷ color light_grey ∷ [])
    else say (with_pmm k (memtest_free frames p)) (
        (color light_cyan
          ∷ lit "memtest: allocating "
          ∷ int n
          ∷ lit " frames\n"
          ∷ color light_grey
          ∷ out)
        ++ (all_ok
            ++ (color light_green
                ∷ lit "  freed "
                ∷ int (length frames)
                ∷ lit " frames - PMM recovered\n"
                ∷ color light_grey
                ∷ [])))

abbrev pub identity_mapped_bytes : ℕ
identity_mapped_bytes = identity_pt_count * entries * page_size

abbrev pub hex_char : ℕ → ℕ
hex_char d = if ltb d 10 then 48 + d else 97 + d - 10

-- The columns from `i` on, `n` of them left, of the line at `offset`.
pub dump_bytes : (n i : ℕ) → Mem → (addr len offset : ℕ) → List Piece
dump_bytes zero i m addr len offset = []
dump_bytes (suc n) i m addr len offset =
    let byte = load8 m (addr + (offset + i)) in
    let shown : List Piece =
      if ltb (offset + i) len
      then chr (hex_char (byte / 16)) ∷ chr (hex_char (byte % 16)) ∷ []
      else lit "  " ∷ [] in
    let gap : List Piece = if i == 7 then chr 32 ∷ [] else [] in
    shown ++ (chr 32 ∷ gap ++ dump_bytes n (i + 1) m addr len offset)

-- The text column of that line.
pub dump_text : (n i : ℕ) → Mem → (addr len offset : ℕ) → List Piece
dump_text zero i m addr len offset = []
dump_text (suc n) i m addr len offset =
    let byte = load8 m (addr + (offset + i)) in
    let rest = dump_text n (i + 1) m addr len offset in
    if ltb (offset + i) len
    then chr (if leb 32 byte && ltb byte 127 then byte else 46) ∷ rest
    else []

pub dump_lines : (fuel : ℕ) → Mem → (addr len offset : ℕ) → Option (List Piece)
dump_lines zero m addr len offset = none
dump_lines (suc fuel) m addr len offset =
    let rest : Option (List Piece) = elim (dump_lines fuel m addr len (offset + 16)) [
      | none ↦ none
      | some out ↦ some (
          (color light_grey ∷ hex (add32 addr offset) ∷ lit "  " ∷ color white ∷ [])
          ++ (dump_bytes 16 0 m addr len offset
              ++ ((color light_cyan ∷ lit " |" ∷ [])
                  ++ (dump_text 16 0 m addr len offset ++ (lit "|\n" ∷ out)))))
    ] in
    if ltb offset len then rest else some []

-- At most 512 bytes are 32 lines.
abbrev pub dump_fuel : ℕ
dump_fuel = 33

-- What cmd_hexdump prints.
pub hexdump : Mem → Argv → Option (List Piece)
hexdump m argv =
    let addr = sh_strtoul (arg argv 1) 16 in
    let len = sh_strtoul (arg argv 2) 10 in
    let lines : Option (List Piece) = elim (dump_lines dump_fuel m addr len 0) [
      | none ↦ none
      | some out ↦ some (out ++ (color light_grey ∷ []))
    ] in
    if ltb (length argv) 3
    then some (color light_red ∷ lit "usage: hexdump <addr> <len>\n" ∷ color light_grey ∷ [])
    else if ltb identity_mapped_bytes addr || ltb (identity_mapped_bytes - addr) len
    then some (
        color light_red
        ∷ lit "hexdump: address range outside mapped memory (0x0-"
        ∷ hex identity_mapped_bytes
        ∷ lit ")\n"
        ∷ color light_grey
        ∷ [])
    else if len == 0 || ltb 512 len
    then some (color light_red ∷ lit "hexdump: len must be 1-512\n" ∷ color light_grey ∷ [])
    else lines

pub cmd_hexdump : World → Kernel → Argv → Run Kernel
cmd_hexdump w k argv = do out ← fueled (hexdump k.mem argv); say k out

pub cmd_heapinfo : World → Kernel → Argv → Run Kernel
cmd_heapinfo w k argv = kmalloc_print_stats w.fuel k

-- Two bytes written to the block at `p`, unless it is NULL.
abbrev pub mark : Mem → (p last first_byte last_byte : ℕ) → Mem
mark m p last first_byte last_byte =
    if p == 0 then m else store8 (store8 m p first_byte) (p + last) last_byte

pub cmd_heaptest : World → Kernel → Argv → Run Kernel
cmd_heaptest w k argv = do
  k0 ← say k (color light_cyan ∷ lit "heaptest: allocating chunks\n" ∷ color light_grey ∷ [])
  ra ← heap_alloc w.fuel k0 32
  let (a, k1) = ra
  rb ← heap_alloc w.fuel k1 128
  let (b, k2) = rb
  rc ← heap_alloc w.fuel k2 64
  let (c, k3) = rc
  rd ← heap_alloc w.fuel k3 256
  let (d, k4) = rd
  k5 ← say k4 (
      lit "  kmalloc(32)  = "
      ∷ hex a
      ∷ lit "\n  kmalloc(128) = "
      ∷ hex b
      ∷ lit "\n  kmalloc(64)  = "
      ∷ hex c
      ∷ lit "\n  kmalloc(256) = "
      ∷ hex d
      ∷ lit "\n"
      ∷ [])
  let m = mark (mark k5.mem a 31 0xAB 0xCD) b 127 0x12 0x34
  let ok =
      not (a == 0 || (b == 0 || (c == 0 || d == 0)))
      && (load8 m a == 0xAB
          && (load8 m (a + 31) == 0xCD && (load8 m b == 0x12 && load8 m (b + 127) == 0x34)))
  k6 ←
      say (record k5 { mem = m })
        (if ok
          then color light_green ∷ lit "  read-back OK\n" ∷ []
          else color light_red ∷ lit "  [FAIL] read-back mismatch!\n" ∷ [])
  k7 ← say k6 (color light_grey ∷ lit "heaptest: freeing (check coalesce)\n" ∷ [])
  k8 ← heap_free w.fuel k7 a
  k9 ← heap_free w.fuel k8 b
  k10 ← heap_free w.fuel k9 c
  k11 ← heap_free w.fuel k10 d
  say k11 (
      color light_green
      ∷ lit "  freed - run heapinfo to confirm coalesced\n"
      ∷ color light_grey
      ∷ [])
