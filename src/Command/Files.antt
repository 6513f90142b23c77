-- ===== src/Command/Files.antt =====
-- shell/commands_fs.c: the commands on the file table.
use stak_os.Base.{
  ℕ, zero, suc, ◌+◌, ◌-◌, none, some, List, [], ◌∷◌, length, ◌==◌, if◌then◌else◌, ltb,
}
use stak_os.Base.Run.{Run, ◌>>=◌}
use stak_os.RamFs.{RamFile, ramfs_lookup, ramfs_get, ramfs_capacity}
use stak_os.Elf.{elf32_validate}
use stak_os.Kernel.{Kernel, process_of}
use stak_os.Kernel.Create.{process_create_from_elf}
use stak_os.Kernel.Print.{
  Piece, lit, str, int, hex, color, say, light_grey, light_green, light_cyan, light_red,
}
use stak_os.Command.World.{World, Argv, arg, pad}

-- The files from index `i` on, `n` indices left.
pub ls_lines : (n i : ℕ) → List RamFile → List Piece
ls_lines zero i files = []
ls_lines (suc n) i files =
    let rest = ls_lines n (i + 1) files in
    elim (ramfs_get files i) [
      | none ↦ rest
      | some f ↦ str f.name ∷ pad (20 - length f.name) ∷ int f.size ∷ lit " bytes\n" ∷ rest
    ]

pub cmd_ls : World → Kernel → Argv → Run Kernel
cmd_ls w k argv =
    let listed : List Piece = elim (ls_lines ramfs_capacity 0 k.files) [
      | [] ↦ lit "(no files)\n" ∷ []
      | p ∷ ps ↦ p ∷ ps
    ] in
    say k (
      color light_cyan
      ∷ lit "NAME                 SIZE\n"
      ∷ lit "----------------     ----------\n"
      ∷ color light_grey
      ∷ listed)

-- The file `f` started under its name.
pub run_file : World → Kernel → (name : List ℕ) → RamFile → Run Kernel
run_file w k name f =
    let launched : Run Kernel = do
      r ← process_create_from_elf w.image w.fuel k name f.contents 5
      let p = process_of r.1 r.0
      if r.0 == 0
          then say r.1 (lit "run: process_create_from_elf failed\n" ∷ [])
          else say r.1 (
              color light_green
              ∷ lit "run: spawned pid="
              ∷ int p.pid
              ∷ lit " entry="
              ∷ hex p.user_entry
              ∷ lit "\n"
              ∷ color light_grey
              ∷ [])
    in elim (elf32_validate k.mem f.contents) [
      | none ↦ say k (
          color light_red
          ∷ lit "run: not a valid ELF32 executable: "
          ∷ str name
          ∷ lit "\n"
          ∷ color light_grey
          ∷ [])
      | some entry ↦ launched
    ]

pub cmd_run : World → Kernel → Argv → Run Kernel
cmd_run w k argv =
    let name = arg argv 1 in
    let found : Run Kernel = elim (ramfs_lookup k.files name) [
      | none ↦ say k (
          color light_red ∷ lit "run: no such file: " ∷ str name ∷ lit "\n" ∷ color light_grey ∷ [])
      | some idx ↦ elim (ramfs_get k.files idx) [
        | none ↦ say k (lit "run: internal error (file disappeared)\n" ∷ [])
        | some f ↦ run_file w k name f
      ]
    ] in
    if ltb (length argv) 2
    then say k (color light_red ∷ lit "usage: run <filename>\n" ∷ color light_grey ∷ [])
    else found
