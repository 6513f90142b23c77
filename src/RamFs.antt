-- ===== src/RamFs.antt =====
-- kernel/ramfs.c: the table of files. A name is the list of its bytes, none of them 0, without the
-- terminating NUL; `contents` (the source's `data`) is the address of the contents.
pub mod Table
mod Tests
use stak_os.Base.{
  ℕ, zero, suc, ◌+◌, ◌-◌, Bool, true, false, not, ◌&&◌, ◌||◌, Option, none, some, List, [], ◌∷◌,
  ◌==◌, if◌then◌else◌, ltb, length, get_or, get_elem?, take, replicate,
}

abbrev pub ramfs_max_files : ℕ
ramfs_max_files = 16

abbrev pub ramfs_max_name_len : ℕ
ramfs_max_name_len = 32

-- `ramfs_file_t`
pub record RamFile : Type 0 where
  pub name : List ℕ
  pub contents : ℕ
  pub size : ℕ
  pub in_use : Bool

unfoldable pub str_eq : List ℕ → List ℕ → Bool
str_eq [] [] = true
str_eq [] (b ∷ ys) = b == 0
str_eq (a ∷ xs) [] = a == 0
str_eq (a ∷ xs) (b ∷ ys) = if a == b then str_eq xs ys else false

-- The loop of `str_len` from `n`, in `s` behind the `n` first bytes.
pub str_len_from : (n : ℕ) → List ℕ → ℕ
str_len_from n [] = n
str_len_from n (c ∷ s) =
    let rest = str_len_from (n + 1) s in
    if not (c == 0) && ltb n (ramfs_max_name_len - 1) then rest else n

pub str_len : List ℕ → ℕ
str_len s = str_len_from 0 s

pub clear : List RamFile → List RamFile
clear [] = []
clear (f ∷ files) = record f { in_use = false } ∷ clear files

-- `ramfs_init`
pub ramfs_init : List RamFile → List RamFile
ramfs_init files = clear files

-- The loop of `ramfs_lookup`: `none` stands for -1.
unfoldable pub lookup_from : (i : ℕ) → List RamFile → List ℕ → Option ℕ
lookup_from i [] name = none
lookup_from i (f ∷ files) name =
    let rest = lookup_from (suc i) files name in
    if f.in_use && str_eq f.name name then some i else rest

unfoldable pub ramfs_lookup : List RamFile → List ℕ → Option ℕ
ramfs_lookup files name = lookup_from 0 files name

-- The loop of `ramfs_register`: the slot and the new table.
pub place : (i : ℕ) → List RamFile → RamFile → Option (ℕ × List RamFile)
place i [] file = none
place i (f ∷ files) file =
    let rest : Option (ℕ × List RamFile) = elim (place (suc i) files file) [
      | none ↦ none
      | some (j, fs) ↦ some (j, f ∷ fs)
    ] in
    if not f.in_use then some (i, file ∷ files) else rest

pub ramfs_register :
    List RamFile → (name : List ℕ) → (contents size : ℕ) → Option (ℕ × List RamFile)
ramfs_register files name contents size =
    let len = str_len name in
    let file : RamFile = record {
      name = take len name;
      contents = contents;
      size = size;
      in_use = true;
    } in
    let already : Option (ℕ × List RamFile) = elim (ramfs_lookup files name) [
      | some i ↦ none
      | none ↦ place 0 files file
    ] in
    if len == 0 || not (get_or name len 0 == 0) then none else already

-- `ramfs_get`: `none` is NULL.
unfoldable pub ramfs_get : List RamFile → (index : ℕ) → Option RamFile
ramfs_get files index = elim (get_elem? files index) [
  | none ↦ none
  | some f ↦ if not f.in_use then none else some f
]

pub ramfs_capacity : ℕ
ramfs_capacity = ramfs_max_files
