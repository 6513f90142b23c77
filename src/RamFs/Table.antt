-- ===== src/RamFs/Table.antt =====
-- The table of kernel/ramfs.c: what a registration finds, and what it leaves as it was.
use stak_os.Base.{
  ℕ, zero, suc, ◌+◌, ◌-◌, ◌≤◌, ◌<◌, ◌≡◌, ◌≢◌, ◌⊎◌, inl, inr, refl, true, not, ◌||◌, Option, none,
  some, List, [], ◌∷◌, ◌==◌, arith, length, get_or, get_elem?, min, Bool-cases, ne→==, ltb, ltb→lt,
}
use stak_os.RamFs.{RamFile, str_len, str_len_from, lookup_from, ramfs_lookup, ramfs_register}

-- No byte of the string is NUL.
abbrev pub IsString : List ℕ → Type 0
IsString [] = Unit
IsString (c ∷ s) = (c ≢ 0) × IsString s

str_len_from_lem :
    (n : ℕ) (s : List ℕ) → IsString s → n ≤ 31 → str_len_from n s ≡ n + min (length s) (31 - n)
unfolding str_len_from
str_len_from_lem n [] all l = omega (arith, l)
str_len_from_lem n (c ∷ s) (nz, all) l = elim (Bool-cases (ltb n 31)) [
  | inl e ↦
      rw (ne→== c 0 nz, e)
        (omega
          (arith, l, ltb→lt n 31 e, str_len_from_lem (n + 1) s all (omega (arith, ltb→lt n 31 e))))
  | inr e ↦ rw (ne→== c 0 nz, e) (ground (arith, l, e))
]

-- The byte behind the string is the first one that is NUL.
get_or-nonzero : (s : List ℕ) (i : ℕ) → IsString s → i < length s → get_or s i 0 ≢ 0
get_or-nonzero [] i all l e = absurd (omega arith)
get_or-nonzero (c ∷ s) zero (nz, all) l e = nz e
get_or-nonzero (c ∷ s) (suc i) (nz, all) l e = get_or-nonzero s i all (omega arith) e

-- What the loop of `ramfs_register` returns: the slot, where the name is now found and the file is.
abbrev pub Placed : (i : ℕ) (name : List ℕ) (file : RamFile) → Option (ℕ × List RamFile) → Type 0
Placed i name file none = Unit
Placed i name file (some (j, fs)) =
    (lookup_from i fs name ≡ some j) × (k : ℕ) × (j ≡ i + k) × (get_elem? fs k ≡ some file)

-- The lookup of another name.
abbrev pub SameLookup :
    (i : ℕ) (other : List ℕ) (files : List RamFile) → Option (ℕ × List RamFile) → Type 0
SameLookup i other files none = Unit
SameLookup i other files (some (j, fs)) = lookup_from i fs other ≡ lookup_from i files other

abbrev pub new_file : List ℕ → ℕ → ℕ → RamFile
new_file name contents size = record {
  name = name;
  contents = contents;
  size = size;
  in_use = true;
}

-- The name is not empty, fits in its field and is not registered.
pub record CanRegister (files : List RamFile) (name : List ℕ) : Type 0 where
  pub string : IsString name
  pub some_byte : 0 < length name
  pub fits : length name ≤ 31
  pub fresh : ramfs_lookup files name ≡ none

-- A name that is empty, too long or registered already is refused.
pub register-refused :
    (files : List RamFile) (name : List ℕ) (contents size : ℕ)
    → IsString name
    → (length name ≡ 0) ⊎ ((32 ≤ length name) ⊎ ((i : ℕ) × (ramfs_lookup files name ≡ some i)))
    → ramfs_register files name contents size ≡ none
unfolding ramfs_register str_len
register-refused files name contents size all (inl e) =
    let len : str_len_from 0 name ≡ 0 =
      omega (arith, str_len_from_lem 0 name all (omega arith), e) in
    rw len refl
register-refused files name contents size all (inr (inl l)) =
    let len : str_len_from 0 name ≡ 31 =
      omega (arith, str_len_from_lem 0 name all (omega arith), l) in
    rw (len, ne→== (get_or name 31 0) 0 (get_or-nonzero name 31 all (omega arith))) refl
register-refused files name contents size all (inr (inr (i, e))) =
    rw e
      (elim (Bool-cases
        (str_len_from 0 name == 0 || not (get_or name (str_len_from 0 name) 0 == 0))) [
          | inl h ↦ rw h refl
          | inr h ↦ rw h refl
        ])
