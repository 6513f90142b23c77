-- ===== src/Elf/Header.antt =====
-- elf32_validate and elf32_get_phdr of kernel/elf.c.
use stak_os.Base.{
  ℕ, ◌≤◌, ◌<◌, ◌≡◌, ◌≢◌, ◌+◌, ◌*◌, ◌%◌, refl, ap, sym, ◌∙◌, ◌⊎◌, not, if◌then◌else◌, Option, none,
  some, arith, ==→eq, ==→ne, eq→==, ne→==, Bool-cases, ◌==◌, inl, inr, le→leb, lt→leb,
}
use stak_os.Base.Words.{u32_mod}
use mathlib.Core.Option.{none-ne-some}
use stak_os.Memory.{Mem, load8, load16, load32}
use stak_os.Elf.{
  magic, ei_class, ei_data, e_type, machine, entry, phoff, phentsize, phnum, elf32_validate,
  elf32_get_phdr,
}

-- The fields of the header as the check reads them.
pub record Accepted (m : Mem) (d : ℕ) : Type 0 where
  pub elf : magic m d ≡ 0x464C_457F
  pub class_32 : ei_class m d ≡ 1
  pub little_endian : ei_data m d ≡ 1
  pub executable : e_type m d ≡ 2
  pub for_386 : machine m d ≡ 3
  pub entry_size : phentsize m d ≡ 32
  pub has_headers : phnum m d ≢ 0

-- A check that was passed.
passed :
    (a b e : ℕ) (o : Option ℕ)
    → (if not (a == b) then none else o) ≡ some e
    → (a ≡ b) × (o ≡ some e)
passed a b e o h = elim (Bool-cases (a == b)) [
  | inl t ↦ (==→eq a b t, rw t at h)
  | inr t ↦ absurd (ground (arith, rw t at h))
]

passed_nonzero :
    (a e : ℕ) (o : Option ℕ) → (if a == 0 then none else o) ≡ some e → (a ≢ 0) × (o ≡ some e)
passed_nonzero a e o h = elim (Bool-cases (a == 0)) [
  | inl t ↦ absurd (ground (arith, rw t at h))
  | inr t ↦ (==→ne a 0 t, rw t at h)
]

-- What `elf32_validate` accepts has passed every check; the result is the field of the entry point.
elf32_validate-passed :
    (m : Mem) (d e : ℕ) → elf32_validate m d ≡ some e → Accepted m d × (entry m d ≡ e)
unfolding elf32_validate
elf32_validate-passed m d e h =
    let (elf, h1) = passed (magic m d) 0x464C_457F e _ h in
    let (class_32, h2) = passed (ei_class m d) 1 e _ h1 in
    let (little_endian, h3) = passed (ei_data m d) 1 e _ h2 in
    let (executable, h4) = passed (e_type m d) 2 e _ h3 in
    let (for_386, h5) = passed (machine m d) 3 e _ h4 in
    let (entry_size, h6) = passed (phentsize m d) 32 e _ h5 in
    let (has_headers, h7) = passed_nonzero (phnum m d) e _ h6 in
    (
      record {
        elf = elf;
        class_32 = class_32;
        little_endian = little_endian;
        executable = executable;
        for_386 = for_386;
        entry_size = entry_size;
        has_headers = has_headers;
      },
      ground (arith, h7),
    )

-- Every image that meets these conditions is accepted, and header `i` below the count of headers is at 32 bytes times `i`
-- behind the start of the table, with the wrap of a word;
-- for any other `i` the answer is NULL.
pub elf32_validate-accepts :
    (m : Mem) (d : ℕ)
    → Accepted m d
    → (elf32_validate m d ≡ some (entry m d))
      × ((i : ℕ) → i < phnum m d → elf32_get_phdr m d i ≡ some ((d + phoff m d + i * 32) % u32_mod))
      × ((i : ℕ) → phnum m d ≤ i → elf32_get_phdr m d i ≡ none)
unfolding elf32_validate elf32_get_phdr
elf32_validate-accepts m d v = (
  rw
      (
        eq→== (magic m d) 0x464C_457F v.elf,
        eq→== (ei_class m d) 1 v.class_32,
        eq→== (ei_data m d) 1 v.little_endian,
        eq→== (e_type m d) 2 v.executable,
        eq→== (machine m d) 3 v.for_386,
        eq→== (phentsize m d) 32 v.entry_size,
        ne→== (phnum m d) 0 v.has_headers,
      )
      refl,
  λ i l. rw (lt→leb (phnum m d) i l, v.entry_size) (ap some (omega arith)),
  λ i l. rw (le→leb (phnum m d) i l) refl,
)

-- The bytes of a 32-bit little-endian executable for the 386 with at least one program header, of 32
-- bytes, by their offsets in the ELF format.
pub record IsImage (m : Mem) (d : ℕ) : Type 0 where
  pub elf :
      (load8 m d ≡ 0x7F) × (load8 m (d + 1) ≡ 69) × (load8 m (d + 2) ≡ 76) × (load8 m (d + 3) ≡ 70)
  pub class_32 : load8 m (d + 4) ≡ 1
  pub little_endian : load8 m (d + 5) ≡ 1
  pub executable : (load8 m (d + 16) ≡ 2) × (load8 m (d + 17) ≡ 0)
  pub for_386 : (load8 m (d + 18) ≡ 3) × (load8 m (d + 19) ≡ 0)
  pub entry_size : (load8 m (d + 42) ≡ 32) × (load8 m (d + 43) ≡ 0)
  pub has_headers : (load8 m (d + 44) ≢ 0) ⊎ (load8 m (d + 45) ≢ 0)

-- The entry point: the four bytes at offset 24, the lowest first.
abbrev pub start_address : Mem → ℕ → ℕ
start_address m d =
    load8 m (d + 24)
    + 256 * load8 m (d + 25)
    + 65_536 * load8 m (d + 26)
    + 16_777_216 * load8 m (d + 27)

-- A field of two bytes, at a sum.
half_at :
    (m : Mem) (d i j : ℕ) → j ≡ i + 1 → load16 m (d + i) ≡ load8 m (d + i) + 256 * load8 m (d + j)
half_at m d i j e =
    let next : d + i + 1 ≡ d + j = omega (arith, e) in
    ap (λ a. load8 m (d + i) + 256 * load8 m a) next

Accepted-IsImage : (m : Mem) (d : ℕ) → Accepted m d → IsImage m d
unfolding load32
Accepted-IsImage m d v = record {
  elf = (omega (arith, v.elf), omega (arith, v.elf), omega (arith, v.elf), omega (arith, v.elf));
  class_32 = v.class_32;
  little_endian = v.little_endian;
  executable = (
    omega (arith, v.executable, half_at m d 16 17 refl),
    omega (arith, v.executable, half_at m d 16 17 refl),
  );
  for_386 = (
    omega (arith, v.for_386, half_at m d 18 19 refl),
    omega (arith, v.for_386, half_at m d 18 19 refl),
  );
  entry_size = (
    omega (arith, v.entry_size, half_at m d 42 43 refl),
    omega (arith, v.entry_size, half_at m d 42 43 refl),
  );
  has_headers = ground (arith, v.has_headers, half_at m d 44 45 refl);
}

IsImage-Accepted : (m : Mem) (d : ℕ) → IsImage m d → Accepted m d
unfolding load32
IsImage-Accepted m d v = record {
  elf = omega (arith, v.elf.0, v.elf.1, v.elf.2, v.elf.3);
  class_32 = v.class_32;
  little_endian = v.little_endian;
  executable = omega (arith, v.executable.0, v.executable.1, half_at m d 16 17 refl);
  for_386 = omega (arith, v.for_386.0, v.for_386.1, half_at m d 18 19 refl);
  entry_size = omega (arith, v.entry_size.0, v.entry_size.1, half_at m d 42 43 refl);
  has_headers = λ z. ground (arith, v.has_headers, z, half_at m d 44 45 refl);
}

entry_lem : (m : Mem) (d : ℕ) → entry m d ≡ start_address m d
unfolding load32
entry_lem m d =
    let one : d + 24 + 1 ≡ d + 25 = omega arith in
    let two : d + 24 + 2 ≡ d + 26 = omega arith in
    let three : d + 24 + 3 ≡ d + 27 = omega arith in rw (one, two, three) refl

-- For any memory `elf32_validate` either finds at `d` the bytes of a 32-bit little-endian executable
-- for the 386 with at least one program header, of 32 bytes, and returns the entry point; or these
-- bytes are not there, and it fails.
pub elf32_validate_lem :
    (m : Mem) (d : ℕ)
    → (IsImage m d × (elf32_validate m d ≡ some (start_address m d)))
      ⊎ ((¬ IsImage m d) × (elf32_validate m d ≡ none))
elf32_validate_lem m d = go (elf32_validate m d) refl
  where
    go :
        (o : Option ℕ)
        → elf32_validate m d ≡ o
        → (IsImage m d × (elf32_validate m d ≡ some (start_address m d)))
          ⊎ ((¬ IsImage m d) × (elf32_validate m d ≡ none))
    go none h = inr (
      λ v.
          none-ne-some (entry m d)
            (sym h ∙ (elf32_validate-accepts m d (IsImage-Accepted m d v)).0),
      h,
    )
    go (some e) h =
        let (v, at) = elf32_validate-passed m d e h in
        inl (Accepted-IsImage m d v, h ∙ ap some (sym at ∙ entry_lem m d))
