-- ===== src/Command/Memory/Hexdump.antt =====
-- cmd_hexdump ends, and reads nothing outside of the mapped memory.
use stak_os.Base.{
  ℕ, zero, suc, ◌+◌, ◌-◌, ◌*◌, ◌%◌, ◌≤◌, ◌<◌, ◌≡◌, refl, ap, ◌||◌, some, List, [], ◌==◌, ltb,
  length, arith, Bool-cases, inl, inr, ltb→lt, le→ltb,
}
use stak_os.Memory.{Mem, load8}
use stak_os.Shell.{sh_strtoul}
use stak_os.Kernel.Print.{Piece}
use stak_os.Command.World.{Argv, arg}
use stak_os.Command.Memory.{identity_mapped_bytes, dump_bytes, dump_text, dump_lines, hexdump}

module _ (m m' : Mem) (addr len : ℕ) (same : (a : ℕ) → a < addr + len → m' a ≡ m a) where
  byte_same :
      (offset i : ℕ)
      → offset + i < len
      → load8 m' (addr + (offset + i)) ≡ load8 m (addr + (offset + i))
  byte_same offset i l = ap (λ b. b % 256) (same (addr + (offset + i)) (omega arith))

  dump_bytes-same :
      (n i offset : ℕ) → dump_bytes n i m' addr len offset ≡ dump_bytes n i m addr len offset
  unfolding dump_bytes
  dump_bytes-same zero i offset = refl
  dump_bytes-same (suc n) i offset = elim (Bool-cases (ltb (offset + i) len)) [
    | inl e ↦
        rw (e, byte_same offset i (ltb→lt (offset + i) len e), dump_bytes-same n (i + 1) offset)
          refl
    | inr e ↦ rw (e, dump_bytes-same n (i + 1) offset) refl
  ]

  dump_text-same :
      (n i offset : ℕ) → dump_text n i m' addr len offset ≡ dump_text n i m addr len offset
  unfolding dump_text
  dump_text-same zero i offset = refl
  dump_text-same (suc n) i offset = elim (Bool-cases (ltb (offset + i) len)) [
    | inl e ↦
        rw (e, byte_same offset i (ltb→lt (offset + i) len e), dump_text-same n (i + 1) offset) refl
    | inr e ↦ rw e refl
  ]

  -- With fuel for all lines, both memories give the same output.
  dump_lines-same :
      (fuel offset : ℕ)
      → len ≤ offset + 16 * fuel
      → (out : List Piece) × (dump_lines (suc fuel) m addr len offset ≡ some out)
        × (dump_lines (suc fuel) m' addr len offset ≡ some out)
  unfolding dump_lines
  dump_lines-same zero offset l = rw (le→ltb offset len (omega arith)) ([], refl, refl)
  dump_lines-same (suc fuel) offset l = elim (Bool-cases (ltb offset len)) [
    | inr e ↦ rw e ([], refl, refl)
    | inl e ↦
        let (out, p, p') = dump_lines-same fuel (offset + 16) (omega arith) in
        rw (e, p, p', dump_bytes-same 16 0 offset, dump_text-same 16 0 offset) (_, refl, refl)
  ]

-- `hexdump` ends on every line of arguments, and its output is the same for two memories that agree
-- on the mapped bytes: no other byte is read.
pub hexdump-mapped :
    (m m' : Mem) (argv : Argv)
    → ((a : ℕ) → a < identity_mapped_bytes → m' a ≡ m a)
    → (out : List Piece) × (hexdump m argv ≡ some out) × (hexdump m' argv ≡ some out)
unfolding hexdump
hexdump-mapped m m' argv same =
    let addr = sh_strtoul (arg argv 1) 16 in
    let len = sh_strtoul (arg argv 2) 10 in
    elim (Bool-cases (ltb (length argv) 3)) [
      | inl e ↦ rw e (_, refl, refl)
      | inr three ↦
          elim (Bool-cases
            (ltb identity_mapped_bytes addr || ltb (identity_mapped_bytes - addr) len)) [
              | inl e ↦ rw (three, e) (_, refl, refl)
              | inr mapped ↦ elim (Bool-cases (len == 0 || ltb 512 len)) [
                | inl e ↦ rw (three, mapped, e) (_, refl, refl)
                | inr fits ↦
                    let inside : addr + len ≤ identity_mapped_bytes = ground (arith, mapped) in
                    let short : len ≤ 512 = ground (arith, fits) in
                    let (out, p, p') =
                      dump_lines-same m m' addr len (λ a l. same a (omega (arith, inside, l))) 32 0
                        (omega (arith, short)) in
                    rw (three, mapped, fits, p, p') (_, refl, refl)
              ]
            ]
    ]
