-- ===== src/Elf/Pages.antt =====
-- What a page of a segment holds once `elf32_load` has filled it.
use stak_os.Base.{
  ℕ, zero, suc, ◌+◌, ◌-◌, ◌≤◌, ◌<◌, ◌≡◌, ◌⊎◌, inl, inr, ap, ◌∙◌, true, ◌&&◌, ◌==◌, ltb, leb,
  if◌then◌else◌, arith, Bool-cases, ==→eq,
}
use stak_os.Base.Words.{u32_mod, add32, sub32}
use stak_os.Memory.{Mem, load8, store8}
use stak_os.Pmm.{page_size}
use stak_os.Elf.{Phdr, copy_start, copy_end, zero_bytes, copy_bytes, fill_page}

zero_bytes_lem :
    (n : ℕ) (m : Mem) (dst x : ℕ)
    → zero_bytes n m dst x ≡ (if leb dst x && ltb x (dst + n) then 0 else m x)
unfolding zero_bytes store8
zero_bytes_lem zero m dst x = ground arith
zero_bytes_lem (suc n) m dst x = ground (arith, zero_bytes_lem n m dst x)

copy_bytes_lem :
    (n : ℕ) (m : Mem) (dst src x : ℕ)
    → (src + n ≤ dst) ⊎ (dst + n ≤ src)
    → copy_bytes n m dst src x
      ≡ (if leb dst x && ltb x (dst + n) then load8 m (src + (x - dst)) else m x)
unfolding copy_bytes store8
copy_bytes_lem zero m dst src x apart = ground arith
copy_bytes_lem (suc n) m dst src x apart =
    let still : copy_bytes n m dst src (src + n) ≡ m (src + n) =
      copy_bytes_lem n m dst src (src + n) (ground arith) ∙ ground arith in
    let last : src + (dst + n - dst) ≡ src + n = omega arith in
    elim (Bool-cases (x == dst + n)) [
      | inl e ↦ rw (==→eq x (dst + n) e) (ground (arith, still, ap (λ (y : ℕ). m y) last))
      | inr e ↦ ground (arith, copy_bytes_lem n m dst src x (ground arith))
    ]

-- A segment, its image at `d` and a page of it, without a wrap-around and apart from the frame.
pub record IsPage (d : ℕ) (ph : Phdr) (va frame : ℕ) : Type 0 where
  pub page_word : va + page_size < u32_mod
  pub segment_word : ph.vaddr + ph.filesz < u32_mod
  pub image_word : d + ph.p_offset + ph.filesz < u32_mod
  pub apart : (d + ph.p_offset + ph.filesz ≤ frame) ⊎ (frame + page_size ≤ d + ph.p_offset)

-- The byte that the segment gives the virtual address `v`.
abbrev pub segment_byte : Mem → (d : ℕ) → Phdr → (v : ℕ) → ℕ
segment_byte m d ph v =
    if leb ph.vaddr v && ltb v (ph.vaddr + ph.filesz)
    then load8 m (d + ph.p_offset + (v - ph.vaddr))
    else 0

-- The bytes from `start` to `stop` of the page come from the file.
record IsSpan (ph : Phdr) (va start stop : ℕ) : Type 0 where
  at_start : (start ≡ va) ⊎ (start ≡ ph.vaddr)
  va_le : va ≤ start
  seg_le : ph.vaddr ≤ start
  at_stop : (stop ≡ va + page_size) ⊎ (stop ≡ ph.vaddr + ph.filesz)
  le_va : stop ≤ va + page_size
  le_seg : stop ≤ ph.vaddr + ph.filesz
  some_byte : start < stop

copied-IsSpan :
    (d : ℕ) (ph : Phdr) (va frame : ℕ)
    → IsPage d ph va frame
    → ltb (copy_start ph va) (copy_end ph va) ≡ true
    → IsSpan ph va (copy_start ph va) (copy_end ph va)
copied-IsSpan d ph va frame v e = record {
  at_start = ground arith;
  va_le = ground arith;
  seg_le = ground arith;
  at_stop = ground (arith, v.page_word, v.segment_word);
  le_va = ground (arith, v.page_word, v.segment_word);
  le_seg = ground (arith, v.page_word, v.segment_word);
  some_byte = ground arith;
}

module _ (m : Mem) (d : ℕ) (ph : Phdr) (va frame : ℕ) (v : IsPage d ph va frame) where
  module _ (start stop : ℕ) (s : IsSpan ph va start stop) where
    source : ℕ
    source = d + ph.p_offset + (start - ph.vaddr)

    source_lem : add32 d (add32 ph.p_offset (sub32 start ph.vaddr)) ≡ source
    unfolding source
    source_lem = omega (arith, s.seg_le, s.le_seg, s.some_byte, v.segment_word, v.image_word)

    filled : Mem
    filled = copy_bytes (stop - start) (zero_bytes page_size m frame) (frame + (start - va)) source

    apart_source :
        (source + (stop - start) ≤ frame + (start - va))
        ⊎ (frame + (start - va) + (stop - start) ≤ source)
    unfolding source
    apart_source = ground (arith, v.apart, s.va_le, s.seg_le, s.le_va, s.le_seg, s.some_byte)

    filled-inside : (o : ℕ) → o < page_size → filled (frame + o) ≡ segment_byte m d ph (va + o)
    unfolding filled source
    filled-inside o l =
        let from = source + (frame + o - (frame + (start - va))) in
        copy_bytes_lem (stop - start) (zero_bytes page_size m frame) (frame + (start - va)) source
          (frame + o) apart_source
        ∙ elim (Bool-cases (
            leb (frame + (start - va)) (frame + o)
            && ltb (frame + o) (frame + (start - va) + (stop - start)))) [
              | inl e ↦
                  let there : from ≡ d + ph.p_offset + (va + o - ph.vaddr) = ground arith in
                  rw (e, there)
                    (ground (
                      arith,
                      v.apart,
                      zero_bytes_lem page_size m frame (d + ph.p_offset + (va + o - ph.vaddr)),
                    ))
              | inr e ↦ rw e (zero_bytes_lem page_size m frame (frame + o) ∙ ground arith)
            ]

    filled-outside : (x : ℕ) → (x < frame) ⊎ (frame + page_size ≤ x) → filled x ≡ m x
    unfolding filled source
    filled-outside x out =
        copy_bytes_lem (stop - start) (zero_bytes page_size m frame) (frame + (start - va)) source x
          apart_source
        ∙ ground (arith, zero_bytes_lem page_size m frame x)

  -- When no address wraps around and the image lies apart from the frame, `fill_page` leaves at each
  -- offset of the frame the byte of the file for that virtual address, 0 outside the bytes of the
  -- file, and changes no byte outside the frame.
  pub fill_page_lem :
      ((o : ℕ)
        → o < page_size
        → fill_page m d ph va frame (frame + o) ≡ segment_byte m d ph (va + o))
      × ((x : ℕ) → (x < frame) ⊎ (frame + page_size ≤ x) → fill_page m d ph va frame x ≡ m x)
  unfolding fill_page filled
  fill_page_lem = elim (Bool-cases (ltb (copy_start ph va) (copy_end ph va))) [
    | inl e ↦
        let start = copy_start ph va in
        let stop = copy_end ph va in
        let s : IsSpan ph va start stop = copied-IsSpan d ph va frame v e in
        rw (e, source_lem start stop s) (filled-inside start stop s, filled-outside start stop s)
    | inr e ↦ rw e (
      λ o l.
          zero_bytes_lem page_size m frame (frame + o)
          ∙ ground (arith, v.page_word, v.segment_word),
      λ x out. zero_bytes_lem page_size m frame x ∙ ground arith,
    )
  ]
