-- ===== src/Vga.antt =====
-- kernel/vga.c: the text screen. `vga_buf` is a function of the cell's index, so that a write
-- outside of the screen would show.
pub mod Screen
pub mod Digits
mod Tests
use stak_os.Base.{
  ℕ, zero, suc, ◌+◌, ◌-◌, ◌*◌, ◌/◌, ◌%◌, Bool, true, false, Option, none, some, List, [], ◌∷◌, ◌++◌,
  ◌==◌, if◌then◌else◌, ltb, bit_and, bit_or,
}
use stak_os.Base.Words.{u32_mod}

abbrev pub vga_cols : ℕ
vga_cols = 80

abbrev pub vga_rows : ℕ
vga_rows = 25

pub record Vga : Type 0 where
  pub vga_buf : ℕ → ℕ
  pub vga_row : ℕ
  pub vga_col : ℕ
  pub vga_color : ℕ

-- `vga_make_color`, in a byte.
pub vga_make_color : (fg bg : ℕ) → ℕ
vga_make_color fg bg = bit_or fg (bg * 16) % 256

-- `char` is signed, so that the conversion to 16 bits extends the sign of a byte from 128 on.
pub vga_make_entry : (c color : ℕ) → ℕ
vga_make_entry c color = bit_or (if ltb c 128 then c else 0xFF00 + c) (color * 256)

unfoldable pub set_cell : (ℕ → ℕ) → (i v : ℕ) → ℕ → ℕ
set_cell buf i v k = if k == i then v else buf k

-- The first `x` columns of the copy of row `y + 1` to row `y`.
pub scroll_cols : (x y : ℕ) → (ℕ → ℕ) → ℕ → ℕ
scroll_cols zero y buf = buf
scroll_cols (suc x) y buf =
    let b = scroll_cols x y buf in set_cell b (y * vga_cols + x) (b ((y + 1) * vga_cols + x))

-- The copy to the first `y` rows.
pub scroll_rows : (y : ℕ) → (ℕ → ℕ) → ℕ → ℕ
scroll_rows zero buf = buf
scroll_rows (suc y) buf = scroll_cols vga_cols y (scroll_rows y buf)

-- The first `x` columns of row `y` blank.
pub blank_cols : (x y entry : ℕ) → (ℕ → ℕ) → ℕ → ℕ
blank_cols zero y entry buf = buf
blank_cols (suc x) y entry buf = set_cell (blank_cols x y entry buf) (y * vga_cols + x) entry

pub blank_rows : (y entry : ℕ) → (ℕ → ℕ) → ℕ → ℕ
blank_rows zero entry buf = buf
blank_rows (suc y) entry buf = blank_cols vga_cols y entry (blank_rows y entry buf)

pub vga_scroll : Vga → Vga
vga_scroll v = record v {
  vga_buf =
      blank_cols vga_cols (vga_rows - 1) (vga_make_entry 32 v.vga_color)
        (scroll_rows (vga_rows - 1) v.vga_buf);
  vga_row = vga_rows - 1;
}

-- Light grey is 7 and black 0.
pub vga_init : Vga → Vga
vga_init v = record v {
  vga_color = vga_make_color 7 0;
  vga_buf = blank_rows vga_rows (vga_make_entry 32 (vga_make_color 7 0)) v.vga_buf;
  vga_row = 0;
  vga_col = 0;
}

pub vga_set_color : Vga → (fg : ℕ) → Vga
vga_set_color v fg = record v { vga_color = vga_make_color fg 0 }

-- `++vga_row == VGA_ROWS` and what follows.
pub next_row : Vga → Vga
next_row v =
    let v' = record v { vga_row = v.vga_row + 1 } in
    if v.vga_row + 1 == vga_rows then vga_scroll v' else v'

pub vga_putchar : Vga → (c : ℕ) → Vga
vga_putchar v c =
    let back =
      if ltb 0 v.vga_col
      then record v { vga_col = v.vga_col - 1 }
      else if ltb 0 v.vga_row
      then record v { vga_row = v.vga_row - 1; vga_col = vga_cols - 1 }
      else v in
    let shown =
      set_cell v.vga_buf (v.vga_row * vga_cols + v.vga_col) (vga_make_entry c v.vga_color) in
    if c == 8
    then record back {
      vga_buf =
          set_cell back.vga_buf (back.vga_row * vga_cols + back.vga_col)
            (vga_make_entry 32 back.vga_color);
    }
    else if c == 10
    then next_row (record v { vga_col = 0 })
    else if v.vga_col + 1 == vga_cols
    then next_row (record v { vga_buf = shown; vga_col = 0 })
    else record v { vga_buf = shown; vga_col = v.vga_col + 1 }

unfoldable pub kprint : Vga → List ℕ → Vga
kprint v [] = v
kprint v (c ∷ s) = kprint (vga_putchar v c) s

-- The characters that `kprint_hex` puts into `buf`, the last `n` of them before `acc`.
pub hex_digits : (n val : ℕ) → List ℕ → List ℕ
hex_digits zero val acc = acc
hex_digits (suc n) val acc =
    let nibble = bit_and val 15 in
    hex_digits n (val / 16) ((if ltb nibble 10 then 48 + nibble else 65 + nibble - 10) ∷ acc)

pub kprint_hex : Vga → (val : ℕ) → Vga
kprint_hex v val = kprint (kprint v (48 ∷ 120 ∷ [])) (hex_digits 8 val [])

-- The loop of `kprint_int` on a positive `val`, and the second loop that prints `buf` from its end:
-- the digits before `acc`.
pub int_digits : (fuel val : ℕ) → List ℕ → Option (List ℕ)
int_digits zero val acc = none
int_digits (suc fuel) val acc =
    let rest = int_digits fuel (val / 10) ((48 + val % 10) ∷ acc) in
    if val == 0 then some acc else rest

-- What `kprint_int` prints for the word `val`; a word from 2^31 on is negative, and the negation of
-- -2^31 is itself, on which the loop ends at once.
pub int_text : (val : ℕ) → Option (List ℕ)
int_text val =
    let negated = (u32_mod - val) % u32_mod in
    let below : Option (List ℕ) = elim (int_digits 11 negated []) [
      | none ↦ none
      | some s ↦ some (45 ∷ s)
    ] in
    if val == 0
    then some (48 ∷ [])
    else if ltb val 2147483648
    then int_digits 11 val []
    else if negated == 2147483648
    then some (45 ∷ [])
    else below

pub kprint_int : Vga → (val : ℕ) → Option Vga
kprint_int v val = elim (int_text val) [ none ↦ none | some s ↦ some (kprint v s) ]
