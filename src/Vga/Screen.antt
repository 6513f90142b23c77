-- ===== src/Vga/Screen.antt =====
-- The screen of kernel/vga.c: the cursor stays on it, writes stay in the buffer, and scrolling
-- moves every line up.
use stak_os.Base.{
  ℕ, zero, suc, ◌+◌, ◌-◌, ◌*◌, ◌≤◌, ◌<◌, ◌≡◌, inl, inr, refl, ◌∙◌, List, [], ◌∷◌, arith, ltb, ◌&&◌,
  leb, if◌then◌else◌, ◌==◌, ne→==, Bool-cases, ==→ne,
}
use stak_os.Vga.{
  Vga, set_cell, scroll_cols, scroll_rows, blank_cols, vga_scroll, next_row, vga_putchar, kprint,
  vga_make_entry,
}

scroll_cols_lem :
    (x y k : ℕ) (buf : ℕ → ℕ)
    → x ≤ 80
    → scroll_cols x y buf k ≡ (if leb (y * 80) k && ltb k (y * 80 + x) then buf (k + 80) else buf k)
unfolding scroll_cols set_cell
scroll_cols_lem zero y k buf l = ground arith
scroll_cols_lem (suc x) y k buf l = ground (
  arith,
  scroll_cols_lem x y k buf (omega arith),
  scroll_cols_lem x y ((y + 1) * 80 + x) buf (omega arith),
)

scroll_rows_lem :
    (y k : ℕ) (buf : ℕ → ℕ) → scroll_rows y buf k ≡ (if ltb k (y * 80) then buf (k + 80) else buf k)
unfolding scroll_rows
scroll_rows_lem zero k buf = ground arith
scroll_rows_lem (suc y) k buf = ground (
  arith,
  scroll_cols_lem 80 y k (scroll_rows y buf) (omega arith),
  scroll_rows_lem y k buf,
  scroll_rows_lem y (k + 80) buf,
)

blank_cols_lem :
    (x y e k : ℕ) (buf : ℕ → ℕ)
    → blank_cols x y e buf k ≡ (if leb (y * 80) k && ltb k (y * 80 + x) then e else buf k)
unfolding blank_cols set_cell
blank_cols_lem zero y e k buf = ground arith
blank_cols_lem (suc x) y e k buf = ground (arith, blank_cols_lem x y e k buf)

-- After `vga_scroll` each of the 24 upper lines shows the line that was below it, the last line is
-- blank in the current colour, no cell behind the screen differs, and the cursor is in the last line.
pub vga_scroll_lem :
    (v : Vga)
    → ((k : ℕ) → k < 1920 → (vga_scroll v).vga_buf k ≡ v.vga_buf (k + 80))
      × ((k : ℕ) → 1920 ≤ k → k < 2000 → (vga_scroll v).vga_buf k ≡ vga_make_entry 32 v.vga_color)
      × ((k : ℕ) → 2000 ≤ k → (vga_scroll v).vga_buf k ≡ v.vga_buf k)
      × ((vga_scroll v).vga_row ≡ 24)
unfolding vga_scroll
vga_scroll_lem v =
    let e : ℕ = vga_make_entry 32 v.vga_color in
    let b : ℕ → ℕ = scroll_rows 24 v.vga_buf in
    (
      λ k l. ground (arith, l, blank_cols_lem 80 24 e k b, scroll_rows_lem 24 k v.vga_buf),
      λ k l h. ground (arith, l, h, blank_cols_lem 80 24 e k b),
      λ k l. ground (arith, l, blank_cols_lem 80 24 e k b, scroll_rows_lem 24 k v.vga_buf),
      refl,
    )

-- The cursor is on the screen.
pub record OnScreen (v : Vga) : Type 0 where
  pub row : v.vga_row < 25
  pub col : v.vga_col < 80

-- `v'` has its cursor on the screen and every cell behind the screen as `v` has it.
pub record Kept (v v' : Vga) : Type 0 where
  pub on : OnScreen v'
  pub behind : (k : ℕ) → 2000 ≤ k → v'.vga_buf k ≡ v.vga_buf k

set_cell-on : (buf : ℕ → ℕ) (i c k : ℕ) → i < 2000 → 2000 ≤ k → set_cell buf i c k ≡ buf k
unfolding set_cell
set_cell-on buf i c k l h = rw (ne→== k i (λ e. ground (arith, e, l, h))) refl

next_row-Kept : (v : Vga) → OnScreen v → Kept v (next_row v)
unfolding next_row vga_scroll
next_row-Kept v o =
    let (up, blank, behind, row) = vga_scroll_lem (record v { vga_row = v.vga_row + 1 }) in
    elim (Bool-cases (v.vga_row + 1 == 25)) [
      | inl e ↦ rw e (record { on = record { row = omega arith; col = o.col }; behind = behind })
      | inr e ↦ rw e (record {
        on = record { row = omega (arith, o.row, ==→ne (v.vga_row + 1) 25 e); col = o.col };
        behind = λ k l. refl;
      })
    ]

back-Kept :
    (v : Vga)
    → OnScreen v
    → let back : Vga =
        if ltb 0 v.vga_col
        then record v { vga_col = v.vga_col - 1 }
        else if ltb 0 v.vga_row
        then record v { vga_row = v.vga_row - 1; vga_col = 79 }
        else v in
      Kept v (record back {
        vga_buf =
            set_cell back.vga_buf
              (back.vga_row * 80 + back.vga_col)
              (vga_make_entry 32 back.vga_color);
      })
back-Kept v o = elim (Bool-cases (ltb 0 v.vga_col)) [
  | inl e ↦ rw e (record {
    on = record { row = o.row; col = omega (arith, o.col) };
    behind = λ k l.
        set_cell-on v.vga_buf (v.vga_row * 80 + (v.vga_col - 1)) (vga_make_entry 32 v.vga_color) k
          (omega (arith, o.row, o.col)) l;
  })
  | inr e ↦ elim (Bool-cases (ltb 0 v.vga_row)) [
    | inl r ↦
        rw (e, r)
          (record {
            on = record { row = omega (arith, o.row); col = omega arith };
            behind = λ k l.
                set_cell-on v.vga_buf ((v.vga_row - 1) * 80 + 79) (vga_make_entry 32 v.vga_color) k
                  (omega (arith, o.row)) l;
          })
    | inr r ↦
        rw (e, r)
          (record {
            on = record { row = o.row; col = o.col };
            behind = λ k l.
                set_cell-on v.vga_buf (v.vga_row * 80 + v.vga_col) (vga_make_entry 32 v.vga_color) k
                  (omega (arith, o.row, o.col)) l;
          })
  ]
]

-- Whatever the character, `vga_putchar` keeps a cursor that is on the screen there, and writes to no
-- cell behind the screen.
pub vga_putchar-Kept : (v : Vga) (c : ℕ) → OnScreen v → Kept v (vga_putchar v c)
unfolding vga_putchar
vga_putchar-Kept v c o =
    let at_cursor : v.vga_row * 80 + v.vga_col < 2000 = omega (arith, o.row, o.col) in
    let shown : ℕ → ℕ =
      set_cell v.vga_buf (v.vga_row * 80 + v.vga_col) (vga_make_entry c v.vga_color) in
    let stays : (k : ℕ) → 2000 ≤ k → shown k ≡ v.vga_buf k =
      λ k l. set_cell-on v.vga_buf _ _ k at_cursor l in
    elim (Bool-cases (c == 8)) [
      | inl e ↦ rw e (back-Kept v o)
      | inr e ↦ elim (Bool-cases (c == 10)) [
        | inl n ↦
            let rest =
              next_row-Kept (record v { vga_col = 0 })
                (record { row = o.row; col = omega arith }) in
            rw (e, n) (record { on = rest.on; behind = rest.behind })
        | inr n ↦ elim (Bool-cases (v.vga_col + 1 == 80)) [
          | inl w ↦
              let rest =
                next_row-Kept (record v { vga_buf = shown; vga_col = 0 })
                  (record { row = o.row; col = omega arith }) in
              rw (e, n, w) (record { on = rest.on; behind = λ k l. rest.behind k l ∙ stays k l })
          | inr w ↦
              rw (e, n, w)
                (record {
                  on = record {
                    row = o.row;
                    col = omega (arith, o.col, ==→ne (v.vga_col + 1) 80 w);
                  };
                  behind = stays;
                })
        ]
      ]
    ]

-- `kprint` of any text keeps a cursor that is on the screen there, and writes to no cell behind it.
pub kprint-Kept : (v : Vga) (s : List ℕ) → OnScreen v → Kept v (kprint v s)
unfolding kprint
kprint-Kept v [] o = record { on = o; behind = λ k l. refl }
kprint-Kept v (c ∷ s) o =
    let one = vga_putchar-Kept v c o in
    let rest = kprint-Kept (vga_putchar v c) s one.on in
    record { on = rest.on; behind = λ k l. rest.behind k l ∙ one.behind k l }
