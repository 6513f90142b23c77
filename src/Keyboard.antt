-- ===== src/Keyboard.antt =====
-- drivers/keyboard.c: the translation of scancodes and the circular input buffer.
pub mod Buffer
mod Tests
use stak_os.Base.{
  ℕ, ◌+◌, ◌%◌, Bool, true, false, not, ◌||◌, List, [], ◌∷◌, ◌==◌, if◌then◌else◌, ltb, bit_and,
  get_or, set, length,
}

abbrev pub keyboard_buf_size : ℕ
keyboard_buf_size = 256

-- `sc_ascii`
abbrev pub sc_ascii : List ℕ
sc_ascii =
    0 ∷ 0 ∷ 49 ∷ 50 ∷ 51 ∷ 52 ∷ 53 ∷ 54 ∷ 55 ∷ 56 ∷ 57 ∷ 48 ∷ 45 ∷ 61 ∷ 8 ∷ 9 ∷ 113 ∷ 119 ∷ 101
    ∷ 114 ∷ 116 ∷ 121 ∷ 117 ∷ 105 ∷ 111 ∷ 112 ∷ 91 ∷ 93 ∷ 10 ∷ 0 ∷ 97 ∷ 115 ∷ 100 ∷ 102 ∷ 103 ∷ 104
    ∷ 106 ∷ 107 ∷ 108 ∷ 59 ∷ 39 ∷ 96 ∷ 0 ∷ 92 ∷ 122 ∷ 120 ∷ 99 ∷ 118 ∷ 98 ∷ 110 ∷ 109 ∷ 44 ∷ 46 ∷ 47
    ∷ 0 ∷ 42 ∷ 0 ∷ 32 ∷ 0 ∷ 0 ∷ 0 ∷ 0 ∷ 0 ∷ 0 ∷ 0 ∷ 0 ∷ 0 ∷ 0 ∷ 0 ∷ 0 ∷ 0 ∷ 55 ∷ 56 ∷ 57 ∷ 45 ∷ 52
    ∷ 53 ∷ 54 ∷ 43 ∷ 49 ∷ 50 ∷ 51 ∷ 48 ∷ 46 ∷ 0 ∷ 0 ∷ 0 ∷ 0 ∷ []

-- `sc_ascii_shift`
abbrev pub sc_ascii_shift : List ℕ
sc_ascii_shift =
    0 ∷ 0 ∷ 33 ∷ 64 ∷ 35 ∷ 36 ∷ 37 ∷ 94 ∷ 38 ∷ 42 ∷ 40 ∷ 41 ∷ 95 ∷ 43 ∷ 8 ∷ 9 ∷ 81 ∷ 87 ∷ 69 ∷ 82
    ∷ 84 ∷ 89 ∷ 85 ∷ 73 ∷ 79 ∷ 80 ∷ 123 ∷ 125 ∷ 10 ∷ 0 ∷ 65 ∷ 83 ∷ 68 ∷ 70 ∷ 71 ∷ 72 ∷ 74 ∷ 75 ∷ 76
    ∷ 58 ∷ 34 ∷ 126 ∷ 0 ∷ 124 ∷ 90 ∷ 88 ∷ 67 ∷ 86 ∷ 66 ∷ 78 ∷ 77 ∷ 60 ∷ 62 ∷ 63 ∷ 0 ∷ 42 ∷ 0 ∷ 32
    ∷ 0 ∷ 0 ∷ 0 ∷ 0 ∷ 0 ∷ 0 ∷ 0 ∷ 0 ∷ 0 ∷ 0 ∷ 0 ∷ 0 ∷ 0 ∷ 55 ∷ 56 ∷ 57 ∷ 45 ∷ 52 ∷ 53 ∷ 54 ∷ 43 ∷ 49
    ∷ 50 ∷ 51 ∷ 48 ∷ 46 ∷ 0 ∷ 0 ∷ 0 ∷ 0 ∷ []

-- The statics of keyboard.c; `shift` is the C flag as a truth value.
pub record Keyboard : Type 0 where
  pub kb_buf : List ℕ
  pub kb_head : ℕ
  pub kb_tail : ℕ
  pub shift : Bool

pub kb_buf_push : Keyboard → ℕ → Keyboard
kb_buf_push k c =
    let next = (k.kb_head + 1) % keyboard_buf_size in
    if not (next == k.kb_tail)
    then record k { kb_buf = set k.kb_buf k.kb_head c; kb_head = next }
    else k

-- `keyboard_handler` on the byte that `inb` read, below 256.
pub keyboard_handler : Keyboard → (sc : ℕ) → Keyboard
keyboard_handler k sc =
    let released = bit_and sc 127 in
    let c = if k.shift then get_or sc_ascii_shift sc 0 else get_or sc_ascii sc 0 in
    if not (bit_and sc 128 == 0)
    then if released == 42 || released == 54 then record k { shift = false } else k
    else if sc == 42 || sc == 54
    then record k { shift = true }
    else if ltb sc (length sc_ascii)
    then if not (c == 0) then kb_buf_push k c else k
    else k

-- The character, 0 where the buffer is empty, and the new state.
pub keyboard_getchar : Keyboard → ℕ × Keyboard
keyboard_getchar k =
    if k.kb_head == k.kb_tail
    then (0, k)
    else (get_or k.kb_buf k.kb_tail 0, record k { kb_tail = (k.kb_tail + 1) % keyboard_buf_size })
