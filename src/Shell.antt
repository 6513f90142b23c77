-- ===== src/Shell.antt =====
-- shell/shell.c and shell/sh_util.c: numbers, the comparison of strings, the split of a line into
-- words, and the line editor. A string is the list of its bytes without the terminating NUL.
pub mod Numbers
pub mod Words
pub mod Editor
mod Tests
use stak_os.Base.{
  ℕ, zero, suc, ◌+◌, ◌-◌, ◌*◌, ◌/◌, Bool, true, false, not, ◌&&◌, ◌||◌, Option, none, some, List,
  [], ◌∷◌, ◌++◌, ◌==◌, if◌then◌else◌, ltb, leb, length, take,
}
use stak_os.Base.Words.{u32_mod, mul32}

abbrev pub max32 : ℕ
max32 = 4294967295

-- The value of a digit, `none` where `sh_strtoul` stops.
unfoldable pub digit_of : ℕ → Option ℕ
digit_of c =
    if leb 48 c && leb c 57
    then some (c - 48)
    else if leb 97 c && leb c 102
    then some (c - 97 + 10)
    else if leb 65 c && leb c 70
    then some (c - 65 + 10)
    else none

-- The loop of `sh_strtoul`.
pub strtoul_loop : (base result : ℕ) → List ℕ → ℕ
strtoul_loop base result [] = result
strtoul_loop base result (c ∷ s) = elim (digit_of c) [
  | none ↦ result
  | some digit ↦
      if ltb (max32 / base) result || ltb (max32 - digit) (mul32 result base)
      then strtoul_loop base max32 s
      else strtoul_loop base (result * base + digit) s
]

-- The optional `0x` prefix.
pub skip_prefix : (base : ℕ) → List ℕ → List ℕ
skip_prefix base [] = []
skip_prefix base (a ∷ []) = a ∷ []
skip_prefix base (a ∷ b ∷ s) =
    if base == 16 && (a == 48 && (b == 120 || b == 88)) then s else a ∷ b ∷ s

pub sh_strtoul : List ℕ → (base : ℕ) → ℕ
sh_strtoul s base = strtoul_loop base 0 (skip_prefix base s)

-- `sh_strcmp(a, b) == 0`
unfoldable pub sh_streq : List ℕ → List ℕ → Bool
sh_streq [] [] = true
sh_streq [] (b ∷ ys) = b == 0
sh_streq (a ∷ xs) [] = a == 0
sh_streq (a ∷ xs) (b ∷ ys) = if a == b then sh_streq xs ys else false

abbrev pub is_blank : ℕ → Bool
is_blank c = c == 32 || c == 9

pub skip_blanks : List ℕ → List ℕ
skip_blanks [] = []
skip_blanks (c ∷ p) = if is_blank c then skip_blanks p else c ∷ p

-- The word at `p`, up to the blank where `parse` writes the NUL.
pub word_at : List ℕ → List ℕ
word_at [] = []
word_at (c ∷ p) = if is_blank c then [] else c ∷ word_at p

-- What is behind the word and that blank.
pub after_word : List ℕ → List ℕ
after_word [] = []
after_word (c ∷ p) = if is_blank c then p else after_word p

-- `parse`: the words that `argv` points to.
pub parse : (line : List ℕ) → (max_args : ℕ) → List (List ℕ)
parse line zero = []
parse [] (suc max_args) = []
parse (c ∷ line) (suc max_args) = elim (skip_blanks (c ∷ line)) [
  | [] ↦ []
  | d ∷ p ↦ word_at (d ∷ p) ∷ parse (after_word (d ∷ p)) max_args
]

abbrev pub argv_max : ℕ
argv_max = 16

abbrev pub input_max : ℕ
input_max = 256

-- What a key makes `shell_run` do: nothing more than the text that it prints, or `dispatch` of a
-- line.
pub data KeyEvent : Type 0 where
  ignored : KeyEvent
  echo : ℕ → KeyEvent
  dispatched : List ℕ → KeyEvent

-- One round of the loop of `shell_run`, on the bytes before `buf_len`.
pub shell_key : (buf : List ℕ) → (c : ℕ) → List ℕ × KeyEvent
shell_key buf c =
    if c == 0
    then (buf, ignored)
    else if c == 8
    then if ltb 0 (length buf) then (take (length buf - 1) buf, echo 8) else (buf, ignored)
    else if c == 10
    then ([], dispatched buf)
    else if ltb (length buf) (input_max - 1)
    then (buf ++ (c ∷ []), echo c)
    else (buf, ignored)
