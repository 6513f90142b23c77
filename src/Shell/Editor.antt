-- ===== src/Shell/Editor.antt =====
-- The line editor of shell/shell.c.
use stak_os.Base.{
  ℕ, zero, suc, ◌+◌, ◌≤◌, ◌≡◌, ◌≢◌, refl, List, [], ◌∷◌, ◌++◌, map, arith, length, take, ◌-◌,
  length-append, lt→ltb, ne→==,
}
use mathlib.Core.List.{append_assoc, append-nil}
use stak_os.Shell.{KeyEvent, echo, dispatched, shell_key}

length-take_le : (n : ℕ) (xs : List ℕ) → length (take n xs) ≤ length xs
length-take_le zero xs = omega arith
length-take_le (suc n) [] = omega arith
length-take_le (suc n) (x ∷ xs) = omega (arith, length-take_le n xs)

-- A line of at most 255 bytes, which leaves room for the NUL, stays so whichever key is read.
pub shell_key-room : (buf : List ℕ) (c : ℕ) → length buf ≤ 255 → length (shell_key buf c).0 ≤ 255
unfolding shell_key
shell_key-room buf c l =
    ground (arith, l, length-append buf (c ∷ []), length-take_le (length buf - 1) buf)

-- The loop on a sequence of keys.
unfoldable pub shell_keys : List ℕ → List ℕ → List ℕ × List KeyEvent
shell_keys buf [] = (buf, [])
shell_keys buf (c ∷ cs) =
    let (buf', e) = shell_key buf c in let (last, es) = shell_keys buf' cs in (last, e ∷ es)

-- Neither NUL nor backspace nor newline.
abbrev pub Plain : List ℕ → Type 0
Plain [] = Unit
Plain (c ∷ cs) = (c ≢ 0) × (c ≢ 8) × (c ≢ 10) × Plain cs

typed_from :
    (buf cs : List ℕ)
    → Plain cs
    → length buf + length cs ≤ 255
    → shell_keys buf (cs ++ (10 ∷ [])) ≡ ([], map echo cs ++ (dispatched (buf ++ cs) ∷ []))
unfolding shell_keys shell_key
typed_from buf [] all l = rw append-nil refl
typed_from buf (c ∷ cs) (nul, back, newline, all) l =
    rw
      (
        ne→== c 0 nul,
        ne→== c 8 back,
        ne→== c 10 newline,
        lt→ltb (length buf) 255 (omega arith),
        typed_from (buf ++ (c ∷ [])) cs all (omega (arith, length-append buf (c ∷ []))),
        append_assoc buf (c ∷ []) cs,
      )
      refl

-- At most 255 plain characters and a newline, typed on an empty line, are echoed and dispatched as
-- the line, and leave it empty.
pub shell_keys-line :
    (cs : List ℕ)
    → Plain cs
    → length cs ≤ 255
    → shell_keys [] (cs ++ (10 ∷ [])) ≡ ([], map echo cs ++ (dispatched cs ∷ []))
shell_keys-line cs all l = typed_from [] cs all (omega (arith, l))
