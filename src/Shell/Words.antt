-- ===== src/Shell/Words.antt =====
-- The words of a line in shell/shell.c: `parse` finds the words that a line was put together from.
use stak_os.Base.{
  ℕ, zero, suc, ◌≤◌, ◌≡◌, refl, ap, ap₂, sym, ◌<◌, ◌∙◌, Bool, true, false, List, [], ◌∷◌, ◌++◌,
  arith, length,
}
use stak_os.Shell.{is_blank, skip_blanks, word_at, after_word, parse}

-- All bytes of the list answer the test so.
abbrev pub AllBlank : Bool → List ℕ → Type 0
AllBlank b [] = Unit
AllBlank b (c ∷ s) = (is_blank c ≡ b) × AllBlank b s

-- A word with the blanks before it and its first byte apart.
pub record Spaced : Type 0 where
  pub gap : List ℕ
  pub first : ℕ
  pub rest : List ℕ

abbrev pub IsSpaced : List Spaced → Type 0
IsSpaced [] = Unit
IsSpaced (w ∷ ws) =
    AllBlank true w.gap × (is_blank w.first ≡ false) × AllBlank false w.rest × IsSpaced ws

abbrev pub words : List Spaced → List (List ℕ)
words [] = []
words (w ∷ ws) = (w.first ∷ w.rest) ∷ words ws

-- There are blanks before each of these words.
abbrev pub Separated : List Spaced → Type 0
Separated [] = Unit
Separated (w ∷ ws) = (0 < length w.gap) × Separated ws

-- The words from the second one on are separated from the one before.
abbrev pub IsLine : List Spaced → Type 0
IsLine [] = Unit
IsLine (w ∷ ws) = Separated ws

-- The line: each word behind its blanks, and `tail` behind the last word.
unfoldable pub line_of : List Spaced → (tail : List ℕ) → List ℕ
line_of [] tail = tail
line_of (w ∷ ws) tail = w.gap ++ (w.first ∷ (w.rest ++ line_of ws tail))

abbrev Stops : List ℕ → Type 0
Stops [] = Unit
Stops (c ∷ s) = is_blank c ≡ true

skip_blanks-gap :
    (gap : List ℕ) (c : ℕ) (s : List ℕ)
    → AllBlank true gap
    → is_blank c ≡ false
    → skip_blanks (gap ++ (c ∷ s)) ≡ c ∷ s
unfolding skip_blanks
skip_blanks-gap [] c s all stop = rw stop refl
skip_blanks-gap (g ∷ gap) c s (blank, all) stop = rw blank (skip_blanks-gap gap c s all stop)

word_at-Stops : (w s : List ℕ) → AllBlank false w → Stops s → word_at (w ++ s) ≡ w
unfolding word_at
word_at-Stops [] [] all stops = refl
word_at-Stops [] (b ∷ s) all stops = rw stops refl
word_at-Stops (c ∷ w) s (e, all) stops = rw e (ap (λ r. c ∷ r) (word_at-Stops w s all stops))

parse-end : (n : ℕ) → parse [] n ≡ []
unfolding parse
parse-end zero = refl
parse-end (suc n) = refl

-- A blank before the rest of a line is skipped.
parse-blank : (b : ℕ) (s : List ℕ) (n : ℕ) → is_blank b ≡ true → parse (b ∷ s) n ≡ parse s n
unfolding parse skip_blanks
parse-blank b [] zero e = refl
parse-blank b [] (suc n) e = rw (parse, e) refl
parse-blank b (c ∷ s) zero e = refl
parse-blank b (c ∷ s) (suc n) e = rw (parse, e) refl

parse-after_word :
    (w s : List ℕ) (n : ℕ) → AllBlank false w → Stops s → parse (after_word (w ++ s)) n ≡ parse s n
unfolding after_word
parse-after_word [] [] n all stops = refl
parse-after_word [] (b ∷ s) n all stops = rw stops (sym (parse-blank b s n stops))
parse-after_word (c ∷ w) s n (e, all) stops = rw e (parse-after_word w s n all stops)

parse-blanks : (tail : List ℕ) (n : ℕ) → AllBlank true tail → parse tail n ≡ []
parse-blanks [] n all = parse-end n
parse-blanks (b ∷ tail) n (e, all) = parse-blank b tail n e ∙ parse-blanks tail n all

-- A line that starts with a word.
parse-word :
    (gap : List ℕ) (c : ℕ) (w s : List ℕ) (n : ℕ)
    → AllBlank true gap
    → is_blank c ≡ false
    → AllBlank false w
    → Stops s
    → parse (gap ++ (c ∷ (w ++ s))) (suc n) ≡ (c ∷ w) ∷ parse s n
unfolding parse
parse-word [] c w s n blanks stop all stops =
    rw (parse, skip_blanks-gap [] c (w ++ s) blanks stop)
      (ap₂ (λ a r. a ∷ r) (word_at-Stops (c ∷ w) s (stop, all) stops)
        (parse-after_word (c ∷ w) s n (stop, all) stops))
parse-word (g ∷ gap) c w s n (blank, blanks) stop all stops =
    parse-blank g (gap ++ (c ∷ (w ++ s))) (suc n) blank
    ∙ parse-word gap c w s n blanks stop all stops

line_of-Stops :
    (ws : List Spaced) (tail : List ℕ)
    → IsSpaced ws
    → Separated ws
    → AllBlank true tail
    → Stops (line_of ws tail)
unfolding line_of
line_of-Stops [] [] all sep blank = tt
line_of-Stops [] (b ∷ tail) all sep (blank, _) = blank
line_of-Stops (w ∷ ws) tail (gap, _, _, _) (some_gap, _) blank = go w.gap gap some_gap
  where
    go :
        (g : List ℕ)
        → AllBlank true g
        → 0 < length g
        → Stops (g ++ (w.first ∷ (w.rest ++ line_of ws tail)))
    go [] all l = absurd (omega arith)
    go (b ∷ g) (e, _) l = e

IsLine-tail : (w : Spaced) (ws : List Spaced) → Separated ws → IsLine ws
IsLine-tail w [] sep = tt
IsLine-tail w (v ∷ ws) (_, sep) = sep

-- `parse` on a line of at most `max_args` words, with any number of blanks before the first and behind
-- the last one, and one blank at least between two, returns these words in their order. The line may
-- end with its last word.
pub parse-line_of :
    (ws : List Spaced) (tail : List ℕ) (max_args : ℕ)
    → IsSpaced ws
    → IsLine ws
    → AllBlank true tail
    → length ws ≤ max_args
    → parse (line_of ws tail) max_args ≡ words ws
unfolding line_of
parse-line_of [] tail n all sep blank l = parse-blanks tail n blank
parse-line_of (w ∷ ws) tail zero all sep blank l = absurd (omega arith)
parse-line_of (w ∷ ws) tail (suc n) (gap, stop, word, all) sep blank l =
    parse-word w.gap w.first w.rest (line_of ws tail) n gap stop word
      (line_of-Stops ws tail all sep blank)
    ∙ ap (λ r. (w.first ∷ w.rest) ∷ r)
        (parse-line_of ws tail n all (IsLine-tail w ws sep) blank (omega arith))
