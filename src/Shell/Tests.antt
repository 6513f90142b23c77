-- ===== src/Shell/Tests.antt =====
-- Lines and numbers at the prompt.
use stak_os.Base.{◌≡◌, refl, List, [], ◌∷◌, arith}
use stak_os.Shell.{parse}
use stak_os.Shell.Words.{Spaced, line_of, parse-line_of}

-- "ls" behind a tab and "-a" behind a space
abbrev two_words : List Spaced
two_words =
    record { gap = 9 ∷ []; first = 108; rest = 115 ∷ [] }
    ∷ record { gap = 32 ∷ []; first = 45; rest = 97 ∷ [] }
    ∷ []

parse-line_of_example : parse (line_of two_words []) 16 ≡ (108 ∷ 115 ∷ []) ∷ (45 ∷ 97 ∷ []) ∷ []
parse-line_of_example =
    parse-line_of two_words [] 16 ((refl, tt), refl, (refl, tt), ((refl, tt), refl, (refl, tt), tt))
      (omega arith, tt) tt (omega arith)
