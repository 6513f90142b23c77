-- ===== src/Command/Dispatch/Lines.antt =====
-- A typed line calls the command of its first word.
use stak_os.Base.{ℕ, zero, suc, ◌≤◌, ◌≡◌, refl, true, some, List, [], ◌∷◌, length, get_elem?}
use mathlib.Core.Option.{some-injective, none-ne-some}
use stak_os.Shell.{argv_max, sh_streq}
use stak_os.Shell.Words.{Spaced, IsSpaced, IsLine, AllBlank, line_of, words, parse-line_of}
use stak_os.Kernel.{Kernel}
use stak_os.Command.World.{World, Argv}
use stak_os.Command.Core.{Entry, commands}
use stak_os.Command.Dispatch.{call, command_of, dispatch}

-- What holds of every entry of a list.
abbrev EveryEntry : (Entry → Type 0) → List Entry → Type 0
EveryEntry P [] = Unit
EveryEntry P (c ∷ cs) = P c × EveryEntry P cs

entry_at :
    (P : Entry → Type 0) (cs : List Entry) (i : ℕ) (c : Entry)
    → EveryEntry P cs
    → get_elem? cs i ≡ some c
    → P c
entry_at P [] i c all e = absurd (none-ne-some c e)
entry_at P (d ∷ cs) zero c (p, all) e = rw (some-injective d c e) at p
entry_at P (d ∷ cs) (suc i) c (p, all) e = entry_at P cs i c all e

-- No command hides another one behind its name.
every_found : EveryEntry (λ c. command_of commands c.name ≡ some c.fn) commands
unfolding command_of sh_streq
every_found = (
  refl,
  (
    refl,
    (
      refl,
      (
        refl,
        (
          refl,
          (
            refl,
            (
              refl,
              (
                refl,
                (refl, (refl, (refl, (refl, (refl, (refl, (refl, (refl, (refl, (refl, tt)))))))))),
              ),
            ),
          ),
        ),
      ),
    ),
  ),
)

-- A line of at most 16 words, with blanks between them and any number before the first and behind the
-- last one, of which the first is the name of entry `i` of the table, calls the function of that entry
-- with all the words.
pub dispatch-line :
    (w : World) (k : Kernel) (i : ℕ) (c : Entry) (args : Argv) (ws : List Spaced) (tail : List ℕ)
    → get_elem? commands i ≡ some c
    → IsSpaced ws
    → IsLine ws
    → AllBlank true tail
    → length ws ≤ argv_max
    → words ws ≡ c.name ∷ args
    → dispatch w k (line_of ws tail) ≡ call c.fn w k (c.name ∷ args)
unfolding dispatch
dispatch-line w k i c args ws tail e all sep blank l split =
    let found : command_of commands c.name ≡ some c.fn =
      entry_at (λ d. command_of commands d.name ≡ some d.fn) commands i c every_found e in
    rw (dispatch, parse-line_of ws tail argv_max all sep blank l, split, found) refl
