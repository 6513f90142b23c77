-- ===== src/Keyboard/Buffer.antt =====
-- The circular buffer of drivers/keyboard.c is a first-in first-out queue of at most 255 characters.
use stak_os.Base.{
  ℕ, ◌+◌, ◌%◌, ◌<◌, ◌≡◌, refl, ap, ◌∙◌, List, [], ◌∷◌, ◌++◌, arith, length, get_or, set,
  length-append, length-set, get_or-set_self, get_or-set_ne, eq→==, ne→==,
}
use stak_os.Keyboard.{Keyboard, kb_buf_push, keyboard_getchar}

-- The cells from `t` on hold `cs`.
abbrev pub Holds : List ℕ → ℕ → List ℕ → Type 0
Holds buf t [] = Unit
Holds buf t (c ∷ cs) = (get_or buf t 0 ≡ c) × Holds buf ((t + 1) % 256) cs

-- The buffer of `k` holds `cs`, the oldest character first.
pub record Pending (k : Keyboard) (cs : List ℕ) : Type 0 where
  pub cells : length k.kb_buf ≡ 256
  pub head_small : k.kb_head < 256
  pub tail_small : k.kb_tail < 256
  pub count : (k.kb_tail + length cs) % 256 ≡ k.kb_head
  pub room : length cs < 256
  pub holds : Holds k.kb_buf k.kb_tail cs

Holds-set :
    (buf : List ℕ) (t h c : ℕ) (cs : List ℕ)
    → t < 256
    → (t + length cs) % 256 ≡ h
    → length cs < 256
    → Holds buf t cs
    → Holds (set buf h c) t cs
Holds-set buf t h c [] small e room holds = tt
Holds-set buf t h c (x ∷ cs) small e room (this, rest) = (
  get_or-set_ne buf h t c 0 (λ k. ground (arith, k, e, room, small)) ∙ this,
  Holds-set buf ((t + 1) % 256) h c cs (omega arith) (omega (arith, e)) (omega (arith, room)) rest,
)

Holds-snoc :
    (buf : List ℕ) (t h c : ℕ) (cs : List ℕ)
    → t < 256
    → (t + length cs) % 256 ≡ h
    → get_or buf h 0 ≡ c
    → Holds buf t cs
    → Holds buf t (cs ++ (c ∷ []))
Holds-snoc buf t h c [] small e this holds =
    let here : t ≡ h = omega (arith, e) in (ap (λ i. get_or buf i 0) here ∙ this, tt)
Holds-snoc buf t h c (x ∷ cs) small e last (this, rest) =
    (this, Holds-snoc buf ((t + 1) % 256) h c cs (omega arith) (omega (arith, e)) last rest)

-- A push into a buffer with fewer than 255 characters adds the new one behind them.
pub push-Pending :
    (k : Keyboard) (c : ℕ) (cs : List ℕ)
    → Pending k cs
    → length cs < 255
    → Pending (kb_buf_push k c) (cs ++ (c ∷ []))
unfolding kb_buf_push
push-Pending k c cs v l =
    rw (ne→== ((k.kb_head + 1) % 256) k.kb_tail (λ e. ground (arith, e, v.count, l, v.tail_small)))
      (record {
        cells = length-set k.kb_buf k.kb_head c ∙ v.cells;
        head_small = omega arith;
        tail_small = v.tail_small;
        count = omega (arith, v.count, length-append cs (c ∷ []));
        room = omega (arith, l, length-append cs (c ∷ []));
        holds =
            Holds-snoc (set k.kb_buf k.kb_head c) k.kb_tail k.kb_head c cs v.tail_small v.count
              (get_or-set_self k.kb_buf k.kb_head c 0 (omega (arith, v.cells, v.head_small)))
              (Holds-set k.kb_buf k.kb_tail k.kb_head c cs v.tail_small v.count v.room v.holds);
      })

-- A push into a buffer with 255 characters changes nothing.
pub push-full :
    (k : Keyboard) (c : ℕ) (cs : List ℕ) → Pending k cs → length cs ≡ 255 → kb_buf_push k c ≡ k
unfolding kb_buf_push
push-full k c cs v l =
    rw (eq→== ((k.kb_head + 1) % 256) k.kb_tail (ground (arith, v.count, l, v.tail_small))) refl

-- From a buffer that is not empty `keyboard_getchar` takes the oldest character and leaves the others
-- in their order.
pub getchar-Pending :
    (k : Keyboard) (c : ℕ) (cs : List ℕ)
    → Pending k (c ∷ cs)
    → ((keyboard_getchar k).0 ≡ c) × Pending (keyboard_getchar k).1 cs
unfolding keyboard_getchar
getchar-Pending k c cs v =
    rw (ne→== k.kb_head k.kb_tail (λ e. ground (arith, e, v.count, v.room, v.tail_small))) (
      v.holds.0,
      record {
        cells = v.cells;
        head_small = v.head_small;
        tail_small = omega arith;
        count = omega (arith, v.count);
        room = omega (arith, v.room);
        holds = v.holds.1;
      },
    )

-- On an empty buffer it returns 0 and changes nothing.
pub getchar-empty : (k : Keyboard) → Pending k [] → keyboard_getchar k ≡ (0, k)
unfolding keyboard_getchar
getchar-empty k v = rw (eq→== k.kb_head k.kb_tail (ground (arith, v.count, v.tail_small))) refl
