-- ===== src/Keyboard/Tests.antt =====
-- The keyboard buffer with two characters across its end.
use stak_os.Base.{
  ℕ, zero, suc, ◌+◌, ◌%◌, ◌<◌, get_or-replicate, ◌≡◌, refl, false, [], ◌∷◌, arith, replicate, set,
}
use stak_os.Keyboard.{Keyboard, kb_buf_push, keyboard_getchar}
use stak_os.Keyboard.Buffer.{Pending, Holds, push-Pending, getchar-Pending}

abbrev wrapped : Keyboard
wrapped = record {
  kb_buf = set (set (replicate 256 0) 255 104) 0 105;
  kb_head = 1;
  kb_tail = 255;
  shift = false;
}

wrapped-Pending : Pending wrapped (104 ∷ 105 ∷ [])
wrapped-Pending = record {
  cells = refl;
  head_small = omega arith;
  tail_small = omega arith;
  count = refl;
  room = omega arith;
  holds = (refl, (refl, tt));
}

push-Pending_example : Pending (kb_buf_push wrapped 106) (104 ∷ 105 ∷ 106 ∷ [])
push-Pending_example = push-Pending wrapped 106 (104 ∷ 105 ∷ []) wrapped-Pending (omega arith)

getchar-Pending_example :
    ((keyboard_getchar wrapped).0 ≡ 104) × Pending (keyboard_getchar wrapped).1 (105 ∷ [])
getchar-Pending_example = getchar-Pending wrapped 104 (105 ∷ []) wrapped-Pending

-- 255 zero characters
abbrev packed : Keyboard
packed = record { kb_buf = replicate 256 0; kb_head = 255; kb_tail = 0; shift = false }

zeros-Holds : (n t : ℕ) → t < 256 → Holds (replicate 256 0) t (replicate n 0)
zeros-Holds zero t l = tt
zeros-Holds (suc n) t l =
    (get_or-replicate 256 t 0 0 l, zeros-Holds n ((t + 1) % 256) (omega arith))

packed-Pending : Pending packed (replicate 255 0)
packed-Pending = record {
  cells = refl;
  head_small = omega arith;
  tail_small = omega arith;
  count = refl;
  room = omega arith;
  holds = zeros-Holds 255 0 (omega arith);
}
