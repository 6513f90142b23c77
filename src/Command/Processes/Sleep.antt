-- ===== src/Command/Processes/Sleep.antt =====
-- The loop of cmd_sleep.
use stak_os.Base.{ℕ, zero, suc, ◌≤◌, ◌<◌, ◌≡◌, refl, arith, lt→ltb, le→ltb}
use stak_os.Base.Run.{done}
use stak_os.Base.Words.{u32_mod, add32, sub32}
use stak_os.Kernel.{Kernel}
use stak_os.Command.Processes.{sleep_loop}

unfoldable pub iterate : ℕ → (Kernel → Kernel) → Kernel → Kernel
iterate zero resume k = k
iterate (suc n) resume k = iterate n resume (resume k)

module _ (resume : Kernel → Kernel) (ticks start : ℕ) where
  sleep_from :
      (n fuel : ℕ) (k : Kernel) (gain : ℕ → ℕ)
      → start < u32_mod
      → ((i : ℕ) → i ≤ n → (iterate i resume k).tick_count ≡ add32 start (gain i))
      → ((i : ℕ) → i < n → gain i < ticks)
      → ticks ≤ gain n
      → gain n < u32_mod
      → n < fuel
      → sleep_loop fuel resume k start ticks ≡ done (iterate n resume k)
  unfolding sleep_loop iterate
  sleep_from n zero k gain small now early late word l = absurd (omega arith)
  sleep_from zero (suc fuel) k gain small now early late word l =
      rw
        (le→ltb (sub32 k.tick_count start) ticks
          (omega (arith, now 0 (omega arith), small, late, word)))
        refl
  sleep_from (suc n) (suc fuel) k gain small now early late word l =
      let rest =
        sleep_from n fuel (resume k) (λ i. gain (suc i)) small (λ i le. now (suc i) (omega arith))
          (λ i lt. early (suc i) (omega arith)) late word (omega arith) in
      rw
        (lt→ltb (sub32 k.tick_count start) ticks
          (omega (arith, now 0 (omega arith), early 0 (omega arith), small, late, word)))
        rest

-- When the counter stands `gain i` ticks after the start, up to its wrap, the `i`-th time that the shell
-- runs again, which may be several ticks or none after the time before, the loop of cmd_sleep ends the
-- first time that `gain` has reached the ticks to sleep, which for fuel above the number of
-- these times, and a gain below 2^32, is time `n`.
pub sleep_loop_lem :
    (resume : Kernel → Kernel) (gain : ℕ → ℕ) (n ticks fuel : ℕ) (k : Kernel)
    → k.tick_count < u32_mod
    → ((i : ℕ) → i ≤ n → (iterate i resume k).tick_count ≡ add32 k.tick_count (gain i))
    → ((i : ℕ) → i < n → gain i < ticks)
    → ticks ≤ gain n
    → gain n < u32_mod
    → n < fuel
    → sleep_loop fuel resume k k.tick_count ticks ≡ done (iterate n resume k)
sleep_loop_lem resume gain n ticks fuel k small now early late word l =
    sleep_from resume ticks k.tick_count n fuel k gain small now early late word l
