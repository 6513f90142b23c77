-- ===== src/Base/Run.antt =====
-- How a routine of the kernel ends: with a value, by stopping the machine (`kpanic`), or, for a loop
-- over a linked structure, out of the fuel of the model. `unmodelled` is where a pointer from user mode
-- leads to data that the model does not keep in the byte memory.
use mathlib.Core.Option.{Option, none, some}

pub data Run {ℓ} (A : Type ℓ) : Type ℓ where
  done : A → Run A
  halted : Run A
  no_fuel : Run A
  unmodelled : Run A

infixl 5 ◌>>=◌
abbrev pub ◌>>=◌ {ℓ κ} : {A : Type ℓ} {B : Type κ} → Run A → (A → Run B) → Run B
done a >>= f = f a
halted >>= f = halted
no_fuel >>= f = no_fuel
unmodelled >>= f = unmodelled

-- A result of which `none` is the end of the fuel.
abbrev pub fueled {ℓ} : {A : Type ℓ} → Option A → Run A
fueled none = no_fuel
fueled (some a) = done a

-- A result of which `none` is a call of `kpanic`.
abbrev pub unless_panic {ℓ} : {A : Type ℓ} → Option A → Run A
unless_panic none = halted
unless_panic (some a) = done a
