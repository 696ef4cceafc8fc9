-- ===== src/Elf/Outcome.antt =====
-- How a call of the loader ends. `throws` is the `std::runtime_error` that the code throws; `fault`
-- is an access outside the mapped file, which C++ leaves undefined; `hang` is a loop that never
-- meets its bound.
use qinglong_core.Prelude.{Option, none, some}

pub data Error : Type 0 where
  open_failed fstat_failed mmap_failed : Error
  too_small not_elf not_elf32 not_little_endian not_riscv : Error

pub data Outcome {ℓ} (A : Type ℓ) : Type ℓ where
  ok : A → Outcome A
  throws : Error → Outcome A
  fault : Outcome A
  hang : Outcome A

infixl 5 ◌>>=◌
abbrev pub ◌>>=◌ {ℓ κ} : {A : Type ℓ} {B : Type κ} → Outcome A → (A → Outcome B) → Outcome B
ok a >>= f = f a
throws e >>= f = throws e
fault >>= f = fault
hang >>= f = hang

-- What a read gives: a fault where there is no byte.
abbrev pub or_fault {ℓ} : {A : Type ℓ} → Option A → Outcome A
or_fault none = fault
or_fault (some a) = ok a
