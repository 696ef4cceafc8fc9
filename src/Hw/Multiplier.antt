-- ===== src/Hw/Multiplier.antt =====
-- rtl/core/mul_unit.sv: the multiplier of the core, which has no state.
pub mod Riscv
use qinglong_core.Prelude.{ℕ, ◌+◌, ◌-◌, ◌*◌, ◌/◌, ◌%◌, ◌^◌, ◌==◌, if◌then◌else◌, Bool, ◌&&◌}

-- A word on 33 bits: a[31] or 0 before it.
abbrev pub extend : Bool → ℕ → ℕ
extend is_signed a = if is_signed && (a / 2 ^ 31 % 2 == 1) then a + 2 ^ 32 else a

-- A signed number of 33 bits on the 66 bits of the product.
abbrev pub widen : ℕ → ℕ
widen x = if x / 2 ^ 32 % 2 == 1 then x + (2 ^ 66 - 2 ^ 33) else x

unfoldable pub product : Bool → Bool → ℕ → ℕ → ℕ
product a_signed b_signed a b = widen (extend a_signed a) * widen (extend b_signed b) % 2 ^ 66

-- prod[63:32] or prod[31:0].
unfoldable pub multiply : Bool → Bool → Bool → ℕ → ℕ → ℕ
multiply a_signed b_signed hi a b =
    if hi
    then product a_signed b_signed a b / 2 ^ 32 % 2 ^ 32
    else product a_signed b_signed a b % 2 ^ 32
