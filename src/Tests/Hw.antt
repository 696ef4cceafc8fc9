-- ===== src/Tests/Hw.antt =====
-- The hardware blocks on small inputs.
use qinglong_core.Prelude.{ℕ, zero, suc, ◌≡◌, refl, Bool, true, false, List, [], ◌∷◌, ◌||◌, arith}
use qinglong_core.Hw.Divider.{DivInput, DivUnit, reset_divider, clock, edge, divide_step}
use qinglong_core.Hw.Divider.Answer.{answer, riscv_div, riscv_rem}
use qinglong_core.Hw.Divider.Riscv.{Gives, clock-Gives}
use qinglong_core.Hw.Multiplier.{multiply, product}
use qinglong_core.Hw.Multiplier.Riscv.{riscv_mul, multiply-riscv_mul}
use qinglong_core.Hw.Mmio.{reset_mmio, addr_console, addr_exit}
use qinglong_core.Hw.Mmio.Tap.{
  Cycle, console_tap, after_all, all_printed, exit_stores, last_or, some_of, after_all-taps,
}

-- -7 / 2 and -7 % 2.
abbrev minus_seven : Bool → DivInput
minus_seven rem = record {
  start = true;
  is_signed = true;
  want_rem = rem;
  dividend = 0xFFFFFFF9;
  divisor = 2;
}

-- The largest negative number by -1.
abbrev overflowing : DivInput
overflowing = record {
  start = true;
  is_signed = true;
  want_rem = false;
  dividend = 0x80000000;
  divisor = 0xFFFFFFFF;
}

divisions :
    (answer (minus_seven false) ≡ 0xFFFFFFFD)
    × (answer (minus_seven true) ≡ 0xFFFFFFFF)
    × (answer overflowing ≡ 0x80000000)
    × (riscv_div false 7 0 ≡ 0xFFFFFFFF)
    × (riscv_rem true 7 0 ≡ 7)
unfolding answer riscv_div riscv_rem
divisions = (refl, refl, refl, refl, refl)

abbrev ticks : ℕ → DivUnit → DivUnit
ticks zero d = d
ticks (suc k) d = ticks k (clock false overflowing d)

-- Later starts are not heard while the divider is busy.
divided : (ticks 34 (clock false (minus_seven false) reset_divider)).result ≡ 0xFFFFFFFD
unfolding clock edge divide_step
divided = refl

clock-Gives_example :
    Gives (answer (minus_seven true)) 34 (clock false (minus_seven true) reset_divider)
clock-Gives_example =
    clock-Gives (minus_seven true) reset_divider refl refl (omega arith) (omega arith)

-- -1 * 3, in the high half.
products :
    (multiply true true true 0xFFFFFFFF 3 ≡ 0xFFFFFFFF)
    × (multiply false false true 0xFFFFFFFF 3 ≡ 2)
unfolding multiply product
products = (refl, refl)

multiply-riscv_mul_example :
    multiply true false true 0xFFFFFFFF 3 ≡ riscv_mul true false true 0xFFFFFFFF 3
multiply-riscv_mul_example =
    multiply-riscv_mul true false true 0xFFFFFFFF 3 (omega arith) (omega arith)

abbrev store_at : ℕ → ℕ → Cycle
store_at a v = record {
  console_ready = true;
  request = record { valid = true; addr = a; wen = true; wdata = v; wmask = 15 };
}

abbrev three_stores : List Cycle
three_stores = store_at addr_console 72 ∷ store_at addr_exit 3 ∷ store_at addr_console 105 ∷ []

after_all-taps_example :
    (console_tap three_stores reset_mmio ≡ all_printed three_stores)
    × ((after_all three_stores reset_mmio).exit_valid
        ≡ (false || some_of (exit_stores three_stores)))
    × ((after_all three_stores reset_mmio).exit_code ≡ last_or 0 (exit_stores three_stores))
after_all-taps_example = after_all-taps three_stores reset_mmio
