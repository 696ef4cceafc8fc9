-- ===== src/Hw/Divider.antt =====
-- rtl/core/div_unit.sv: the divider of the core. `clock` is the block under `always_ff`: the
-- registers after a rising edge.
pub mod Restore
pub mod Quotient
pub mod Answer
pub mod Riscv
use qinglong_core.Prelude.{
  ℕ, ◌+◌, ◌-◌, ◌*◌, ◌/◌, ◌%◌, ◌^◌, ◌==◌, leb, if◌then◌else◌, Bool, true, false, not, ◌&&◌, u32,
}

pub data DivState : Type 0 where
  s_idle s_init s_compute s_fixup : DivState

pub record DivInput : Type 0 where
  pub start : Bool
  pub is_signed : Bool
  pub want_rem : Bool
  pub dividend : ℕ
  pub divisor : ℕ

-- "Latched operands + configuration".
pub record Config : Type 0 where
  pub sign : Bool
  pub rem : Bool
  pub neg_q : Bool
  pub neg_r : Bool
  pub div_by_zero : Bool
  pub overflow : Bool

-- "Datapath state".
pub record Datapath : Type 0 where
  pub remainder : ℕ
  pub quotient : ℕ
  pub divisor_abs : ℕ
  pub dividend_abs : ℕ
  pub iter : ℕ

pub record DivUnit : Type 0 where
  pub state : DivState
  pub done : Bool
  pub result : ℕ
  pub config : Config
  pub path : Datapath

abbrev pub no_config : Config
no_config = record {
  sign = false;
  rem = false;
  neg_q = false;
  neg_r = false;
  div_by_zero = false;
  overflow = false;
}

abbrev pub empty_path : Datapath
empty_path = record { remainder = 0; quotient = 0; divisor_abs = 0; dividend_abs = 0; iter = 0 }

abbrev pub reset_divider : DivUnit
reset_divider = record {
  state = s_idle;
  done = false;
  result = 0;
  config = no_config;
  path = empty_path;
}

abbrev pub busy_in : DivState → Bool
busy_in s_idle = false
busy_in s_init = true
busy_in s_compute = true
busy_in s_fixup = true

-- state_q != S_IDLE
abbrev pub busy : DivUnit → Bool
busy d = busy_in d.state

-- x[31]
abbrev pub top_bit : ℕ → Bool
top_bit x = x / 2 ^ 31 % 2 == 1

-- ~x + 1 on 32 bits.
abbrev pub negate : ℕ → ℕ
negate x = u32 (2 ^ 32 - 1 - x + 1)

abbrev pub is_neg : Bool → ℕ → Bool
is_neg is_signed x = is_signed && top_bit x

abbrev pub abs : Bool → ℕ → ℕ
abs is_signed x = if is_neg is_signed x then negate x else x

abbrev pub xor : Bool → Bool → Bool
xor a b = if a then not b else b

abbrev pub overflow_of : DivInput → Bool
overflow_of i = i.is_signed && (i.dividend == 2 ^ 31) && (i.divisor == 2 ^ 32 - 1)

abbrev pub latch_config : DivInput → Config
latch_config i = record {
  sign = i.is_signed;
  rem = i.want_rem;
  neg_q = xor (is_neg i.is_signed i.dividend) (is_neg i.is_signed i.divisor);
  neg_r = is_neg i.is_signed i.dividend;
  div_by_zero = i.divisor == 0;
  overflow = overflow_of i;
}

abbrev pub latch_path : DivInput → Datapath
latch_path i = record {
  remainder = 0;
  quotient = 0;
  divisor_abs = abs i.is_signed i.divisor;
  dividend_abs = abs i.is_signed i.dividend;
  iter = 0;
}

-- {remainder_q, dividend_abs_q[31]}, on 33 bits.
abbrev pub r_shift : Datapath → ℕ
r_shift p = p.remainder * 2 + p.dividend_abs / 2 ^ 31 % 2

abbrev pub r_sub : Datapath → ℕ
r_sub p = (r_shift p + 2 ^ 33 - p.divisor_abs) % 2 ^ 33

abbrev pub r_ge : Datapath → Bool
r_ge p = not (r_sub p / 2 ^ 32 == 1)

unfoldable pub divide_step : Datapath → Datapath
divide_step p = record {
  remainder = if r_ge p then u32 (r_sub p) else u32 (r_shift p);
  quotient = if r_ge p then u32 (p.quotient * 2 + 1) else u32 (p.quotient * 2);
  divisor_abs = p.divisor_abs;
  dividend_abs = u32 (p.dividend_abs * 2);
  iter = (p.iter + 1) % 64;
}

abbrev pub finish : ℕ → DivUnit → DivUnit
finish v d = record d { result = v; done = true; state = s_idle }

abbrev pub signed : Bool → ℕ → ℕ
signed neg x = if neg then negate x else x

abbrev pub start_division : DivInput → DivUnit → DivUnit
start_division i d = record d { config = latch_config i; path = latch_path i; state = s_init }

-- The `case` of an edge, with `done` already low.
unfoldable pub edge : DivInput → DivState → DivUnit → DivUnit
unfolding divide_step
edge i s_idle d = if i.start then start_division i d else d
edge i s_init d =
    if d.config.div_by_zero
    then finish (if d.config.rem then signed d.config.neg_r d.path.dividend_abs else 2 ^ 32 - 1) d
    else if d.config.overflow
    then finish (if d.config.rem then 0 else 2 ^ 31) d
    else record d { state = s_compute }
edge i s_compute d = record d {
  path = divide_step d.path;
  state = if d.path.iter == 31 then s_fixup else s_compute;
}
edge i s_fixup d =
    finish
      (if d.config.rem
        then signed d.config.neg_r d.path.remainder
        else signed d.config.neg_q d.path.quotient)
      d

unfoldable pub clock : Bool → DivInput → DivUnit → DivUnit
unfolding edge
clock rst i d = if rst then reset_divider else edge i d.state (record d { done = false })
