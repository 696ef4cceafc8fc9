-- ===== src/Hw/Pmp.antt =====
-- rtl/core/pmp.sv: the check of an access against the sixteen entries of the physical memory
-- protection. It has no state.
pub mod Napot
pub mod Check
use qinglong_core.Prelude.{
  ℕ, zero, suc, ◌+◌, ◌-◌, ◌/◌, ◌%◌, ◌^◌, ◌==◌, ltb, leb, if◌then◌else◌, Bool, true, false, not,
  ◌&&◌, ◌||◌, bit_and,
}
use Prim.Native.Nat.{bit_xor}

pub record Access : Type 0 where
  pub priv : ℕ
  pub addr : ℕ
  pub is_read : Bool
  pub is_write : Bool
  pub is_exec : Bool

abbrev pub prv_m : ℕ
prv_m = 3

abbrev pub a_off : ℕ
a_off = 0

abbrev pub a_tor : ℕ
a_tor = 1

abbrev pub a_na4 : ℕ
a_na4 = 2

abbrev pub a_napot : ℕ
a_napot = 3

-- cfg[4:3]
abbrev pub mode : ℕ → ℕ
mode cfg = cfg / 8 % 4

-- PA[31:2]
abbrev pub access_hi : Access → ℕ
access_hi x = x.addr / 4 % 2 ^ 30

-- On 30 bits.
abbrev pub run_mask : ℕ → ℕ
run_mask a = bit_xor a ((a + 1) % 2 ^ 30)

abbrev pub cmp_mask : ℕ → ℕ
cmp_mask a = 2 ^ 30 - 1 - run_mask a

abbrev pub match_tor : ℕ → ℕ → ℕ → Bool
match_tor prev this hi = leb prev hi && ltb hi this

unfoldable pub match_napot : ℕ → ℕ → Bool
match_napot this hi = bit_and hi (cmp_mask this) == bit_and this (cmp_mask this)

abbrev pub matches_as : ℕ → ℕ → ℕ → ℕ → Bool
matches_as a prev this hi =
    if a == a_tor
    then match_tor prev this hi
    else if a == a_na4
    then hi == this
    else if a == a_napot
    then match_napot this hi
    else false

-- The entries: cfg_i and addr_i.
module _ (cfg : ℕ → ℕ) (addr : ℕ → ℕ) where
  abbrev pub this_addr : ℕ → ℕ
  this_addr i = addr i % 2 ^ 30

  abbrev pub prev_addr : ℕ → ℕ
  prev_addr i = if i == 0 then 0 else addr (i - 1) % 2 ^ 30

  unfoldable pub entry_match : Access → ℕ → Bool
  entry_match x i = matches_as (mode (cfg i)) (prev_addr i) (this_addr i) (access_hi x)

  -- Bits 0, 1, 2 and 7 of the configuration.
  abbrev pub perm_ok : Access → ℕ → Bool
  perm_ok x i =
      x.is_read && (cfg i % 2 == 1)
      || x.is_write && (cfg i / 2 % 2 == 1)
      || x.is_exec && (cfg i / 4 % 2 == 1)

  unfoldable pub entry_allowed : Access → ℕ → Bool
  entry_allowed x i = (x.priv == prv_m) && not (cfg i / 128 % 2 == 1) || perm_ok x i

  -- for (int i = 0; i < 16; i = i + 1), with `left` rounds to go.
  unfoldable pub any_active : ℕ → ℕ → Bool → Bool
  any_active zero i active = active
  any_active (suc left) i active =
      any_active left (i + 1) (if mode (cfg i) == a_off then active else true)

  -- The same for `picked` and `decision`.
  unfoldable pub pick : Access → ℕ → ℕ → Bool → Bool → Bool
  pick x zero i picked decision = decision
  pick x (suc left) i picked decision =
      pick x left (i + 1) (if not picked && entry_match x i then true else picked)
        (if not picked && entry_match x i then entry_allowed x i else decision)

  unfoldable pub fault : Access → Bool
  fault x = any_active 16 0 false && not (pick x 16 0 false (x.priv == prv_m))
