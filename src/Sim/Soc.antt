-- ===== src/Sim/Soc.antt =====
-- What the testbench sees of the model that Verilator generates from rtl/soc/soc_tb_top.sv: its
-- state is abstract, `eval` is one call of `top->eval()` after `clk` and `rst` are set, and the
-- outputs are what the testbench reads between two calls.
use qinglong_core.Prelude.{ℕ, ◌≡◌, Bool}
use qinglong_core.Dpi.{Mem}

pub record Outputs : Type 0 where
  pub commit_valid : Bool
  pub commit_pc : ℕ
  pub commit_insn : ℕ
  pub commit_rd_wen : Bool
  pub commit_rd_addr : ℕ
  pub commit_rd_data : ℕ
  pub commit_trap : Bool
  pub commit_cause : ℕ
  pub console_valid : Bool
  pub console_byte : ℕ
  pub exit_valid : Bool
  pub exit_code : ℕ

-- `sram` is the array `mem` of `u_soc.u_sram`; a DPI call replaces it and nothing else.
pub record Soc : Type 1 where
  pub State : Type 0
  pub initial : State
  pub eval : Bool → Bool → State → State
  pub outputs : State → Outputs
  pub got_finish : State → Bool
  pub sram : State → Mem
  pub with_sram : Mem → State → State
  pub sram-with_sram : (m : Mem) (s : State) → sram (with_sram m s) ≡ m
