-- ===== src/Linux/Soc.antt =====
-- What sim_linux.cpp sees of the model that Verilator generates from rtl/soc/soc_tb_linux.sv: its
-- state is abstract, `eval` is one call of `top->eval()` after `clk` and `rst` are set.
use qinglong_core.Prelude.{ℕ, ◌≡◌, Bool}
use qinglong_core.Dpi.{Mem}

pub record Outputs : Type 0 where
  pub commit_valid : Bool
  pub commit_pc : ℕ
  pub commit_insn : ℕ
  pub commit_rd_wen : Bool
  pub commit_rd_addr : ℕ
  pub commit_rd_data : ℕ
  pub commit_trap : Bool
  pub commit_cause : ℕ
  pub exit_valid : Bool
  pub exit_code : ℕ
  pub tap_dm_req_fire : Bool
  pub tap_dm_req_va : ℕ
  pub tap_dm_req_pa : ℕ
  pub tap_dm_req_wen : Bool
  pub tap_dm_req_size : ℕ
  pub tap_dm_req_wmask : ℕ
  pub tap_dm_req_wdata : ℕ
  pub tap_dm_rsp_fire : Bool
  pub tap_dm_rsp_rdata : ℕ
  pub tap_dm_rsp_fault : Bool
  pub tap_dm_rsp_pagefault : Bool
  pub tap_priv_mode : ℕ

-- `ddr` and `sram` are the arrays `mem` of `u_ddr` and of `u_soc.u_sram`; a DPI call replaces the one
-- and nothing else.
pub record Soc : Type 1 where
  pub State : Type 0
  pub initial : State
  pub eval : Bool → Bool → State → State
  pub outputs : State → Outputs
  pub got_finish : State → Bool
  pub ddr : State → Mem
  pub sram : State → Mem
  pub with_ddr : Mem → State → State
  pub with_sram : Mem → State → State
  pub ddr-with_ddr : (m : Mem) (s : State) → ddr (with_ddr m s) ≡ m
  pub ddr-with_sram : (m : Mem) (s : State) → ddr (with_sram m s) ≡ ddr s
  pub sram-with_sram : (m : Mem) (s : State) → sram (with_sram m s) ≡ m
