-- ===== src/Sim/Top.antt =====
-- rtl/soc/soc_tb_top.sv with the MMIO block of rtl/soc/soc_top.sv in its place: the model that the
-- testbench drives, for any rest of the SoC.
pub mod Steps
pub mod Exit
use qinglong_core.Prelude.{ℕ, ◌/◌, ◌≡◌, ◌==◌, if◌then◌else◌, Bool, true, false, not, ◌&&◌}
use qinglong_core.Dpi.{Mem}
use qinglong_core.Hw.Mmio.{Request, Mmio, clock, reset_mmio}
use qinglong_core.Sim.Soc.{Soc, Outputs}

-- The commit ports.
pub record Commits : Type 0 where
  pub commit_valid : Bool
  pub commit_pc : ℕ
  pub commit_insn : ℕ
  pub commit_rd_wen : Bool
  pub commit_rd_addr : ℕ
  pub commit_rd_data : ℕ
  pub commit_trap : Bool
  pub commit_cause : ℕ

-- The core, the memories and the other devices: their registers, which a after_rise edge of the clock
-- moves on, and what they show between two edges. `request` is the core's request on the data port.
pub record Rest : Type 1 where
  pub State : Type 0
  pub initial : State
  pub edge : Bool → Mmio → State → State
  pub request : State → Mmio → Request
  pub commits : State → Mmio → Commits
  pub got_finish : State → Bool
  pub sram : State → Mem
  pub with_sram : Mem → State → State
  pub sram-with_sram : (m : Mem) (s : State) → sram (with_sram m s) ≡ m

-- `dm_is_mmio`: the upper half of the address.
abbrev pub dm_is_mmio : Request → Bool
dm_is_mmio r = r.addr / 65536 == 0xD058

abbrev pub mmio_request : Request → Request
mmio_request r = record r { valid = r.valid && dm_is_mmio r }

module _ (rest : Rest) where
  pub record Top : Type 0 where
    pub clk : Bool
    pub mmio : Mmio
    pub inner : rest.State

  -- A after_rise edge; `console_ready` is tied to 1.
  abbrev pub after_rise : Bool → Top → Top
  after_rise rst t = record {
    clk = true;
    mmio = clock rst true (mmio_request (rest.request t.inner t.mmio)) t.mmio;
    inner = rest.edge rst t.mmio t.inner;
  }

  unfoldable pub eval_top : Bool → Bool → Top → Top
  eval_top clk rst t = if clk && not t.clk then after_rise rst t else record t { clk = clk }

  abbrev pub outputs_of : Top → Outputs
  outputs_of t =
      let c = rest.commits t.inner t.mmio in
      record {
        commit_valid = c.commit_valid;
        commit_pc = c.commit_pc;
        commit_insn = c.commit_insn;
        commit_rd_wen = c.commit_rd_wen;
        commit_rd_addr = c.commit_rd_addr;
        commit_rd_data = c.commit_rd_data;
        commit_trap = c.commit_trap;
        commit_cause = c.commit_cause;
        console_valid = t.mmio.console_valid;
        console_byte = t.mmio.console_byte;
        exit_valid = t.mmio.exit_valid;
        exit_code = t.mmio.exit_code;
      }

  -- What the testbench gets.
  abbrev pub top : Soc
  top = record {
    State = Top;
    initial = record { clk = false; mmio = reset_mmio; inner = rest.initial };
    eval = eval_top;
    outputs = outputs_of;
    got_finish = λ t. rest.got_finish t.inner;
    sram = λ t. rest.sram t.inner;
    with_sram = λ m t. record t { inner = rest.with_sram m t.inner };
    sram-with_sram = λ m t. rest.sram-with_sram m t.inner;
  }
