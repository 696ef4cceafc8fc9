-- ===== src/Hw/Mmio.antt =====
-- rtl/soc/mmio.sv: the console, the exit register and the status register. `clock` is the block
-- under `always_ff`: the registers after a rising edge.
pub mod Tap
use qinglong_core.Prelude.{ℕ, ◌%◌, ◌==◌, if◌then◌else◌, Bool, true, false, ◌&&◌}

-- A request on the data port; `wmask` has a bit for each byte.
pub record Request : Type 0 where
  pub valid : Bool
  pub addr : ℕ
  pub wen : Bool
  pub wdata : ℕ
  pub wmask : ℕ

pub record Mmio : Type 0 where
  pub console_valid : Bool
  pub console_byte : ℕ
  pub exit_valid : Bool
  pub exit_code : ℕ
  pub rsp_valid : Bool
  pub rsp_rdata : ℕ
  pub rsp_fault : Bool

abbrev pub addr_console : ℕ
addr_console = 0xD0580000

abbrev pub addr_exit : ℕ
addr_exit = 0xD0580004

abbrev pub addr_status : ℕ
addr_status = 0xD0580008

abbrev pub is_console_store : Request → Bool
is_console_store r = r.valid && r.wen && (r.addr == addr_console)

-- A console store waits for the UART; everything else is ready.
unfoldable pub req_ready : Bool → Request → Bool
req_ready console_ready r = if is_console_store r then console_ready else true

abbrev pub reset_mmio : Mmio
reset_mmio = record {
  console_valid = false;
  console_byte = 0;
  exit_valid = false;
  exit_code = 0;
  rsp_valid = false;
  rsp_rdata = 0;
  rsp_fault = false;
}

-- What every edge does first: `console_valid`, `rsp_valid` and `rsp_fault` fall.
abbrev pub idle : Mmio → Mmio
idle m = record m { console_valid = false; rsp_valid = false; rsp_fault = false }

-- The `case` of an accepted request.
unfoldable pub accept : Request → Mmio → Mmio
accept r m =
    let m1 : Mmio = record m { rsp_valid = true; rsp_rdata = 0 } in
    if r.addr == addr_console
    then (if r.wen && (r.wmask % 2 == 1)
        then record m1 { console_valid = true; console_byte = r.wdata % 256 }
        else m1)
    else if r.addr == addr_exit
    then (if r.wen then record m1 { exit_valid = true; exit_code = r.wdata } else m1)
    else if r.addr == addr_status
    then m1
    else record m1 { rsp_fault = true }

unfoldable pub clock : Bool → Bool → Request → Mmio → Mmio
unfolding req_ready accept
clock rst console_ready r m =
    if rst
    then reset_mmio
    else if r.valid && req_ready console_ready r
    then accept r (idle m)
    else idle m
