-- ===== src/Hw/BusMaster.antt =====
-- rtl/soc/axi4_master.sv: the bus master between the data port of the core and the bus, with one
-- transaction at a time. `clock` is the block under `always_ff`: the registers after a rising edge.
pub mod Once
use qinglong_core.Prelude.{ℕ, ◌-◌, ◌==◌, if◌then◌else◌, Bool, true, false, not, ◌&&◌, ◌||◌}
use qinglong_core.Hw.Mmio.{Request}

pub data BusState : Type 0 where
  s_idle s_write s_write_b s_read s_read_r : BusState

pub record BusMaster : Type 0 where
  pub state : BusState
  pub addr : ℕ
  pub wdata : ℕ
  pub wmask : ℕ
  pub aw_sent : Bool
  pub w_sent : Bool
  pub rsp_valid : Bool
  pub rsp_fault : Bool
  pub rsp_rdata : ℕ
  pub cooldown : ℕ

-- What the bus answers in a cycle.
pub record BusInput : Type 0 where
  pub awready : Bool
  pub wready : Bool
  pub bvalid : Bool
  pub bresp : ℕ
  pub arready : Bool
  pub rvalid : Bool
  pub rdata : ℕ
  pub rresp : ℕ

abbrev pub in_idle : BusState → Bool
in_idle s_idle = true
in_idle s_write = false
in_idle s_write_b = false
in_idle s_read = false
in_idle s_read_r = false

abbrev pub in_write : BusState → Bool
in_write s_idle = false
in_write s_write = true
in_write s_write_b = false
in_write s_read = false
in_write s_read_r = false

abbrev pub reset_master : BusMaster
reset_master = record {
  state = s_idle;
  addr = 0;
  wdata = 0;
  wmask = 0;
  aw_sent = false;
  w_sent = false;
  rsp_valid = false;
  rsp_fault = false;
  rsp_rdata = 0;
  cooldown = 0;
}

abbrev pub master_ready : BusMaster → Bool
master_ready m = in_idle m.state && not m.rsp_valid && (m.cooldown == 0)

-- req_valid && req_ready
abbrev pub accepts : Request → BusMaster → Bool
accepts r m = r.valid && master_ready m

-- m_axi_awvalid && m_axi_awready, and the same of the data channel.
abbrev pub aw_fires : BusInput → BusMaster → Bool
aw_fires b m = in_write m.state && not m.aw_sent && b.awready

abbrev pub w_fires : BusInput → BusMaster → Bool
w_fires b m = in_write m.state && not m.w_sent && b.wready

abbrev pub respond : Bool → ℕ → BusMaster → BusMaster
respond fault v m = record m {
  rsp_valid = true;
  rsp_rdata = v;
  rsp_fault = fault;
  state = s_idle;
  cooldown = 8;
}

-- The `case` of an edge; `n` has the registers with the defaults of the edge, `m` those before it.
unfoldable pub bus_edge : Request → BusInput → BusState → BusMaster → BusMaster → BusMaster
bus_edge r b s_idle m n =
    if accepts r m
    then record n {
      addr = r.addr;
      wdata = r.wdata;
      wmask = r.wmask;
      aw_sent = false;
      w_sent = false;
      state = if r.wen then s_write else s_read;
    }
    else n
bus_edge r b s_write m n = record n {
  aw_sent = if aw_fires b m then true else n.aw_sent;
  w_sent = if w_fires b m then true else n.w_sent;
  state = if (m.aw_sent || aw_fires b m) && (m.w_sent || w_fires b m) then s_write_b else n.state;
}
bus_edge r b s_write_b m n = if b.bvalid then respond (not (b.bresp == 0)) 0 n else n
bus_edge r b s_read m n = if b.arready then record n { state = s_read_r } else n
bus_edge r b s_read_r m n = if b.rvalid then respond (not (b.rresp == 0)) b.rdata n else n

-- What every edge does first.
abbrev pub defaults : BusMaster → BusMaster
defaults m = record m {
  rsp_valid = false;
  rsp_fault = false;
  cooldown = if m.cooldown == 0 then 0 else m.cooldown - 1;
}

unfoldable pub clock : Bool → Request → BusInput → BusMaster → BusMaster
unfolding bus_edge
clock rst r b m = if rst then reset_master else bus_edge r b m.state m (defaults m)
