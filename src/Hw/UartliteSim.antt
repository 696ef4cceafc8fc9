-- ===== src/Hw/UartliteSim.antt =====
-- rtl/mem/axil_uartlite_sim.sv: the UART of the simulated SoC, as an AXI4-Lite slave. `write_edge` and
-- `read_edge` are its two blocks under `always_ff`, each register after a rising edge.
pub mod Pairs
pub mod Channel
pub mod Writes
pub mod Driver
use qinglong_core.Prelude.{
  ℕ, ◌%◌, ◌/◌, ◌==◌, if◌then◌else◌, Bool, true, false, not, ◌&&◌, [], ◌∷◌, ◌++◌, Bytes,
}

-- The data of a write and its byte enables.
pub record Beat : Type 0 where
  pub word : ℕ
  pub strb : ℕ

-- The write side: the inputs.
pub record WriteInput : Type 0 where
  pub awvalid : Bool
  pub awaddr : ℕ
  pub wvalid : Bool
  pub wbeat : Beat
  pub bready : Bool

-- Its registers, and what it has written to the standard output.
pub record WriteSide : Type 0 where
  pub aw_hs : Bool
  pub w_hs : Bool
  pub held_addr : ℕ
  pub held_beat : Beat
  pub bvalid : Bool
  pub ctrl_ie : Bool
  pub out : Bytes

abbrev pub takes_addr : WriteInput → WriteSide → Bool
takes_addr i u = i.awvalid && not u.aw_hs

abbrev pub takes_data : WriteInput → WriteSide → Bool
takes_data i u = i.wvalid && not u.w_hs

abbrev pub fires : WriteSide → Bool
fires u = u.aw_hs && u.w_hs && not u.bvalid

abbrev pub answered : WriteInput → WriteSide → Bool
answered i u = u.bvalid && i.bready

-- The byte of a write to TX_FIFO, if the write is one.
abbrev pub byte_of : ℕ → Beat → Bytes
byte_of addr b = if (addr % 16 == 4) && (b.strb % 2 == 1) then b.word % 256 ∷ [] else []

abbrev pub sets_ctrl : WriteSide → Bool
sets_ctrl u = fires u && (u.held_addr % 16 == 12) && (u.held_beat.strb % 2 == 1)

unfoldable pub write_edge : Bool → WriteInput → WriteSide → WriteSide
write_edge rst i u =
    if rst
    then record u { aw_hs = false; w_hs = false; bvalid = false; ctrl_ie = false }
    else record {
      aw_hs = if answered i u then false else if takes_addr i u then true else u.aw_hs;
      w_hs = if answered i u then false else if takes_data i u then true else u.w_hs;
      held_addr = if takes_addr i u then i.awaddr else u.held_addr;
      held_beat = if takes_data i u then i.wbeat else u.held_beat;
      bvalid = if answered i u then false else if fires u then true else u.bvalid;
      ctrl_ie = if sets_ctrl u then u.held_beat.word / 16 % 2 == 1 else u.ctrl_ie;
      out = if fires u then u.out ++ byte_of u.held_addr u.held_beat else u.out;
    }

-- The read side.
pub record ReadInput : Type 0 where
  pub arvalid : Bool
  pub araddr : ℕ
  pub rready : Bool

pub record ReadSide : Type 0 where
  pub ar_hs : Bool
  pub held_araddr : ℕ
  pub rvalid : Bool
  pub rdata : ℕ

abbrev pub takes_read : ReadInput → ReadSide → Bool
takes_read i u = i.arvalid && not u.ar_hs

abbrev pub read_done : ReadInput → ReadSide → Bool
read_done i u = u.rvalid && i.rready

unfoldable pub read_edge : Bool → ReadInput → ReadSide → ReadSide
read_edge rst i u = if rst then record u { ar_hs = false; rvalid = false; rdata = 0 } else record {
  ar_hs = if read_done i u then false else if takes_read i u then true else u.ar_hs;
  held_araddr = if takes_read i u then i.araddr else u.held_araddr;
  rvalid = if read_done i u then false else if u.ar_hs && not u.rvalid then true else u.rvalid;
  rdata = if u.ar_hs && not u.rvalid then 0 else u.rdata;
}
