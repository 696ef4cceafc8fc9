-- ===== src/Hw/Csr.antt =====
-- rtl/core/csr.sv: the control and status registers. Here are the registers and the inputs of an
-- edge; Read has what is combinational, Write the writes of an instruction, and Edge the block under
-- `always_ff`.
pub mod Address
pub mod Read
pub mod Write
pub mod Edge
pub mod Kept
pub mod Isolation
pub mod Lock
pub mod Decision
pub mod Service
pub mod Still
pub mod Entries
pub mod Return
use qinglong_core.Prelude.{ℕ, Bool}
use qinglong_core.Hw.Vector.{Vector, no_bits}

-- The counters are numbers of 64 bits, `priv_mode` one of two.
pub record Csr : Type 0 where
  pub mstatus : Vector
  pub mie : Vector
  pub mtvec : Vector
  pub mscratch : Vector
  pub mepc : Vector
  pub mcause : Vector
  pub mtval : Vector
  pub medeleg : Vector
  pub mideleg : Vector
  pub mip_sw : Vector
  pub stvec : Vector
  pub sscratch : Vector
  pub sepc : Vector
  pub scause : Vector
  pub stval : Vector
  pub satp : Vector
  pub mcycle : ℕ
  pub minstret : ℕ
  pub priv_mode : ℕ
  pub pmpcfg : ℕ → Vector
  pub pmpaddr : ℕ → Vector

-- The instruction, the trap and the lines from outside.
pub record Inputs : Type 0 where
  pub csr_en : Bool
  pub csr_op : ℕ
  pub csr_addr : ℕ
  pub csr_rs1_or_imm : ℕ
  pub csr_wdata : Vector
  pub trap_take : Bool
  pub trap_pc : Vector
  pub trap_cause : Vector
  pub trap_tval : Vector
  pub mret : Bool
  pub sret : Bool
  pub retire : Bool
  pub ext_mti : Bool
  pub ext_msi : Bool
  pub ext_mei : Bool
  pub ext_sei : Bool
  pub mtime : ℕ

abbrev pub prv_u : ℕ
prv_u = 0

abbrev pub prv_s : ℕ
prv_s = 1

abbrev pub prv_m : ℕ
prv_m = 3

-- Bits of mstatus.
abbrev pub sie_bit : ℕ
sie_bit = 1

abbrev pub mie_bit : ℕ
mie_bit = 3

abbrev pub spie_bit : ℕ
spie_bit = 5

abbrev pub mpie_bit : ℕ
mpie_bit = 7

abbrev pub spp_bit : ℕ
spp_bit = 8

abbrev pub mpp_lo : ℕ
mpp_lo = 11

abbrev pub mpp_hi : ℕ
mpp_hi = 12

abbrev pub mprv_bit : ℕ
mprv_bit = 17

abbrev pub tvm_bit : ℕ
tvm_bit = 20

abbrev pub sstatus_mask : ℕ
sstatus_mask = 0x000C0122

abbrev pub reset_csr : Csr
reset_csr = record {
  mstatus = no_bits;
  mie = no_bits;
  mtvec = no_bits;
  mscratch = no_bits;
  mepc = no_bits;
  mcause = no_bits;
  mtval = no_bits;
  medeleg = no_bits;
  mideleg = no_bits;
  mip_sw = no_bits;
  stvec = no_bits;
  sscratch = no_bits;
  sepc = no_bits;
  scause = no_bits;
  stval = no_bits;
  satp = no_bits;
  mcycle = 0;
  minstret = 0;
  priv_mode = prv_m;
  pmpcfg = λ i. no_bits;
  pmpaddr = λ i. no_bits;
}
