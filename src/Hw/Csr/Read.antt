-- ===== src/Hw/Csr/Read.antt =====
-- The combinational part of rtl/core/csr.sv: pending interrupts, the read multiplexer, and whether an
-- instruction writes and may.
use qinglong_core.Prelude.{
  ℕ, ◌+◌, ◌*◌, ◌-◌, ◌/◌, ◌%◌, ◌^◌, ◌==◌, leb, if◌then◌else◌, Bool, true, false, not, ◌&&◌, ◌||◌,
  Option, none, some,
}
use qinglong_core.Hw.Vector.{
  Vector, no_bits, bits_of, set_bit, both, either, flip, some_bit, number,
}
use qinglong_core.Hw.Csr.{Csr, Inputs, prv_u, prv_s, prv_m, sie_bit, mie_bit, tvm_bit, sstatus_mask}
use qinglong_core.Hw.Csr.Address.{
  csr_mstatus, csr_misa, csr_medeleg, csr_mideleg, csr_mie, csr_mtvec, csr_mscratch, csr_mepc,
  csr_mcause, csr_mtval, csr_mip, csr_mcycle, csr_minstret, csr_mcycleh, csr_minstreth, csr_cycle,
  csr_time, csr_instret, csr_cycleh, csr_timeh, csr_instreth, csr_mhartid, csr_mvendorid,
  csr_marchid, csr_mimpid, csr_pmpcfg0, csr_pmpaddr0, csr_sstatus, csr_sie, csr_stvec,
  csr_scounteren, csr_sscratch, csr_sepc, csr_scause, csr_stval, csr_sip, csr_satp, is_pmpcfg,
  is_pmpaddr,
}

abbrev pub misa_const : ℕ
misa_const = 0x40040100

-- The two halves of a counter.
abbrev pub low : ℕ → Vector
low c = bits_of (c % 2 ^ 32)

abbrev pub high : ℕ → Vector
high c = bits_of (c / 2 ^ 32)

unfoldable pub mip_live : Inputs → Csr → Vector
mip_live x s =
    set_bit 9 (s.mip_sw 9 || x.ext_sei)
      (set_bit 11 x.ext_mei (set_bit 7 x.ext_mti (set_bit 3 x.ext_msi s.mip_sw)))

abbrev pub m_enabled : Inputs → Csr → Vector
m_enabled x s = both (both (mip_live x s) s.mie) (flip s.mideleg)

abbrev pub s_enabled : Inputs → Csr → Vector
s_enabled x s = both (both (mip_live x s) s.mie) s.mideleg

unfoldable pub m_irq_live : Inputs → Csr → Bool
m_irq_live x s =
    (not (s.priv_mode == prv_m) || (s.priv_mode == prv_m) && s.mstatus mie_bit)
    && some_bit 32 (m_enabled x s)

unfoldable pub s_irq_live : Inputs → Csr → Bool
s_irq_live x s =
    ((s.priv_mode == prv_u) || (s.priv_mode == prv_s) && s.mstatus sie_bit)
    && some_bit 32 (s_enabled x s)

abbrev pub irq_pending : Inputs → Csr → Bool
irq_pending x s = m_irq_live x s || s_irq_live x s

-- The number of a pending supervisor interrupt, in the order of their priorities.
abbrev pub s_cause : Vector → ℕ
s_cause pending = if pending 9 then 0x80000009 else if pending 1 then 0x80000001 else 0x80000005

unfoldable pub irq_cause : Inputs → Csr → ℕ
irq_cause x s =
    if m_irq_live x s
    then (if m_enabled x s 11
        then 0x8000000B
        else if m_enabled x s 3
        then 0x80000003
        else if m_enabled x s 7
        then 0x80000007
        else s_cause (m_enabled x s))
    else s_cause (s_enabled x s)

-- The registers of the PMP: pmpcfg0 to pmpcfg3 and pmpaddr0 to pmpaddr15; an address without a
-- register has no value.
unfoldable pub read_pmp : Csr → ℕ → Option Vector
read_pmp s a =
    if is_pmpcfg a
    then some (s.pmpcfg (a - csr_pmpcfg0))
    else if is_pmpaddr a
    then some (s.pmpaddr (a - csr_pmpaddr0))
    else none

unfoldable pub read_s : Inputs → Csr → ℕ → Option Vector
read_s x s a =
    if a == csr_sstatus
    then some (both s.mstatus (bits_of sstatus_mask))
    else if a == csr_sie
    then some (both s.mie s.mideleg)
    else if a == csr_sip
    then some (both (mip_live x s) s.mideleg)
    else if a == csr_stvec
    then some s.stvec
    else if a == csr_scounteren
    then some no_bits
    else if a == csr_sscratch
    then some s.sscratch
    else if a == csr_sepc
    then some s.sepc
    else if a == csr_scause
    then some s.scause
    else if a == csr_stval
    then some s.stval
    else if a == csr_satp
    then some s.satp
    else read_pmp s a

unfoldable pub read_m : Inputs → Csr → ℕ → Option Vector
read_m x s a =
    if a == csr_mstatus
    then some s.mstatus
    else if a == csr_misa
    then some (bits_of misa_const)
    else if a == csr_medeleg
    then some s.medeleg
    else if a == csr_mideleg
    then some s.mideleg
    else if a == csr_mie
    then some s.mie
    else if a == csr_mip
    then some (mip_live x s)
    else if a == csr_mtvec
    then some s.mtvec
    else if a == csr_mscratch
    then some s.mscratch
    else if a == csr_mepc
    then some s.mepc
    else if a == csr_mcause
    then some s.mcause
    else if a == csr_mtval
    then some s.mtval
    else if a == csr_mcycle
    then some (low s.mcycle)
    else if a == csr_mcycleh
    then some (high s.mcycle)
    else if a == csr_minstret
    then some (low s.minstret)
    else if a == csr_minstreth
    then some (high s.minstret)
    else if a == csr_cycle
    then some (low s.mcycle)
    else if a == csr_cycleh
    then some (high s.mcycle)
    else if a == csr_instret
    then some (low s.minstret)
    else if a == csr_instreth
    then some (high s.minstret)
    else if a == csr_time
    then some (low x.mtime)
    else if a == csr_timeh
    then some (high x.mtime)
    else if a == csr_mhartid
    then some no_bits
    else if a == csr_mvendorid
    then some no_bits
    else if a == csr_marchid
    then some no_bits
    else if a == csr_mimpid
    then some (bits_of 1)
    else read_s x s a

-- `read_value`, which is also the output `csr_rdata`.
abbrev pub read_value : Inputs → Csr → Vector
read_value x s = elim (read_m x s x.csr_addr) [ none ↦ no_bits | some v ↦ v ]

abbrev pub addr_valid : Inputs → Csr → Bool
addr_valid x s = elim (read_m x s x.csr_addr) [ none ↦ false | some v ↦ true ]

-- The operations: 1, 2 and 3 are CSRRW, CSRRS and CSRRC, and 5, 6 and 7 those with an immediate.
unfoldable pub does_write : Inputs → Bool
does_write x =
    if x.csr_op % 4 == 1
    then true
    else if x.csr_op % 4 == 0
    then false
    else not (x.csr_rs1_or_imm == 0)

unfoldable pub new_val : Inputs → Csr → Vector
new_val x s =
    if x.csr_op % 4 == 1
    then x.csr_wdata
    else if x.csr_op % 4 == 2
    then either (read_value x s) x.csr_wdata
    else if x.csr_op % 4 == 3
    then both (read_value x s) (flip x.csr_wdata)
    else read_value x s

-- csr_addr[9:8]
abbrev pub csr_min_priv : ℕ → ℕ
csr_min_priv a = a / 256 % 4

abbrev pub priv_ok : Inputs → Csr → Bool
priv_ok x s = leb (csr_min_priv x.csr_addr) s.priv_mode

abbrev pub tvm_blocks_satp : Inputs → Csr → Bool
tvm_blocks_satp x s = (x.csr_addr == csr_satp) && (s.priv_mode == prv_s) && s.mstatus tvm_bit

unfoldable pub csr_illegal : Inputs → Csr → Bool
csr_illegal x s =
    not (addr_valid x s)
    || not (priv_ok x s)
    || does_write x && (x.csr_addr / 1024 % 4 == 3)
    || tvm_blocks_satp x s

unfoldable pub do_write : Inputs → Csr → Bool
do_write x s = x.csr_en && does_write x && not (csr_illegal x s)

-- The entries as rtl/core/pmp.sv gets them.
unfoldable pub pmp_cfg_out : Csr → ℕ → ℕ
pmp_cfg_out s i = number 8 (λ k. s.pmpcfg (i / 4) (i % 4 * 8 + k))

unfoldable pub pmp_addr_out : Csr → ℕ → ℕ
pmp_addr_out s i = number 32 (s.pmpaddr i)
