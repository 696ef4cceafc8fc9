-- ===== src/Hw/Csr/Write.antt =====
-- The writes of rtl/core/csr.sv: the `case` of an instruction's write.
use qinglong_core.Prelude.{
  ℕ, ◌+◌, ◌-◌, ◌*◌, ◌/◌, ◌%◌, ◌^◌, ◌==◌, ltb, if◌then◌else◌, Bool, false, not, ◌&&◌, ◌||◌,
}
use qinglong_core.Hw.Vector.{put, Vector, bits_of, number, both, merge}
use qinglong_core.Hw.Csr.{Csr, sstatus_mask}
use qinglong_core.Hw.Csr.Address.{
  csr_mstatus, csr_medeleg, csr_mideleg, csr_mie, csr_mtvec, csr_mscratch, csr_mepc, csr_mcause,
  csr_mtval, csr_mip, csr_mcycle, csr_minstret, csr_mcycleh, csr_minstreth, csr_pmpcfg0,
  csr_pmpaddr0, csr_sstatus, csr_sie, csr_stvec, csr_sscratch, csr_sepc, csr_scause, csr_stval,
  csr_sip, csr_satp, is_pmpcfg, is_pmpaddr,
}

abbrev pub mstatus_writable : ℕ
mstatus_writable = 0x005E19AA

abbrev pub mie_writable : ℕ
mie_writable = 0x00000AAA

abbrev pub mip_m_writable : ℕ
mip_m_writable = 0x00000222

abbrev pub mip_s_writable : ℕ
mip_s_writable = 0x00000002

-- The number of the bit `k` of entry `i` in its register, which is the one with number i / 4.
abbrev pub cfg_bit : ℕ → ℕ → ℕ
cfg_bit i k = i % 4 * 8 + k

abbrev pub pmp_l : Csr → ℕ → Bool
pmp_l s i = s.pmpcfg (i / 4) (cfg_bit i 7)

-- The mode of the entry is 1.
abbrev pub pmp_is_tor : Csr → ℕ → Bool
pmp_is_tor s i = s.pmpcfg (i / 4) (cfg_bit i 3) && not (s.pmpcfg (i / 4) (cfg_bit i 4))

unfoldable pub pmpaddr_locked : Csr → ℕ → Bool
pmpaddr_locked s i =
    if i == 15 then pmp_l s i else pmp_l s i || pmp_l s (i + 1) && pmp_is_tor s (i + 1)

-- For each of the four bytes: a locked one stays.
unfoldable pub pmpcfg_write_mask : Vector → Vector → Vector
pmpcfg_write_mask old wb_new i = if old (i / 8 * 8 + 7) then old i else wb_new i

unfoldable pub write_pmp : ℕ → Vector → Csr → Csr
write_pmp a v s =
    if is_pmpcfg a
    then (let i = a - csr_pmpcfg0 in
        record s { pmpcfg = put i (pmpcfg_write_mask (s.pmpcfg i) v) s.pmpcfg })
    else if is_pmpaddr a
    then (let i = a - csr_pmpaddr0 in
        if not (pmpaddr_locked s i) then record s { pmpaddr = put i v s.pmpaddr } else s)
    else s

-- { v[31:2], 1'b0, v[0] }
abbrev pub vector_base : Vector → Vector
vector_base v i = if i == 1 then false else v i

-- { v[31:2], 2'b00 }
abbrev pub aligned : Vector → Vector
aligned v i = if ltb i 2 then false else v i

-- `c[31:0] <= v` and `c[63:32] <= v`
abbrev pub put_low : Vector → ℕ → ℕ
put_low v c = c / 2 ^ 32 * 2 ^ 32 + number 32 v

abbrev pub put_high : Vector → ℕ → ℕ
put_high v c = number 32 v * 2 ^ 32 + c % 2 ^ 32

unfoldable pub write_s : ℕ → Vector → Csr → Csr
write_s a v s =
    if a == csr_sstatus
    then record s { mstatus = merge (bits_of sstatus_mask) s.mstatus v }
    else if a == csr_sie
    then record s { mie = merge s.mideleg s.mie (both v (bits_of mie_writable)) }
    else if a == csr_sip
    then record s { mip_sw = merge (bits_of mip_s_writable) s.mip_sw (both v s.mideleg) }
    else if a == csr_stvec
    then record s { stvec = vector_base v }
    else if a == csr_sscratch
    then record s { sscratch = v }
    else if a == csr_sepc
    then record s { sepc = aligned v }
    else if a == csr_scause
    then record s { scause = v }
    else if a == csr_stval
    then record s { stval = v }
    else if a == csr_satp
    then record s { satp = v }
    else write_pmp a v s

unfoldable pub write : ℕ → Vector → Csr → Csr
write a v s =
    if a == csr_mstatus
    then record s { mstatus = merge (bits_of mstatus_writable) s.mstatus v }
    else if a == csr_medeleg
    then record s { medeleg = both v (bits_of 0x0000B3FF) }
    else if a == csr_mideleg
    then record s { mideleg = both v (bits_of 0x00000222) }
    else if a == csr_mie
    then record s { mie = merge (bits_of mie_writable) s.mie v }
    else if a == csr_mip
    then record s { mip_sw = merge (bits_of mip_m_writable) s.mip_sw v }
    else if a == csr_mtvec
    then record s { mtvec = vector_base v }
    else if a == csr_mscratch
    then record s { mscratch = v }
    else if a == csr_mepc
    then record s { mepc = aligned v }
    else if a == csr_mcause
    then record s { mcause = v }
    else if a == csr_mtval
    then record s { mtval = v }
    else if a == csr_mcycle
    then record s { mcycle = put_low v s.mcycle }
    else if a == csr_mcycleh
    then record s { mcycle = put_high v s.mcycle }
    else if a == csr_minstret
    then record s { minstret = put_low v s.minstret }
    else if a == csr_minstreth
    then record s { minstret = put_high v s.minstret }
    else write_s a v s
