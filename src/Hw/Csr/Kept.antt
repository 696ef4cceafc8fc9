-- ===== src/Hw/Csr/Kept.antt =====
-- What an edge of rtl/core/csr.sv keeps of the registers of machine mode.
use qinglong_core.Prelude.{
  ℕ, ◌≤◌, ◌≡◌, refl, ap, ◌∙◌, ◌==◌, if◌then◌else◌, Bool, true, false, arith,
}
use qinglong_core.Hw.Vector.{Vector, bits_of}
use qinglong_core.Hw.Csr.{Csr, sstatus_mask, mprv_bit}

-- The registers of machine mode but the counters stand as they were: of mstatus all bits outside the supervisor's
-- view but MPRV, which SRET clears, of mie those not delegated, of mip all but SSIP.
pub record Kept (s t : Csr) : Type 0 where
  pub mtvec : t.mtvec ≡ s.mtvec
  pub mscratch : t.mscratch ≡ s.mscratch
  pub mepc : t.mepc ≡ s.mepc
  pub mcause : t.mcause ≡ s.mcause
  pub mtval : t.mtval ≡ s.mtval
  pub medeleg : t.medeleg ≡ s.medeleg
  pub mideleg : t.mideleg ≡ s.mideleg
  pub pmpcfg : t.pmpcfg ≡ s.pmpcfg
  pub pmpaddr : t.pmpaddr ≡ s.pmpaddr
  pub mstatus :
      (i : ℕ) → bits_of sstatus_mask i ≡ false → (i == mprv_bit) ≡ false → t.mstatus i ≡ s.mstatus i
  pub mie : (i : ℕ) → s.mideleg i ≡ false → t.mie i ≡ s.mie i
  pub mip_sw : (i : ℕ) → bits_of 2 i ≡ false → t.mip_sw i ≡ s.mip_sw i
  pub below : t.priv_mode ≤ 1

pub Kept-trans : (s t u : Csr) → Kept s t → Kept t u → Kept s u
Kept-trans s t u a b = record {
  mtvec = b.mtvec ∙ a.mtvec;
  mscratch = b.mscratch ∙ a.mscratch;
  mepc = b.mepc ∙ a.mepc;
  mcause = b.mcause ∙ a.mcause;
  mtval = b.mtval ∙ a.mtval;
  medeleg = b.medeleg ∙ a.medeleg;
  mideleg = b.mideleg ∙ a.mideleg;
  pmpcfg = b.pmpcfg ∙ a.pmpcfg;
  pmpaddr = b.pmpaddr ∙ a.pmpaddr;
  mstatus = λ i m p. b.mstatus i m p ∙ a.mstatus i m p;
  mie = λ i d. b.mie i (ap (λ (m : Vector). m i) a.mideleg ∙ d) ∙ a.mie i d;
  mip_sw = λ i d. b.mip_sw i d ∙ a.mip_sw i d;
  below = b.below;
}

-- What a supervisor may change: its own registers, the counters by their ticks, and its bits of the
-- shared three.
Kept-supervisor :
    (s : Csr) (mstatus mie mip_sw stvec sscratch sepc scause stval satp : Vector)
    (mcycle minstret priv_mode : ℕ)
    → priv_mode ≤ 1
    → ((i : ℕ) → bits_of sstatus_mask i ≡ false → (i == mprv_bit) ≡ false → mstatus i ≡ s.mstatus i)
    → ((i : ℕ) → s.mideleg i ≡ false → mie i ≡ s.mie i)
    → ((i : ℕ) → bits_of 2 i ≡ false → mip_sw i ≡ s.mip_sw i)
    → Kept s (record s {
      mstatus = mstatus;
      mie = mie;
      mip_sw = mip_sw;
      stvec = stvec;
      sscratch = sscratch;
      sepc = sepc;
      scause = scause;
      stval = stval;
      satp = satp;
      mcycle = mcycle;
      minstret = minstret;
      priv_mode = priv_mode;
    })
Kept-supervisor s mstatus mie mip_sw stvec sscratch sepc scause stval satp mcycle minstret priv_mode
      l keeps_mstatus keeps_mie keeps_mip =
    record {
      mtvec = refl;
      mscratch = refl;
      mepc = refl;
      mcause = refl;
      mtval = refl;
      medeleg = refl;
      mideleg = refl;
      pmpcfg = refl;
      pmpaddr = refl;
      mstatus = keeps_mstatus;
      mie = keeps_mie;
      mip_sw = keeps_mip;
      below = l;
    }

pub Kept-shared :
    (s : Csr) (mstatus mie mip_sw : Vector) (priv_mode : ℕ)
    → priv_mode ≤ 1
    → ((i : ℕ) → bits_of sstatus_mask i ≡ false → (i == mprv_bit) ≡ false → mstatus i ≡ s.mstatus i)
    → ((i : ℕ) → s.mideleg i ≡ false → mie i ≡ s.mie i)
    → ((i : ℕ) → bits_of 2 i ≡ false → mip_sw i ≡ s.mip_sw i)
    → Kept s (record s { mstatus = mstatus; mie = mie; mip_sw = mip_sw; priv_mode = priv_mode })
Kept-shared s mstatus mie mip_sw p =
    Kept-supervisor s mstatus mie mip_sw s.stvec s.sscratch s.sepc s.scause s.stval s.satp s.mcycle
      s.minstret p

-- The registers that only the supervisor has.
pub Kept-own :
    (s : Csr) (stvec sscratch sepc scause stval satp : Vector) (mcycle minstret : ℕ)
    → s.priv_mode ≤ 1
    → Kept s (record s {
      stvec = stvec;
      sscratch = sscratch;
      sepc = sepc;
      scause = scause;
      stval = stval;
      satp = satp;
      mcycle = mcycle;
      minstret = minstret;
    })
Kept-own s stvec sscratch sepc scause stval satp mcycle minstret l =
    Kept-supervisor s s.mstatus s.mie s.mip_sw stvec sscratch sepc scause stval satp mcycle minstret
      s.priv_mode l (λ i m p. refl) (λ i d. refl) (λ i d. refl)

-- A test between two results.
pub Kept-if : (s : Csr) (b : Bool) (t u : Csr) → Kept s t → Kept s u → Kept s (if b then t else u)
Kept-if s true t u kt ku = kt
Kept-if s false t u kt ku = ku

pub not_taken :
    {s v : Csr} (u : Csr) (b : Bool) → b ≡ false → Kept s v → Kept s (if b then u else v)
not_taken u true e k = absurd (ground (arith, e))
not_taken u false e k = k
