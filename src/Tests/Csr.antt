-- ===== src/Tests/Csr.antt =====
-- The registers on short runs: a supervisor at work, an attempt on a locked entry, and a system call
-- whose handler is interrupted by the machine's timer.
use qinglong_core.Prelude.{
  ℕ, zero, suc, ◌≤◌, ◌≡◌, refl, ◌==◌, if◌then◌else◌, true, false, List, [], ◌∷◌, arith,
}
use qinglong_core.Hw.Vector.{no_bits, bits_of, number, some_bit}
use qinglong_core.Hw.Csr.{Csr, Inputs, reset_csr}
use qinglong_core.Hw.Csr.Address.{
  csr_sscratch, csr_mscratch, csr_pmpcfg0, csr_pmpaddr0, csr_mstatus,
}
use qinglong_core.Hw.Csr.Read.{
  mip_live, read_m, read_s, read_pmp, does_write, new_val, csr_illegal, do_write, pmp_cfg_out,
  pmp_addr_out, m_irq_live, s_irq_live, irq_cause,
}
use qinglong_core.Hw.Csr.Write.{write, write_s, write_pmp, pmp_l}
use qinglong_core.Hw.Csr.Edge.{
  clock, act, tick, enter_m, enter_s, leave_m, leave_s, trap_to_s, delegated, after_edges,
}
use qinglong_core.Hw.Csr.Kept.{Kept}
use qinglong_core.Hw.Csr.Isolation.{only_below, after_edges-Kept}
use qinglong_core.Hw.Csr.Decision.{faults, covered_by, fault-after_edges}
use qinglong_core.Hw.Csr.Service.{Machine, machine, Interrupted, Service, by_supervisor, Work}
use qinglong_core.Hw.Csr.Return.{Restored, Service-Restored}
use qinglong_core.Hw.Pmp.{Access, match_napot, entry_match, entry_allowed, any_active, pick, fault}
use qinglong_core.Hw.Pmp.Check.{covers, entry_covers}
use qinglong_core.Hw.Pmp.Napot.{granule}

abbrev nothing : Inputs
nothing = record {
  csr_en = false;
  csr_op = 0;
  csr_addr = 0;
  csr_rs1_or_imm = 0;
  csr_wdata = no_bits;
  trap_take = false;
  trap_pc = no_bits;
  trap_cause = no_bits;
  trap_tval = no_bits;
  mret = false;
  sret = false;
  retire = false;
  ext_mti = false;
  ext_msi = false;
  ext_mei = false;
  ext_sei = false;
  mtime = 0;
}

abbrev csrrw : ℕ → ℕ → Inputs
csrrw a v = record nothing { csr_en = true; csr_op = 1; csr_addr = a; csr_wdata = bits_of v }

abbrev do_mret : Inputs
do_mret = record nothing { mret = true }

abbrev do_sret : Inputs
do_sret = record nothing { sret = true }

abbrev trap : ℕ → ℕ → Inputs
trap cause pc = record nothing {
  trap_take = true;
  trap_cause = bits_of cause;
  trap_pc = bits_of pc;
}

abbrev supervisor : Csr
supervisor = record reset_csr { priv_mode = 1; mscratch = bits_of 77 }

-- A supervisor writes its own scratch register but not the machine's, which is illegal, and returns
-- to the user.
abbrev its_work : List Inputs
its_work = csrrw csr_sscratch 5 ∷ csrrw csr_mscratch 6 ∷ do_sret ∷ []

at_work :
    (number 8 (after_edges its_work supervisor).sscratch ≡ 5)
    × (number 8 (after_edges its_work supervisor).mscratch ≡ 77)
    × ((after_edges its_work supervisor).priv_mode ≡ 0)
    × (csr_illegal (csrrw csr_mscratch 6) supervisor ≡ true)
unfolding after_edges clock act tick leave_s do_write does_write csr_illegal new_val write write_s
    write_pmp read_m read_s read_pmp mip_live trap_to_s number
at_work = (refl, refl, refl, refl)

after_edges-Kept_example : Kept supervisor (after_edges its_work supervisor)
unfolding only_below
after_edges-Kept_example = after_edges-Kept its_work supervisor (omega arith) refl

-- The first entry is locked: nobody may touch the eight bytes at 0x80000000.
abbrev guarded : Csr
guarded = record reset_csr {
  pmpcfg = λ i. if i == 0 then bits_of 0x98 else no_bits;
  pmpaddr = λ i. if i == 0 then bits_of 0x20000000 else no_bits;
}

abbrev attack : List Inputs
attack =
    csrrw csr_pmpcfg0 0 ∷ csrrw csr_pmpaddr0 0 ∷ trap 2 0x80000100 ∷ csrrw csr_pmpcfg0 0x1F ∷ []

abbrev peek : Access
peek = record { priv = 3; addr = 0x80000004; is_read = true; is_write = false; is_exec = false }

peek-faults : faults peek guarded ≡ true
unfolding fault pick any_active entry_match entry_allowed match_napot pmp_cfg_out pmp_addr_out
    number
peek-faults = refl

peek-covered_by : covered_by peek guarded 0 ≡ true
unfolding entry_covers covers granule pmp_cfg_out pmp_addr_out number
peek-covered_by = refl

first_locked : (j : ℕ) → j ≤ 0 → pmp_l guarded j ≡ true
first_locked zero l = refl
first_locked (suc j) l = absurd (omega (arith, l))

fault-after_edges_example : faults peek (after_edges attack guarded) ≡ faults peek guarded
fault-after_edges_example =
    fault-after_edges peek 0 attack guarded (omega arith) first_locked peek-covered_by

-- A user whose system calls go to the supervisor.
abbrev user : Csr
user = record reset_csr { priv_mode = 0; mstatus = bits_of 0xA; medeleg = bits_of 0x100 }

-- The call, a step of its handler, the timer, a step of the machine's handler, and the two returns.
abbrev call : Inputs
call = trap 8 0x1000

abbrev in_handler : Csr
in_handler = clock false (csrrw csr_sscratch 5) (clock false call user)

abbrev timer : Inputs
timer = trap 0x80000007 0x2004

abbrev in_machine : Csr
in_machine = clock false (csrrw csr_mscratch 9) (clock false timer in_handler)

abbrev resumed : Csr
resumed = clock false do_mret in_machine

abbrev back : Csr
back = clock false do_sret resumed

back_at_user :
    (number 32 resumed.sepc ≡ 0x1000)
    × (number 32 in_machine.mepc ≡ 0x2004)
    × (resumed.priv_mode ≡ 1)
    × (back.priv_mode ≡ 0)
    × (back.mstatus 1 ≡ true)
unfolding clock act tick enter_m enter_s leave_m leave_s do_write does_write csr_illegal new_val
    write write_s write_pmp read_m read_s read_pmp mip_live trap_to_s delegated number
back_at_user = (refl, refl, refl, refl, refl)

-- The timer is pending, for the machine, whatever the supervisor enables.
timer_pending :
    (m_irq_live (record nothing { ext_mti = true }) (record supervisor { mie = bits_of 0x80 })
      ≡ true)
    × (irq_cause (record nothing { ext_mti = true }) (record supervisor { mie = bits_of 0x80 })
        ≡ 0x80000007)
unfolding m_irq_live s_irq_live irq_cause some_bit mip_live
timer_pending = (refl, refl)

timer_served : Machine in_handler resumed (bits_of 0x2004) in_machine.mepc
unfolding clock act tick enter_m enter_s leave_m leave_s do_write does_write csr_illegal new_val
    write write_s write_pmp read_m read_s read_pmp mip_live trap_to_s delegated number
timer_served =
    machine timer do_mret in_machine refl refl (Work.step (csrrw csr_mscratch 9) refl Work.rest)
      refl refl refl refl refl

call_served : Service user back (bits_of 0x1000) resumed.sepc
unfolding clock act tick enter_m enter_s leave_m leave_s do_write does_write csr_illegal new_val
    write write_s write_pmp read_m read_s read_pmp mip_live trap_to_s delegated number
call_served =
    by_supervisor call do_sret resumed refl
      (Interrupted.step (csrrw csr_sscratch 5) refl
        (Interrupted.nested (bits_of 0x2004) in_machine.mepc timer_served Interrupted.rest))
      refl refl refl refl refl refl

Service-Restored_example : Restored user back × (resumed.sepc ≡ bits_of 0x1000)
Service-Restored_example = Service-Restored (omega arith) refl call_served

-- mstatus takes the reserved value 2 for MPP, and MRET then enters a mode that does not exist.
reserved_mode :
    (clock false do_mret (clock false (csrrw csr_mstatus 0x1000) reset_csr)).priv_mode ≡ 2
unfolding clock act tick leave_m do_write does_write csr_illegal new_val write read_m read_s
    read_pmp mip_live trap_to_s
reserved_mode = refl
