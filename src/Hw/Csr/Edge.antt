-- ===== src/Hw/Csr/Edge.antt =====
-- The block under `always_ff` of rtl/core/csr.sv: the registers after a rising edge.
use qinglong_core.Prelude.{
  ℕ, ◌+◌, ◌/◌, ◌%◌, ◌^◌, ◌==◌, if◌then◌else◌, Bool, true, false, not, ◌&&◌, ◌||◌, List, [], ◌∷◌,
}
use qinglong_core.Hw.Vector.{Vector, set_bit, number}
use qinglong_core.Hw.Csr.{
  Csr, Inputs, reset_csr, prv_u, prv_s, prv_m, sie_bit, mie_bit, spie_bit, mpie_bit, spp_bit,
  mpp_lo, mpp_hi, mprv_bit,
}
use qinglong_core.Hw.Csr.Address.{csr_mcycle, csr_mcycleh, csr_minstret, csr_minstreth}
use qinglong_core.Hw.Csr.Read.{do_write, new_val}
use qinglong_core.Hw.Csr.Write.{write}

-- mstatus[12:11]
abbrev pub mpp : Vector → ℕ
mpp m = (if m mpp_hi then 2 else 0) + (if m mpp_lo then 1 else 0)

abbrev pub set_mpp : ℕ → Vector → Vector
set_mpp p m = set_bit mpp_hi (p / 2 % 2 == 1) (set_bit mpp_lo (p % 2 == 1) m)

-- The bit of the delegation register with the number trap_cause[4:0].
unfoldable pub delegated : Inputs → Csr → Bool
delegated x s =
    if x.trap_cause 31 then s.mideleg (number 5 x.trap_cause) else s.medeleg (number 5 x.trap_cause)

unfoldable pub trap_to_s : Inputs → Csr → Bool
trap_to_s x s = x.trap_take && not (s.priv_mode == prv_m) && delegated x s

-- The counters, which an instruction's write to them stops for this edge.
unfoldable pub tick : Inputs → Csr → Csr
tick x s = record s {
  mcycle =
      if do_write x s && ((x.csr_addr == csr_mcycle) || (x.csr_addr == csr_mcycleh))
      then s.mcycle
      else (s.mcycle + 1) % 2 ^ 64;
  minstret =
      if x.retire
        && not (do_write x s && ((x.csr_addr == csr_minstret) || (x.csr_addr == csr_minstreth)))
      then (s.minstret + 1) % 2 ^ 64
      else s.minstret;
}

unfoldable pub enter_s : Inputs → Csr → Csr
enter_s x s = record s {
  sepc = x.trap_pc;
  scause = x.trap_cause;
  stval = x.trap_tval;
  mstatus =
      set_bit spp_bit (s.priv_mode == prv_s)
        (set_bit sie_bit false (set_bit spie_bit (s.mstatus sie_bit) s.mstatus));
  priv_mode = prv_s;
}

unfoldable pub enter_m : Inputs → Csr → Csr
enter_m x s = record s {
  mepc = x.trap_pc;
  mcause = x.trap_cause;
  mtval = x.trap_tval;
  mstatus =
      set_mpp s.priv_mode (set_bit mie_bit false (set_bit mpie_bit (s.mstatus mie_bit) s.mstatus));
  priv_mode = prv_m;
}

-- A return below machine mode clears MPRV.
abbrev pub clear_mprv : Bool → Vector → Vector
clear_mprv below m = if below then set_bit mprv_bit false m else m

unfoldable pub leave_m : Csr → Csr
leave_m s = record s {
  mstatus =
      clear_mprv (not (mpp s.mstatus == prv_m))
        (set_mpp prv_u (set_bit mpie_bit true (set_bit mie_bit (s.mstatus mpie_bit) s.mstatus)));
  priv_mode = mpp s.mstatus;
}

unfoldable pub leave_s : Csr → Csr
leave_s s = record s {
  mstatus = clear_mprv (not (s.mstatus spp_bit)) (
      set_bit spp_bit false
        (set_bit spie_bit true (set_bit sie_bit (s.mstatus spie_bit) s.mstatus)));
  priv_mode = if s.mstatus spp_bit then prv_s else prv_u;
}

-- The second part of the block: trap, returns, or the write; what is read is `s`, before the edge,
-- and `t` has the counters already.
unfoldable pub act : Inputs → Csr → Csr → Csr
act x s t =
    if x.trap_take
    then (if trap_to_s x s then enter_s x t else enter_m x t)
    else if x.mret
    then leave_m t
    else if x.sret
    then leave_s t
    else if do_write x s
    then write x.csr_addr (new_val x s) t
    else t

unfoldable pub clock : Bool → Inputs → Csr → Csr
clock rst x s = if rst then reset_csr else act x s (tick x s)

-- The registers after the edges of a list of inputs, without reset.
unfoldable pub after_edges : List Inputs → Csr → Csr
after_edges [] s = s
after_edges (x ∷ xs) s = after_edges xs (clock false x s)
