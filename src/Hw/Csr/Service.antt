-- ===== src/Hw/Csr/Service.antt =====
-- Handlers of traps in rtl/core/csr.sv, as sequences of edges.
use qinglong_core.Prelude.{ℕ, ◌≡◌, ◌==◌, Bool, true, false, not, ◌&&◌, ◌||◌}
use qinglong_core.Hw.Vector.{Vector}
use qinglong_core.Hw.Csr.{Csr, Inputs}
use qinglong_core.Hw.Csr.Address.{csr_mstatus, csr_sstatus, csr_mepc, csr_sepc}
use qinglong_core.Hw.Csr.Read.{do_write}
use qinglong_core.Hw.Csr.Edge.{clock, trap_to_s}

abbrev pub touches : ℕ → Bool
touches a = (a == csr_mstatus) || (a == csr_sstatus) || (a == csr_mepc) || (a == csr_sepc)

-- An edge without trap and return that writes neither status nor the address to return to.
abbrev pub quiet : Inputs → Csr → Bool
quiet x s = not x.trap_take && not x.mret && not x.sret && not (do_write x s && touches x.csr_addr)

-- The work of a handler.
pub data Work : Csr → Csr → Type 0 where
  rest : {s : Csr} → Work s s
  step : {s t : Csr} (x : Inputs) → quiet x s ≡ true → Work (clock false x s) t → Work s t

-- A trap into machine mode, its handler, and MRET; `from` is the address of the trapped
-- instruction, `to` the one that MRET jumps to.
pub data Machine (s t : Csr) (from to : Vector) : Type 0 where
  machine :
      (x z : Inputs) (u : Csr)
      → x.trap_take ≡ true
      → trap_to_s x s ≡ false
      → Work (clock false x s) u
      → z.trap_take ≡ false
      → z.mret ≡ true
      → from ≡ x.trap_pc
      → to ≡ u.mepc
      → t ≡ clock false z u
      → Machine s t from to

-- The work of a supervisor's handler, with complete traps into machine mode in between.
pub data Interrupted : Csr → Csr → Type 0 where
  rest : {s : Csr} → Interrupted s s
  step :
      {s t : Csr} (x : Inputs)
      → quiet x s ≡ true
      → Interrupted (clock false x s) t
      → Interrupted s t
  nested :
      {s u t : Csr} (from to : Vector) → Machine s u from to → Interrupted u t → Interrupted s t

-- A trap from its entry to its return, in machine mode or in supervisor mode.
pub data Service (s t : Csr) (from to : Vector) : Type 0 where
  by_machine : Machine s t from to → Service s t from to
  by_supervisor :
      (x z : Inputs) (u : Csr)
      → trap_to_s x s ≡ true
      → Interrupted (clock false x s) u
      → z.trap_take ≡ false
      → z.mret ≡ false
      → z.sret ≡ true
      → from ≡ x.trap_pc
      → to ≡ u.sepc
      → t ≡ clock false z u
      → Service s t from to
