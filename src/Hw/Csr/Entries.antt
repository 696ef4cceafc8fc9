-- ===== src/Hw/Csr/Entries.antt =====
-- The edges of rtl/core/csr.sv on which a trap is taken, or a return executed.
use mathlib.Core.Path.{subst}
use qinglong_core.Prelude.{◌<◌, ◌≡◌, refl, sym, ◌∙◌, ◌==◌, if◌then◌else◌, Bool, true, false, arith}
use qinglong_core.Hw.Csr.{Csr, Inputs, prv_m}
use qinglong_core.Hw.Csr.Edge.{clock, act, tick, enter_m, enter_s, leave_m, leave_s, trap_to_s}

-- The four edges of traps and returns.
act_trap :
    (x : Inputs) (s t : Csr)
    → x.trap_take ≡ true
    → act x s t ≡ (if trap_to_s x s then enter_s x t else enter_m x t)
unfolding act
act_trap x s t e = ground (arith, e)

act_mret : (x : Inputs) (s t : Csr) → x.trap_take ≡ false → x.mret ≡ true → act x s t ≡ leave_m t
unfolding act
act_mret x s t e f = ground (arith, e, f)

act_sret :
    (x : Inputs) (s t : Csr)
    → x.trap_take ≡ false
    → x.mret ≡ false
    → x.sret ≡ true
    → act x s t ≡ leave_s t
unfolding act
act_sret x s t e f g = ground (arith, e, f, g)

pub clock_trap_m :
    (x : Inputs) (s : Csr)
    → x.trap_take ≡ true
    → trap_to_s x s ≡ false
    → clock false x s ≡ enter_m x (tick x s)
unfolding clock
clock_trap_m x s e f = act_trap x s (tick x s) e ∙ if_false (trap_to_s x s) f
  where
    if_false :
        (b : Bool)
        → b ≡ false
        → (if b then enter_s x (tick x s) else enter_m x (tick x s)) ≡ enter_m x (tick x s)
    if_false b h = ground (arith, h)

pub delegated_trap :
    (x : Inputs) (s : Csr)
    → trap_to_s x s ≡ true
    → (x.trap_take ≡ true) × ((s.priv_mode == prv_m) ≡ false)
unfolding trap_to_s
delegated_trap x s e = (ground (arith, e), ground (arith, e))

pub clock_trap_s :
    (x : Inputs) (s : Csr) → trap_to_s x s ≡ true → clock false x s ≡ enter_s x (tick x s)
unfolding clock
clock_trap_s x s f = act_trap x s (tick x s) (delegated_trap x s f).0 ∙ if_true (trap_to_s x s) f
  where
    if_true :
        (b : Bool)
        → b ≡ true
        → (if b then enter_s x (tick x s) else enter_m x (tick x s)) ≡ enter_s x (tick x s)
    if_true b h = ground (arith, h)

pub clock_mret :
    (z : Inputs) (u : Csr)
    → z.trap_take ≡ false
    → z.mret ≡ true
    → clock false z u ≡ leave_m (tick z u)
unfolding clock
clock_mret z u e f = act_mret z u (tick z u) e f

pub clock_sret :
    (z : Inputs) (u : Csr)
    → z.trap_take ≡ false
    → z.mret ≡ false
    → z.sret ≡ true
    → clock false z u ≡ leave_s (tick z u)
unfolding clock
clock_sret z u e f g = act_sret z u (tick z u) e f g

pub sepc_entered : (x : Inputs) (s : Csr) → (enter_s x (tick x s)).sepc ≡ x.trap_pc
unfolding enter_s
sepc_entered x s = refl

pub entered_lt : (x : Inputs) (s : Csr) → trap_to_s x s ≡ true → (clock false x s).priv_mode < 4
unfolding enter_s
entered_lt x s e = subst (λ (c : Csr). c.priv_mode < 4) (sym (clock_trap_s x s e)) (omega arith)

pub mepc_entered : (x : Inputs) (s : Csr) → (enter_m x (tick x s)).mepc ≡ x.trap_pc
unfolding enter_m
mepc_entered x s = refl
