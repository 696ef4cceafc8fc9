-- ===== src/Hw/Csr/Return.antt =====
-- A trap in rtl/core/csr.sv comes back to where it was taken.
use mathlib.Core.Path.{subst}
use qinglong_core.Prelude.{
  ℕ, ◌<◌, ◌≡◌, refl, sym, ap, ◌∙◌, ◌==◌, if◌then◌else◌, Bool, true, false, not, arith,
}
use qinglong_core.Hw.Vector.{Vector, set_bit}
use qinglong_core.Hw.Csr.{Csr, Inputs, prv_m, mie_bit, mpie_bit, sie_bit, spie_bit, spp_bit}
use qinglong_core.Hw.Csr.Edge.{tick, enter_m, enter_s, leave_m, leave_s, mpp, set_mpp, clear_mprv}
use qinglong_core.Hw.Csr.Service.{
  Machine, machine, Interrupted, rest, step, nested, Service, by_machine, by_supervisor,
}
use qinglong_core.Hw.Csr.Still.{Still, Still-clock, Still-Work}
use qinglong_core.Hw.Csr.Entries.{
  delegated_trap, clock_trap_m, clock_trap_s, clock_mret, clock_sret, mepc_entered, sepc_entered,
  entered_lt,
}

-- mstatus behind a trap into machine mode and behind MRET.
abbrev trapped : ℕ → Vector → Vector
trapped p m = set_mpp p (set_bit mie_bit false (set_bit mpie_bit (m mie_bit) m))

abbrev left : Vector → Vector
left m =
    clear_mprv (not (mpp m == prv_m))
      (set_mpp 0 (set_bit mpie_bit true (set_bit mie_bit (m mpie_bit) m)))

mpp-trapped : (p : ℕ) (m : Vector) → p < 4 → mpp (trapped p m) ≡ p
mpp-trapped p m l = ground arith

left_mie : (m : Vector) → left m mie_bit ≡ m mpie_bit
left_mie m = ground arith

left_other : (m : Vector) (k : ℕ) → k < 11 → (k == 3) ≡ false → (k == 7) ≡ false → left m k ≡ m k
left_other m k l e f = ground arith

trapped_other :
    (p : ℕ) (m : Vector) (k : ℕ)
    → k < 11
    → (k == 3) ≡ false
    → (k == 7) ≡ false
    → trapped p m k ≡ m k
trapped_other p m k l e f = ground arith

round_other :
    (p : ℕ) (m n : Vector) (k : ℕ)
    → n ≡ trapped p m
    → k < 11
    → (k == 3) ≡ false
    → (k == 7) ≡ false
    → left n k ≡ m k
round_other p m n k e l f g =
    left_other n k l f g ∙ ap (λ (v : Vector). v k) e ∙ trapped_other p m k l f g

-- The state of the supervisor and the privilege are back.
pub record Restored (s t : Csr) : Type 0 where
  pub priv_mode : t.priv_mode ≡ s.priv_mode
  pub mie : t.mstatus mie_bit ≡ s.mstatus mie_bit
  pub sie : t.mstatus sie_bit ≡ s.mstatus sie_bit

-- With what only machine mode restores.
record Whole (s t : Csr) : Type 0 where
  restored : Restored s t
  spie : t.mstatus spie_bit ≡ s.mstatus spie_bit
  spp : t.mstatus spp_bit ≡ s.mstatus spp_bit
  sepc : t.sepc ≡ s.sepc

Whole-left :
    (x z : Inputs) (s u t : Csr)
    → s.priv_mode < 4
    → Still (enter_m x (tick x s)) u
    → t ≡ leave_m (tick z u)
    → Whole s t
unfolding enter_m leave_m tick
Whole-left x z s u t l k e = record {
  restored = record {
    priv_mode =
        ap (λ (c : Csr). c.priv_mode) e ∙ ap mpp k.mstatus ∙ mpp-trapped s.priv_mode s.mstatus l;
    mie =
        ap (λ (c : Csr). c.mstatus mie_bit) e
        ∙ left_mie u.mstatus
        ∙ ap (λ (v : Vector). v mpie_bit) k.mstatus;
    sie = bit 1 (omega arith) refl refl;
  };
  spie = bit 5 (omega arith) refl refl;
  spp = bit 8 (omega arith) refl refl;
  sepc = ap (λ (c : Csr). c.sepc) e ∙ k.sepc;
}
  where
    bit : (i : ℕ) → i < 11 → (i == 3) ≡ false → (i == 7) ≡ false → t.mstatus i ≡ s.mstatus i
    bit i h f g =
        ap (λ (c : Csr). c.mstatus i) e
        ∙ round_other s.priv_mode s.mstatus u.mstatus i k.mstatus h f g

Machine-Whole :
    {s t : Csr} {from to : Vector} → s.priv_mode < 4 → Machine s t from to → Whole s t × (to ≡ from)
Machine-Whole {s = s} {t = t} l (machine x z u e f w g h ef et eq) =
    let k : Still (enter_m x (tick x s)) u =
      subst (λ (c : Csr). Still c u) (clock_trap_m x s e f) (Still-Work w) in
    (Whole-left x z s u t l k (eq ∙ clock_mret z u g h), et ∙ k.mepc ∙ mepc_entered x s ∙ sym ef)

Whole-Still : {s t : Csr} → Still s t → Whole s t
Whole-Still k = record {
  restored = record {
    priv_mode = k.priv_mode;
    mie = ap (λ (v : Vector). v mie_bit) k.mstatus;
    sie = ap (λ (v : Vector). v sie_bit) k.mstatus;
  };
  spie = ap (λ (v : Vector). v spie_bit) k.mstatus;
  spp = ap (λ (v : Vector). v spp_bit) k.mstatus;
  sepc = k.sepc;
}

Whole-trans : {s t u : Csr} → Whole s t → Whole t u → Whole s u
Whole-trans a b = record {
  restored = record {
    priv_mode = b.restored.priv_mode ∙ a.restored.priv_mode;
    mie = b.restored.mie ∙ a.restored.mie;
    sie = b.restored.sie ∙ a.restored.sie;
  };
  spie = b.spie ∙ a.spie;
  spp = b.spp ∙ a.spp;
  sepc = b.sepc ∙ a.sepc;
}

Interrupted-Whole : {s t : Csr} → s.priv_mode < 4 → Interrupted s t → Whole s t
Interrupted-Whole l rest =
    Whole-Still (record { mstatus = refl; mepc = refl; sepc = refl; priv_mode = refl })
Interrupted-Whole {s = s} l (step x q i) =
    let k = Still-clock x s q in
    Whole-trans (Whole-Still k) (Interrupted-Whole (omega (arith, l, k.priv_mode)) i)
Interrupted-Whole l (nested from to m i) =
    let (k, e) = Machine-Whole l m in
    Whole-trans k (Interrupted-Whole (omega (arith, l, k.restored.priv_mode)) i)

Restored-leave_s :
    (x z : Inputs) (s u : Csr)
    → s.priv_mode < 2
    → Whole (enter_s x (tick x s)) u
    → Restored s (leave_s (tick z u))
unfolding enter_s leave_s tick
Restored-leave_s x z s u l k = record {
  priv_mode = ap (λ (b : Bool). if b then 1 else 0) k.spp ∙ was (s.priv_mode) l;
  mie = other u.mstatus 3 refl refl refl refl ∙ k.restored.mie;
  sie = was_sie u.mstatus ∙ k.spie;
}
  where
    was : (p : ℕ) → p < 2 → (if p == 1 then 1 else 0) ≡ p
    was p h = ground arith

    other :
        (m : Vector) (i : ℕ)
        → (i == 1) ≡ false
        → (i == 5) ≡ false
        → (i == 8) ≡ false
        → (i == 17) ≡ false
        → clear_mprv (not (m 8)) (set_bit 8 false (set_bit 5 true (set_bit 1 (m 5) m))) i ≡ m i
    other m i a b c d = ground arith

    was_sie :
        (m : Vector)
        → clear_mprv (not (m 8)) (set_bit 8 false (set_bit 5 true (set_bit 1 (m 5) m))) 1 ≡ m 5
    was_sie m = ground arith

-- A trap from user, supervisor or machine mode returns to where it came from: after its handler, the
-- privilege and the interrupt enables of both modes are those from before the trap, and the return
-- jumps to the address of the trapped instruction. The handler writes neither mstatus, sstatus, mepc nor sepc; one of the supervisor may be
-- interrupted by complete traps into machine mode.
pub Service-Restored :
    {s t : Csr} {from to : Vector}
    → s.priv_mode < 4
    → (s.priv_mode == 2) ≡ false
    → Service s t from to
    → Restored s t × (to ≡ from)
Service-Restored l valid (by_machine m) = let (k, e) = Machine-Whole l m in (k.restored, e)
Service-Restored {s = s} {t = t} l valid (by_supervisor x z u e i f g h ef et eq) =
    let below : s.priv_mode < 2 = ground (arith, l, valid, (delegated_trap x s e).1) in
    let k : Whole (enter_s x (tick x s)) u =
      subst (λ (c : Csr). Whole c u) (clock_trap_s x s e)
        (Interrupted-Whole (entered_lt x s e) i) in
    (
      subst (λ (c : Csr). Restored s c) (sym (eq ∙ clock_sret z u f g h))
          (Restored-leave_s x z s u below k),
      et ∙ k.sepc ∙ sepc_entered x s ∙ sym ef,
    )
