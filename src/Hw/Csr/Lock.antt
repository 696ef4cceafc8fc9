-- ===== src/Hw/Csr/Lock.antt =====
-- The lock of an entry of the PMP: rtl/core/csr.sv keeps it, so rtl/core/pmp.sv decides as before.
use qinglong_core.Prelude.{
  ℕ, ◌+◌, ◌-◌, ◌*◌, ◌/◌, ◌<◌, ◌≡◌, refl, ap, ap₂, ◌∙◌, if◌then◌else◌, Bool, true, false, not, ◌&&◌,
  arith, List, [], ◌∷◌,
}
use qinglong_core.Hw.Vector.{Vector}
use qinglong_core.Hw.Csr.{Csr, Inputs}
use qinglong_core.Hw.Csr.Read.{do_write, new_val}
use qinglong_core.Hw.Csr.Write.{
  write, write_s, write_pmp, pmp_l, pmp_is_tor, cfg_bit, pmpaddr_locked, pmpcfg_write_mask,
}
use qinglong_core.Hw.Csr.Edge.{
  after_edges, clock, act, tick, enter_m, enter_s, leave_m, leave_s, trap_to_s,
}

-- A write to any other register leaves the PMP alone.
write-pmpcfg : (a : ℕ) (v : Vector) (s : Csr) → (write a v s).pmpcfg ≡ (write_pmp a v s).pmpcfg
unfolding write write_s write_pmp
write-pmpcfg a v s = ground arith

write-pmpaddr : (a : ℕ) (v : Vector) (s : Csr) → (write a v s).pmpaddr ≡ (write_pmp a v s).pmpaddr
unfolding write write_s write_pmp
write-pmpaddr a v s = ground arith

-- The byte of entry `i` and its addresses stand as they were.
pub record Same (i : ℕ) (s t : Csr) : Type 0 where
  pub byte : (k : ℕ) → k < 8 → t.pmpcfg (i / 4) (cfg_bit i k) ≡ s.pmpcfg (i / 4) (cfg_bit i k)
  pub this : t.pmpaddr i ≡ s.pmpaddr i
  pub prev : 0 < i → pmp_is_tor s i ≡ true → t.pmpaddr (i - 1) ≡ s.pmpaddr (i - 1)

masked_byte :
    (i k : ℕ) (old v : Vector)
    → k < 8
    → old (cfg_bit i 7) ≡ true
    → pmpcfg_write_mask old v (cfg_bit i k) ≡ old (cfg_bit i k)
unfolding pmpcfg_write_mask
masked_byte i k old v l e =
    let at : cfg_bit i k / 8 * 8 + 7 ≡ cfg_bit i 7 = omega (arith, l) in rw (ap old at ∙ e) refl

Same-write_pmp :
    (i a : ℕ) (v : Vector) (s : Csr) → i < 16 → pmp_l s i ≡ true → Same i s (write_pmp a v s)
unfolding write_pmp pmpaddr_locked
Same-write_pmp i a v s l e = record {
  byte = λ k h. ground (arith, masked_byte i k (s.pmpcfg (i / 4)) v h e);
  this = ground arith;
  prev = λ p t. ground arith;
}

Same-write : (i a : ℕ) (v : Vector) (s : Csr) → i < 16 → pmp_l s i ≡ true → Same i s (write a v s)
Same-write i a v s l e =
    let w = Same-write_pmp i a v s l e in
    record {
      byte =
          λ k h. ap (λ (r : ℕ → Vector). r (i / 4) (cfg_bit i k)) (write-pmpcfg a v s) ∙ w.byte k h;
      this = ap (λ (r : ℕ → Vector). r i) (write-pmpaddr a v s) ∙ w.this;
      prev = λ p t. ap (λ (r : ℕ → Vector). r (i - 1)) (write-pmpaddr a v s) ∙ w.prev p t;
    }

-- The registers of the PMP are those of another state.
Same-equal : (i : ℕ) (s t : Csr) → t.pmpcfg ≡ s.pmpcfg → t.pmpaddr ≡ s.pmpaddr → Same i s t
Same-equal i s t c a = record {
  byte = λ k h. ap (λ (r : ℕ → Vector). r (i / 4) (cfg_bit i k)) c;
  this = ap (λ (r : ℕ → Vector). r i) a;
  prev = λ p t. ap (λ (r : ℕ → Vector). r (i - 1)) a;
}

Same-act : (i : ℕ) (x : Inputs) (s t : Csr) → i < 16 → pmp_l t i ≡ true → Same i t (act x s t)
unfolding act enter_m enter_s leave_m leave_s
Same-act i x s t l e =
    choose x.trap_take
      (choose (trap_to_s x s) (Same-equal i t (enter_s x t) refl refl)
        (Same-equal i t (enter_m x t) refl refl))
      (choose x.mret (Same-equal i t (leave_m t) refl refl) (
        choose x.sret (Same-equal i t (leave_s t) refl refl) (
          choose (do_write x s) (Same-write i x.csr_addr (new_val x s) t l e)
            (Same-equal i t t refl refl))))
  where
    choose : {u v : Csr} (b : Bool) → Same i t u → Same i t v → Same i t (if b then u else v)
    choose true p q = p
    choose false p q = q

Same-clock : (i : ℕ) (x : Inputs) (s : Csr) → i < 16 → pmp_l s i ≡ true → Same i s (clock false x s)
unfolding clock tick
Same-clock i x s l e =
    let a = Same-act i x s (tick x s) l e in record { byte = a.byte; this = a.this; prev = a.prev }

Same-trans : (i : ℕ) (s t u : Csr) → Same i s t → Same i t u → Same i s u
Same-trans i s t u a b = record {
  byte = λ k h. b.byte k h ∙ a.byte k h;
  this = b.this ∙ a.this;
  prev = λ p e. b.prev p (tor (a.byte 3 (omega arith)) (a.byte 4 (omega arith)) e) ∙ a.prev p e;
}
  where
    tor :
        t.pmpcfg (i / 4) (cfg_bit i 3) ≡ s.pmpcfg (i / 4) (cfg_bit i 3)
        → t.pmpcfg (i / 4) (cfg_bit i 4) ≡ s.pmpcfg (i / 4) (cfg_bit i 4)
        → pmp_is_tor s i ≡ true
        → pmp_is_tor t i ≡ true
    tor three four e = ap₂ (λ (p q : Bool). p && not q) three four ∙ e

pub Same-after_edges :
    (i : ℕ) (xs : List Inputs) (s : Csr) → i < 16 → pmp_l s i ≡ true → Same i s (after_edges xs s)
unfolding after_edges
Same-after_edges i [] s l e = Same-equal i s s refl refl
Same-after_edges i (x ∷ xs) s l e =
    let c = Same-clock i x s l e in
    Same-trans i s (clock false x s) (after_edges xs (clock false x s)) c
      (Same-after_edges i xs (clock false x s) l (c.byte 7 (omega arith) ∙ e))
