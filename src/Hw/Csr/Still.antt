-- ===== src/Hw/Csr/Still.antt =====
-- The edges of rtl/core/csr.sv that leave alone what a return reads.
use qinglong_core.Prelude.{
  ℕ, ◌≡◌, refl, sym, ap, ◌∙◌, if◌then◌else◌, Bool, true, false, ◌&&◌, arith, Bool-cases, inl, inr,
}
use qinglong_core.Hw.Vector.{Vector}
use qinglong_core.Hw.Csr.{Csr, Inputs}
use qinglong_core.Hw.Csr.Read.{do_write, new_val}
use qinglong_core.Hw.Csr.Write.{write, write_s, write_pmp}
use qinglong_core.Hw.Csr.Edge.{clock, act, tick}
use qinglong_core.Hw.Csr.Service.{touches, quiet, Work, rest, step}

-- Nothing that a return reads has changed.
pub record Still (s t : Csr) : Type 0 where
  pub mstatus : t.mstatus ≡ s.mstatus
  pub mepc : t.mepc ≡ s.mepc
  pub sepc : t.sepc ≡ s.sepc
  pub priv_mode : t.priv_mode ≡ s.priv_mode

Still-write : (a : ℕ) (v : Vector) (s : Csr) → touches a ≡ false → Still s (write a v s)
unfolding write write_s write_pmp
Still-write a v s e = record {
  mstatus = ground arith;
  mepc = ground arith;
  sepc = ground arith;
  priv_mode = ground arith;
}

Still-act :
    (x : Inputs) (s t : Csr)
    → (do_write x s && touches x.csr_addr) ≡ false
    → Still t (if do_write x s then write x.csr_addr (new_val x s) t else t)
Still-act x s t q = elim (Bool-cases (do_write x s)) [
  | inl w ↦ rw w (
      Still-write x.csr_addr (new_val x s) t
        (ap (λ (b : Bool). b && touches x.csr_addr) (sym w) ∙ q))
  | inr o ↦ rw o (record { mstatus = refl; mepc = refl; sepc = refl; priv_mode = refl })
]

act-plain :
    (x : Inputs) (s t : Csr)
    → x.trap_take ≡ false
    → x.mret ≡ false
    → x.sret ≡ false
    → act x s t ≡ (if do_write x s then write x.csr_addr (new_val x s) t else t)
unfolding act
act-plain x s t a b c = none_of _ _ _ _ x.trap_take x.mret x.sret a b c
  where
    none_of :
        (u v w y : Csr) (p q r : Bool)
        → p ≡ false
        → q ≡ false
        → r ≡ false
        → (if p then u else if q then v else if r then w else y) ≡ y
    none_of u v w y p q r e f g = ground (arith, e, f, g)

pub Still-clock : (x : Inputs) (s : Csr) → quiet x s ≡ true → Still s (clock false x s)
unfolding clock tick
Still-clock x s q =
    let p = act-plain x s (tick x s) (ground (arith, q)) (ground (arith, q)) (ground (arith, q)) in
    let k = Still-act x s (tick x s) (ground (arith, q)) in
    record {
      mstatus = ap (λ (c : Csr). c.mstatus) p ∙ k.mstatus;
      mepc = ap (λ (c : Csr). c.mepc) p ∙ k.mepc;
      sepc = ap (λ (c : Csr). c.sepc) p ∙ k.sepc;
      priv_mode = ap (λ (c : Csr). c.priv_mode) p ∙ k.priv_mode;
    }

pub Still-Work : {s t : Csr} → Work s t → Still s t
Still-Work rest = record { mstatus = refl; mepc = refl; sepc = refl; priv_mode = refl }
Still-Work {s = s} (step x q w) =
    let a = Still-clock x s q in
    let b = Still-Work w in
    record {
      mstatus = b.mstatus ∙ a.mstatus;
      mepc = b.mepc ∙ a.mepc;
      sepc = b.sepc ∙ a.sepc;
      priv_mode = b.priv_mode ∙ a.priv_mode;
    }
