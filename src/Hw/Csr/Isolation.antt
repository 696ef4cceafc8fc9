-- ===== src/Hw/Csr/Isolation.antt =====
-- What instructions below machine mode can change of the registers of rtl/core/csr.sv.
use mathlib.Core.Path.{subst}
use qinglong_core.Prelude.{
  ℕ, ◌≤◌, ◌≡◌, refl, sym, ◌==◌, if◌then◌else◌, Bool, true, false, not, ◌&&◌, ◌⊎◌, arith, Bool-cases,
  inl, inr, List, [], ◌∷◌,
}
use qinglong_core.Hw.Vector.{Vector, bits_of, both, merge}
use qinglong_core.Hw.Csr.{Csr, Inputs, sstatus_mask}
use qinglong_core.Hw.Csr.Address.{
  csr_sstatus, csr_sie, csr_sip, csr_stvec, csr_sscratch, csr_sepc, csr_scause, csr_stval, csr_satp,
}
use qinglong_core.Hw.Csr.Read.{do_write, new_val, csr_illegal, csr_min_priv}
use qinglong_core.Hw.Csr.Write.{
  write, write_s, write_pmp, vector_base, aligned, mie_writable, mip_s_writable,
}
use qinglong_core.Hw.Csr.Edge.{after_edges, clock, act, tick, leave_s}
use qinglong_core.Hw.Csr.Kept.{Kept, Kept-trans, Kept-shared, Kept-own, Kept-if, not_taken}

write-write_s : (a : ℕ) (v : Vector) (s : Csr) → csr_min_priv a ≤ 1 → write a v s ≡ write_s a v s
unfolding write
write-write_s a v s l = ground arith

write_pmp_same : (a : ℕ) (v : Vector) (s : Csr) → csr_min_priv a ≤ 1 → write_pmp a v s ≡ s
unfolding write_pmp
write_pmp_same a v s l = ground arith

-- A bit outside a mask is none of those inside.
outside : (mask i k : ℕ) → bits_of mask k ≡ true → bits_of mask i ≡ false → (i == k) ≡ false
outside mask i k inside o = ground arith

-- `merge` keeps the bits outside its mask.
merge_outside : (mask old v : Vector) (i : ℕ) → mask i ≡ false → merge mask old v i ≡ old i
merge_outside mask old v i o = ground arith

Kept-write_s :
    (a : ℕ) (v : Vector) (s : Csr) → s.priv_mode ≤ 1 → csr_min_priv a ≤ 1 → Kept s (write_s a v s)
unfolding write_s
Kept-write_s a v s l m =
    Kept-if s (a == csr_sstatus) _ _
      (Kept-shared s (merge (bits_of sstatus_mask) s.mstatus v) s.mie s.mip_sw s.priv_mode l
        (λ i o p. merge_outside (bits_of sstatus_mask) s.mstatus v i o) (λ i d. refl) (λ i d. refl))
      (Kept-if s (a == csr_sie) _ _
        (Kept-shared s s.mstatus (merge s.mideleg s.mie (both v (bits_of mie_writable))) s.mip_sw
          s.priv_mode l (λ i o p. refl)
          (λ i d. merge_outside s.mideleg s.mie (both v (bits_of mie_writable)) i d) (λ i d. refl))
        (Kept-if s (a == csr_sip) _ _
          (Kept-shared s s.mstatus s.mie
            (merge (bits_of mip_s_writable) s.mip_sw (both v s.mideleg)) s.priv_mode l
            (λ i o p. refl) (λ i d. refl)
            (λ i d. merge_outside (bits_of mip_s_writable) s.mip_sw (both v s.mideleg) i d))
          (own (a == csr_stvec) (vector_base v) s.sscratch s.sepc s.scause s.stval s.satp (
            own (a == csr_sscratch) s.stvec v s.sepc s.scause s.stval s.satp (
              own (a == csr_sepc) s.stvec s.sscratch (aligned v) s.scause s.stval s.satp (
                own (a == csr_scause) s.stvec s.sscratch s.sepc v s.stval s.satp (
                  own (a == csr_stval) s.stvec s.sscratch s.sepc s.scause v s.satp (
                    own (a == csr_satp) s.stvec s.sscratch s.sepc s.scause s.stval v (
                      subst (λ (t : Csr). Kept s t) (sym (write_pmp_same a v s m)) (same l))))))))))
  where
    own :
        (b : Bool) (stvec sscratch sepc scause stval satp : Vector) {u : Csr}
        → Kept s u
        → Kept s (
            if b
            then record s {
              stvec = stvec;
              sscratch = sscratch;
              sepc = sepc;
              scause = scause;
              stval = stval;
              satp = satp;
            }
            else u)
    own b stvec sscratch sepc scause stval satp k =
        Kept-if s b _ _ (Kept-own s stvec sscratch sepc scause stval satp s.mcycle s.minstret l) k

    same : s.priv_mode ≤ 1 → Kept s s
    same below =
        Kept-own s s.stvec s.sscratch s.sepc s.scause s.stval s.satp s.mcycle s.minstret below

-- SRET writes bits of the supervisor's view, and MPRV.
Kept-leave_s : (s : Csr) → Kept s (leave_s s)
unfolding leave_s
Kept-leave_s s =
    Kept-shared s _ s.mie s.mip_sw _ (ground arith)
      (λ i o p. ground (
        arith,
        outside sstatus_mask i 8 refl o,
        outside sstatus_mask i 5 refl o,
        outside sstatus_mask i 1 refl o,
      ))
      (λ i d. refl) (λ i d. refl)

Kept-write :
    (x : Inputs) (s t : Csr)
    → s.priv_mode ≤ 1
    → t.priv_mode ≤ 1
    → do_write x s ≡ true
    → Kept t (write x.csr_addr (new_val x s) t)
unfolding do_write csr_illegal
Kept-write x s t l m e =
    let low : csr_min_priv x.csr_addr ≤ 1 = ground (arith, e, l) in
    subst (λ (u : Csr). Kept t u) (sym (write-write_s x.csr_addr (new_val x s) t low))
      (Kept-write_s x.csr_addr (new_val x s) t m low)

Kept-act :
    (x : Inputs) (s t : Csr)
    → s.priv_mode ≤ 1
    → t.priv_mode ≤ 1
    → x.trap_take ≡ false
    → x.mret ≡ false
    → Kept t (act x s t)
unfolding act
Kept-act x s t l m no_trap no_mret =
    not_taken _ x.trap_take no_trap
      (not_taken _ x.mret no_mret (by_sret x.sret (Bool-cases (do_write x s))))
  where
    stay : t.priv_mode ≤ 1 → Kept t t
    stay below =
        Kept-own t t.stvec t.sscratch t.sepc t.scause t.stval t.satp t.mcycle t.minstret below

    by_sret :
        (b : Bool)
        → (do_write x s ≡ true) ⊎ (do_write x s ≡ false)
        → Kept t
            (if b then leave_s t else if do_write x s then write x.csr_addr (new_val x s) t else t)
    by_sret true d = Kept-leave_s t
    by_sret false (inl d) = rw d (Kept-write x s t l m d)
    by_sret false (inr d) = rw d (stay m)

Kept-clock :
    (x : Inputs) (s : Csr)
    → s.priv_mode ≤ 1
    → x.trap_take ≡ false
    → x.mret ≡ false
    → Kept s (clock false x s)
unfolding clock tick
Kept-clock x s l no_trap no_mret =
    Kept-trans s (tick x s) (clock false x s)
      (Kept-own s s.stvec s.sscratch s.sepc s.scause s.stval s.satp (tick x s).mcycle
        (tick x s).minstret l)
      (Kept-act x s (tick x s) l l no_trap no_mret)

-- No edge of the list takes a trap or executes MRET.
unfoldable pub only_below : List Inputs → Bool
only_below [] = true
only_below (x ∷ xs) = not x.trap_take && not x.mret && only_below xs

-- Whatever instructions run in user or supervisor mode, until a reset or a trap (an MRET there is
-- illegal and takes one): the registers of machine mode but the counters, those of the PMP included,
-- stand as they were, of mstatus, mie and mip only the supervisor's bits and MPRV change, and the
-- privilege stays below machine mode.
pub after_edges-Kept :
    (xs : List Inputs) (s : Csr)
    → s.priv_mode ≤ 1
    → only_below xs ≡ true
    → Kept s (after_edges xs s)
unfolding after_edges only_below
after_edges-Kept [] s l e =
    Kept-own s s.stvec s.sscratch s.sepc s.scause s.stval s.satp s.mcycle s.minstret l
after_edges-Kept (x ∷ xs) s l e =
    let k = Kept-clock x s l (ground (arith, e)) (ground (arith, e)) in
    Kept-trans s (clock false x s) (after_edges xs (clock false x s)) k
      (after_edges-Kept xs (clock false x s) k.below (ground (arith, e)))
