-- ===== src/Hw/Divider/Riscv.antt =====
-- The divider edge by edge.
use mathlib.Core.Path.{subst}
use qinglong_core.Prelude.{
  ℕ, zero, suc, ◌+◌, ◌%◌, ◌^◌, ◌<◌, ◌≡◌, refl, sym, ap, ap₂, ◌∙◌, ◌==◌, if◌then◌else◌, Bool, true,
  false, arith, Bool-cases, inl, inr,
}
use qinglong_core.Hw.Divider.{
  DivInput, DivUnit, DivState, Config, Datapath, s_idle, s_init, s_compute, s_fixup, busy, clock,
  edge, divide_step, overflow_of, latch_config, latch_path,
}
use qinglong_core.Hw.Divider.Restore.{divide_steps}
use qinglong_core.Hw.Divider.Answer.{
  answer, fixed, by_zero, overflown, by_zero-answer, overflown_answer, fixed-answer,
}

-- Busy for `k` edges, whatever the inputs are at each, and then done with the result.
unfoldable pub Gives : ℕ → ℕ → DivUnit → Type 0
Gives v zero d = (d.done ≡ true) × (d.state ≡ s_idle) × (d.result ≡ v)
Gives v (suc k) d =
    (d.done ≡ false) × (busy d ≡ true) × ((j : DivInput) → Gives v k (clock false j d))

abbrev pub in_state : DivState → Config → Datapath → ℕ → DivUnit
in_state s c p v = record { state = s; done = false; result = v; config = c; path = p }

fixup_Gives : (c : Config) (p : Datapath) (v : ℕ) → Gives (fixed c p) 1 (in_state s_fixup c p v)
unfolding Gives clock edge
fixup_Gives c p v = (refl, refl, λ j. (refl, refl, refl))

compute_edge :
    (j : DivInput) (c : Config) (p : Datapath) (v : ℕ)
    → clock false j (in_state s_compute c p v)
      ≡ in_state (if p.iter == 31 then s_fixup else s_compute) c (divide_step p) v
unfolding clock edge
compute_edge j c p v = refl

iter_next : (p : Datapath) → (divide_step p).iter ≡ (p.iter + 1) % 64
unfolding divide_step
iter_next p = refl

compute_Gives :
    (k : ℕ) (c : Config) (p : Datapath) (v : ℕ)
    → p.iter + suc k ≡ 32
    → Gives (fixed c (divide_steps (suc k) p)) (suc (suc k)) (in_state s_compute c p v)
unfolding Gives divide_steps
compute_Gives zero c p v e = (
  refl,
  refl,
  λ j.
      let last : (p.iter == 31) ≡ true = ground arith in
      subst (Gives (fixed c (divide_step p)) 1)
        (sym (
          compute_edge j c p v
          ∙ ap (λ (b : Bool). in_state (if b then s_fixup else s_compute) c (divide_step p) v)
              last))
        (fixup_Gives c (divide_step p) v),
)
compute_Gives (suc k) c p v e = (
  refl,
  refl,
  λ j.
      let more : (p.iter == 31) ≡ false = ground arith in
      subst (Gives (fixed c (divide_steps (suc k) (divide_step p))) (suc (suc k)))
        (sym (
          compute_edge j c p v
          ∙ ap (λ (b : Bool). in_state (if b then s_fixup else s_compute) c (divide_step p) v)
              more))
        (compute_Gives k c (divide_step p) v (omega (arith, e, iter_next p))),
)

abbrev finished : ℕ → Config → Datapath → DivUnit
finished v c p = record { state = s_idle; done = true; result = v; config = c; path = p }

finished-Gives : (v : ℕ) (c : Config) (p : Datapath) → Gives v 0 (finished v c p)
unfolding Gives
finished-Gives v c p = (refl, refl, refl)

abbrev after_init : Bool → Bool → Config → Datapath → ℕ → DivUnit
after_init z o c p v =
    if z
    then finished (by_zero c p) c p
    else if o
    then finished (overflown c) c p
    else in_state s_compute c p v

init_edge :
    (j : DivInput) (c : Config) (p : Datapath) (v : ℕ)
    → clock false j (in_state s_init c p v) ≡ after_init c.div_by_zero c.overflow c p v
unfolding clock edge
init_edge j c p v = refl

init_Gives :
    (w k : ℕ) (z o : Bool) (c : Config) (p : Datapath) (v : ℕ)
    → c.div_by_zero ≡ z
    → c.overflow ≡ o
    → Gives w k (after_init z o c p v)
    → Gives w (suc k) (in_state s_init c p v)
unfolding Gives
init_Gives w k z o c p v ez eo g = (
  refl,
  refl,
  λ j.
      subst (Gives w k)
        (sym (
          init_edge j c p v
          ∙ ap (λ (b : Bool). after_init b c.overflow c p v) ez
          ∙ ap (λ (b : Bool). after_init z b c p v) eo))
        g,
)

start_edge :
    (i : DivInput) (d : DivUnit)
    → d.state ≡ s_idle
    → i.start ≡ true
    → clock false i d ≡ in_state s_init (latch_config i) (latch_path i) d.result
unfolding clock edge
start_edge i d e g =
    ap (λ (s : DivState). edge i s (record d { done = false })) e
    ∙ ap
        (λ (b : Bool).
          if b
          then in_state s_init (latch_config i) (latch_path i) d.result
          else record d { done = false })
        g

-- The number of edges behind the start.
abbrev pub latency : DivInput → ℕ
latency i = if i.divisor == 0 then 1 else if overflow_of i then 1 else 34

overflow_answer : (i : DivInput) → overflow_of i ≡ true → overflown (latch_config i) ≡ answer i
unfolding answer
overflow_answer i o =
    overflown_answer i.want_rem i.is_signed i.dividend i.divisor (ground arith) (ground arith)
      (ground arith)

latency_is :
    (i : DivInput) (z o : Bool)
    → (i.divisor == 0) ≡ z
    → overflow_of i ≡ o
    → (if z then 1 else if o then 1 else 34) ≡ latency i
latency_is i z o ez eo =
    ap₂ (λ (a b : Bool). if a then 1 else if b then 1 else 34) (sym ez) (sym eo)

after_start :
    (i : DivInput) (v : ℕ)
    → i.dividend < 2 ^ 32
    → i.divisor < 2 ^ 32
    → Gives (answer i) (latency i) (in_state s_init (latch_config i) (latch_path i) v)
after_start i v lx ly =
    let c = latch_config i in
    let p = latch_path i in
    elim (Bool-cases (i.divisor == 0)) [
      | inl z ↦
          subst (λ (k : ℕ). Gives (answer i) k (in_state s_init c p v))
            (latency_is i true (overflow_of i) z refl)
            (init_Gives (answer i) 0 true (overflow_of i) c p v z refl (
              subst (λ (w : ℕ). Gives w 0 (finished (by_zero c p) c p)) (by_zero-answer i lx z)
                (finished-Gives (by_zero c p) c p)))
      | inr z ↦ elim (Bool-cases (overflow_of i)) [
        | inl o ↦
            subst (λ (k : ℕ). Gives (answer i) k (in_state s_init c p v))
              (latency_is i false true z o)
              (init_Gives (answer i) 0 false true c p v z o (
                subst (λ (w : ℕ). Gives w 0 (finished (overflown c) c p)) (overflow_answer i o)
                  (finished-Gives (overflown c) c p)))
        | inr o ↦
            subst (λ (k : ℕ). Gives (answer i) k (in_state s_init c p v))
              (latency_is i false false z o)
              (init_Gives (answer i) 33 false false c p v z o (
                subst (λ (w : ℕ). Gives w 33 (in_state s_compute c p v)) (fixed-answer i lx ly z)
                  (compute_Gives 31 c p v refl)))
      ]
    ]

-- From an idle divider, a start with two words is answered as the RISC-V M extension says, for all
-- four instructions, with a divisor of 0 and with the overflow included: whatever the inputs do
-- meanwhile, the divider is busy for exactly the stated number of edges, 1 for the two short cases
-- and else 34, and is then done, idle again, with the answer in `result`.
pub clock-Gives :
    (i : DivInput) (d : DivUnit)
    → d.state ≡ s_idle
    → i.start ≡ true
    → i.dividend < 2 ^ 32
    → i.divisor < 2 ^ 32
    → Gives (answer i) (latency i) (clock false i d)
clock-Gives i d e g lx ly =
    subst (Gives (answer i) (latency i)) (sym (start_edge i d e g)) (after_start i d.result lx ly)
