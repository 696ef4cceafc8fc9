-- ===== src/Sim/Loop/Pass.antt =====
-- Every run of the main loop, and what an exit code of 0 means.
use qinglong_core.Prelude.{
  ℕ, zero, suc, ◌+◌, ◌-◌, ◌≤◌, ◌<◌, ◌≡◌, ◌≢◌, refl, true, false, ◌⊎◌, inl, inr, arith, ◌∙◌, sym,
  Bool-cases, le→not-ltb, le_or_lt,
}
use qinglong_core.Dpi.{sram_dpi_read}
use qinglong_core.Sim.Soc.{Soc}
use qinglong_core.Sim.Loop.{Sim, Options, simulate, run, check_timeout, minus_one}
use qinglong_core.Sim.Loop.Clock.{rise, fall, after, verdict, tohost_verdict, code_or, ends}
use qinglong_core.Sim.Loop.Run.{Quiet, Ended, simulate-Ended, simulate_cap}

module _ (soc : Soc) where
  open soc use {State, outputs, sram}

  -- Among the first `n` cycles there is a first one that ends the run, or none does.
  first_end :
      (o : Options) (n : ℕ) (t : State)
      → Quiet soc o n t
        ⊎ ((k : ℕ) × (k < n) × Quiet soc o k t × (ends soc o (after soc k t) ≡ true))
  first_end o zero t = inl tt
  first_end o (suc n) t = elim (Bool-cases (ends soc o t)) [
    | inl e ↦ inr (0, omega arith, tt, e)
    | inr e ↦ elim (first_end o n (fall soc t)) [
      | inl q ↦ inl (e, q)
      | inr (k, h, q, f) ↦ inr (suc k, omega arith, (e, q), f)
    ]
  ]

  -- How a run ends that starts at `s`: by its first ending cycle `n`, or at the cap.
  pub data Outcomes (o : Options) (timeout : ℕ) (s s' : Sim State) : Type 0 where
    by_cycle :
        (n : ℕ)
        → s.cycles + n < timeout
        → Quiet soc o n s.top
        → ends soc o (after soc n s.top) ≡ true
        → Ended soc o (suc n) (code_or soc (verdict soc o (after soc n s.top)) minus_one) s s'
        → Outcomes o timeout s s'
    at_cap :
        (n : ℕ)
        → s.cycles + n ≡ timeout
        → Quiet soc o n s.top
        → Ended soc o n 124 s s'
        → Outcomes o timeout s s'
    late : timeout < s.cycles → s'.exit_code ≡ 124 → s'.cycles ≡ s.cycles → Outcomes o timeout s s'

  simulate_late :
      (o : Options) (timeout : ℕ) (s : Sim State)
      → s.done ≡ false
      → timeout < s.cycles
      → ((simulate soc o timeout s).exit_code ≡ 124)
        × ((simulate soc o timeout s).cycles ≡ s.cycles)
  unfolding simulate run check_timeout
  simulate_late o timeout s d h =
      let none_left : timeout - s.cycles ≡ 0 = omega arith in
      rw (none_left, d, le→not-ltb s.cycles timeout (omega arith)) (refl, refl)

  below :
      (o : Options) (timeout : ℕ) (s : Sim State)
      → s.done ≡ false
      → s.exit_code ≡ minus_one
      → s.cycles ≤ timeout
      → Outcomes o timeout s (simulate soc o timeout s)
  below o timeout s d c h = elim (first_end o (timeout - s.cycles) s.top) [
    | inl q ↦
        at_cap (timeout - s.cycles) (omega arith) q
          (simulate_cap soc (timeout - s.cycles) o timeout s d q (omega arith))
    | inr (n, l, q, e) ↦
        by_cycle n (omega arith) q e (simulate-Ended soc n o timeout s d c q e (omega arith))
  ]

  -- Every run returns, by its first cycle that ends it, at the cap, or at once if the reset alone
  -- took more cycles than the cap: the fuel is enough.
  pub simulate-Outcomes :
      (o : Options) (timeout : ℕ) (s : Sim State)
      → s.done ≡ false
      → s.exit_code ≡ minus_one
      → Outcomes o timeout s (simulate soc o timeout s)
  simulate-Outcomes o timeout s d c = elim (le_or_lt s.cycles timeout) [
    | inr h ↦ late h (simulate_late o timeout s d h).0 (simulate_late o timeout s d h).1
    | inl h ↦ below o timeout s d c h
  ]

  -- A pass seen in a cycle from `t`: the MMIO exit register holds 0, or it is silent and `tohost` is 1.
  abbrev pub Passes : Options → State → Type 0
  Passes o t =
      ((outputs (rise soc t)).exit_valid ≡ true) × ((outputs (rise soc t)).exit_code ≡ 0)
      ⊎ ((outputs (rise soc t)).exit_valid ≡ false)
        × (o.tohost_addr ≢ 0)
        × (sram_dpi_read o.tohost_widx (sram (fall soc t)) ≡ 1)

  verdict-Passes :
      (o : Options) (t : State) → code_or soc (verdict soc o t) minus_one ≡ 0 → Passes o t
  unfolding verdict tohost_verdict
  verdict-Passes o t h = ground arith

  Outcomes-Passes :
      (o : Options) (timeout : ℕ) (s s' : Sim State)
      → Outcomes o timeout s s'
      → s'.exit_code ≡ 0
      → (n : ℕ) × (s.cycles + n < timeout) × Quiet soc o n s.top × Passes o (after soc n s.top)
  Outcomes-Passes o timeout s s' (by_cycle n h q e r) z =
      (n, h, q, verdict-Passes o (after soc n s.top) (sym r.final_code ∙ z))
  Outcomes-Passes o timeout s s' (at_cap n h q r) z = absurd (omega (arith, r.final_code))
  Outcomes-Passes o timeout s s' (late h e c) z = absurd (omega arith)

  -- The exit code is 0 only if some cycle below the cap shows a pass, with none before it that ended
  -- the run: a failure, a finish without a verdict or the cap is never reported as success.
  pub simulate_zero :
      (o : Options) (timeout : ℕ) (s : Sim State)
      → s.done ≡ false
      → s.exit_code ≡ minus_one
      → (simulate soc o timeout s).exit_code ≡ 0
      → (n : ℕ) × (s.cycles + n < timeout) × Quiet soc o n s.top × Passes o (after soc n s.top)
  simulate_zero o timeout s d c z =
      Outcomes-Passes o timeout s _ (simulate-Outcomes o timeout s d c) z
