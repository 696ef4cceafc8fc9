-- ===== src/Sim/Top/Exit.antt =====
-- How the stores of the program to the MMIO block end the run of the testbench.
use mathlib.Core.Path.{subst}
use qinglong_core.Prelude.{
  ℕ, zero, suc, ◌+◌, ◌≤◌, ◌<◌, ◌≡◌, refl, sym, ap, ap₂, ◌∙◌, if◌then◌else◌, Bool, true, false, ◌||◌,
  Bytes, List, [], ◌∷◌, ◌++◌, arith, Option, some, none,
}
use qinglong_core.Hw.Mmio.{Mmio}
use qinglong_core.Hw.Mmio.Tap.{
  Cycle, next, exit_store, exit_stores, all_printed, last_or, some_of, exit_next,
}
use qinglong_core.Sim.Loop.{Sim, Options, simulate, reset, minus_one}
use qinglong_core.Sim.Loop.Clock.{fall, verdict, tohost_verdict, code_or, is_set, ends, consoles}
use qinglong_core.Sim.Loop.Run.{Quiet}
use qinglong_core.Sim.Loop.Pass.{Outcomes, by_cycle, at_cap, late, simulate-Outcomes}
use qinglong_core.Sim.Top.{Rest, Top, top}
use qinglong_core.Sim.Top.Steps.{
  inputs, step, requests, steps, fall-step, rise-next, reset_low, reset-reset_mmio, after-steps,
  consoles-all_printed,
}

module _ (rest : Rest) where
  module _ (o : Options) (no_tohost : o.tohost_addr ≡ 0)
      (no_finish : (r : rest.State) → rest.got_finish r ≡ false) where
    with_verdict :
        (b b2 v : Bool) (c c2 : ℕ) (h : Option ℕ)
        → b ≡ (v || b2)
        → c ≡ c2
        → v ≡ false
        → h ≡ none
        → (if b then some c else h) ≡ (if b2 then some c2 else none)
    with_verdict b b2 v c c2 h eb ec ev eh = rw (eb, ec, ev, eh) refl

    tohost_silent : (t : Top rest) → tohost_verdict (top rest) o t ≡ none
    unfolding tohost_verdict
    tohost_silent t = rw no_tohost refl

    verdict_stores :
        (t : Top rest)
        → t.clk ≡ false
        → t.mmio.exit_valid ≡ false
        → verdict (top rest) o t ≡ (
            if some_of (exit_store (inputs rest t))
            then some (last_or t.mmio.exit_code (exit_store (inputs rest t)))
            else none)
    unfolding verdict tohost_verdict
    verdict_stores t e v =
        let (valid, code) = exit_next (inputs rest t) t.mmio in
        ap
          (λ (m : Mmio).
            if m.exit_valid
            then some m.exit_code
            else tohost_verdict (top rest) o (fall (top rest) t))
          (rise-next rest t e)
        ∙ with_verdict (next (inputs rest t) t.mmio).exit_valid
            (some_of (exit_store (inputs rest t))) t.mmio.exit_valid
            (next (inputs rest t) t.mmio).exit_code
            (last_or t.mmio.exit_code (exit_store (inputs rest t)))
            (tohost_verdict (top rest) o (fall (top rest) t)) valid code v
            (tohost_silent (fall (top rest) t))

    ends_stores :
        (t : Top rest)
        → t.clk ≡ false
        → t.mmio.exit_valid ≡ false
        → ends (top rest) o t ≡ some_of (exit_store (inputs rest t))
    unfolding ends
    ends_stores t e v =
        ap₂ (λ (d : Option ℕ) (b : Bool). is_set (top rest) d || b) (verdict_stores t e v)
          (no_finish (fall (top rest) t).inner)
        ∙ plain (some_of (exit_store (inputs rest t)))
            (last_or t.mmio.exit_code (exit_store (inputs rest t)))
      where
        plain : (b : Bool) (c : ℕ) → (is_set (top rest) (if b then some c else none) || false) ≡ b
        plain b c = ground arith

    -- A cycle without a store leaves the exit register silent.
    exit_silent :
        (t : Top rest)
        → t.mmio.exit_valid ≡ false
        → some_of (exit_store (inputs rest t)) ≡ false
        → (step rest t).mmio.exit_valid ≡ false
    exit_silent t v e = (exit_next (inputs rest t) t.mmio).0 ∙ ap₂ (λ (a b : Bool). a || b) v e

    none_stored : (es fs : List ℕ) → some_of es ≡ false → fs ≡ [] → es ++ fs ≡ []
    none_stored [] fs e f = f
    none_stored (x ∷ es) fs e f = absurd (ground (arith, e))

    -- Cycles that do not end the run store nothing, and come to a state like the first.
    Quiet-requests :
        (n : ℕ) (t : Top rest)
        → t.clk ≡ false
        → t.mmio.exit_valid ≡ false
        → Quiet (top rest) o n t
        → (exit_stores (requests rest n t) ≡ [])
          × ((steps rest n t).clk ≡ false)
          × ((steps rest n t).mmio.exit_valid ≡ false)
    unfolding requests steps exit_stores
    Quiet-requests zero t e v q = (refl, e, v)
    Quiet-requests (suc n) t e v (q, qs) =
        let no : some_of (exit_store (inputs rest t)) ≡ false = sym (ends_stores t e v) ∙ q in
        let (r, c, x) =
          Quiet-requests n (step rest t) refl (exit_silent t v no)
            (subst (λ (u : Top rest). Quiet (top rest) o n u) (fall-step rest t e) qs) in
        (
          none_stored (exit_store (inputs rest t)) (exit_stores (requests rest n (step rest t))) no
              r,
          c,
          x,
        )

    -- How a run from `t` after reset ends: by the first store to the exit register, or at the cap.
    pub data Stops (timeout : ℕ) (t : Top rest) (s : Sim (Top rest)) : Type 0 where
      by_store :
          (k v : ℕ)
          → 10 + k < timeout
          → exit_stores (requests rest k t) ≡ []
          → exit_store (inputs rest (steps rest k t)) ≡ v ∷ []
          → s.exit_code ≡ v
          → s.cycles ≡ 11 + k
          → s.console ≡ all_printed (requests rest (suc k) t)
          → Stops timeout t s
      timed_out :
          (k : ℕ)
          → 10 + k ≡ timeout
          → exit_stores (requests rest k t) ≡ []
          → s.exit_code ≡ 124
          → s.cycles ≡ timeout
          → s.console ≡ all_printed (requests rest k t)
          → Stops timeout t s

    stored_value : (c : Cycle) → some_of (exit_store c) ≡ true → exit_store c ≡ c.request.wdata ∷ []
    stored_value c e = ground (arith, e)

    code_stored :
        (t : Top rest)
        → t.clk ≡ false
        → t.mmio.exit_valid ≡ false
        → some_of (exit_store (inputs rest t)) ≡ true
        → code_or (top rest) (verdict (top rest) o t) minus_one ≡ (inputs rest t).request.wdata
    unfolding last_or
    code_stored t e v st =
        ap (λ (d : Option ℕ). code_or (top rest) d minus_one) (verdict_stores t e v)
        ∙ taken (exit_store (inputs rest t)) (inputs rest t).request.wdata t.mmio.exit_code
            (stored_value (inputs rest t) st)
      where
        taken :
            (es : List ℕ) (w c : ℕ)
            → es ≡ w ∷ []
            → code_or (top rest) (if some_of es then some (last_or c es) else none) minus_one ≡ w
        taken es w c h = rw h refl

    -- The outcomes of the loop, from a state after reset.
    Outcomes-Stops :
        (timeout : ℕ) (s s' : Sim (Top rest))
        → s.cycles ≡ 10
        → s.console ≡ []
        → s.top.clk ≡ false
        → s.top.mmio.exit_valid ≡ false
        → 10 ≤ timeout
        → Outcomes (top rest) o timeout s s'
        → Stops timeout s.top s'
    Outcomes-Stops timeout s s' n c e v l (by_cycle k h q stop r) =
        let (silent, low, valid) = Quiet-requests k s.top e v q in
        let at = after-steps rest k s.top e in
        let st : some_of (exit_store (inputs rest (steps rest k s.top))) ≡ true =
          sym (ends_stores (steps rest k s.top) low valid)
          ∙ ap (ends (top rest) o) (sym at)
          ∙ stop in
        by_store k (inputs rest (steps rest k s.top)).request.wdata (omega (arith, h, n)) silent
          (stored_value (inputs rest (steps rest k s.top)) st)
          (r.final_code
            ∙ ap (λ (u : Top rest). code_or (top rest) (verdict (top rest) o u) minus_one) at
            ∙ code_stored (steps rest k s.top) low valid st)
          (omega (arith, r.final_cycles, n))
          (r.final_console
            ∙ ap (λ (b : Bytes). b ++ consoles (top rest) (suc k) s.top) c
            ∙ consoles-all_printed rest (suc k) s.top e)
    Outcomes-Stops timeout s s' n c e v l (at_cap k h q r) =
        timed_out k (omega (arith, h, n)) (Quiet-requests k s.top e v q).0 r.final_code
          (omega (arith, r.final_cycles, h))
          (r.final_console
            ∙ ap (λ (b : Bytes). b ++ consoles (top rest) k s.top) c
            ∙ consoles-all_printed rest k s.top e)
    Outcomes-Stops timeout s s' n c e v l (late h x y) = absurd (omega (arith, h, n, l))

    -- Whatever the rest of the SoC does, a run of the testbench without `tohost` and without $finish,
    -- with a cap of at least the ten half cycles of the reset, ends in one of two ways. With the first
    -- store of the program to the exit register: the exit code is the whole 32-bit word, the cycle that
    -- of the store, and the console holds the bytes stored to the console register up to then, in
    -- order. Or, without such a store below the cap, at the cap with 124 and all such bytes printed.
    pub simulate-Stops :
        (timeout : ℕ) (t : Top rest)
        → 10 ≤ timeout
        → Stops timeout
            (reset (top rest) t).top
            (simulate (top rest) o timeout (reset (top rest) t))
    unfolding reset
    simulate-Stops timeout t l =
        Outcomes-Stops timeout (reset (top rest) t) _ refl refl (reset_low rest t)
          (ap (λ (m : Mmio). m.exit_valid) (reset-reset_mmio rest t)) l
          (simulate-Outcomes (top rest) o timeout (reset (top rest) t) refl refl)
